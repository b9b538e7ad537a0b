-- ===== src/Api/Unchanged.antt =====
-- The reading routes change nothing.
use test_exchange_backend.Base.{ℕ, Bool, List}
use test_exchange_backend.Session.{M}
use test_exchange_backend.Session.Reads.{Reads, Reads-bind, Reads-pure, reads_rules}
use test_exchange_backend.Api.Requests.{CurrentUser, Settings, get_active_user, get_moderator}
use test_exchange_backend.Api.Queries.{Query, Response, respond, authorise, response, answer}
use test_exchange_backend.Quality.{build_submission_quality_check}
use test_exchange_backend.Reading.{
  list_public_campaigns, list_owned_campaigns, list_credit_entries, list_notifications,
  list_waitlist, list_participants, list_assignment_audit, list_user_assignments,
  list_user_disputes, list_disputes,
}
use test_exchange_backend.Routes.ModerationRoutes.{case_response}
use test_exchange_backend.Reading.{ModerationCase}
use test_exchange_backend.Stability.Reading.{
  Reads-get_profile, Reads-get_campaign, Reads-get_assignment, Reads-require_campaign_owner,
  Reads-require_assignment_participant, Reads-get_submission, Reads-list_testing_sessions,
  Reads-list_submissions, Reads-list_messages, Reads-list_submission_reviews,
  Reads-get_moderation_case, Reads-campaign_response, Reads-assignment_response,
  Reads-contract_response, Reads-submission_response, Reads-for_each,
}

pub ruleset query_rules = (
  reads_rules, Reads-get_profile, Reads-get_campaign, Reads-get_assignment,
  Reads-require_campaign_owner, Reads-require_assignment_participant, Reads-get_submission,
  Reads-list_testing_sessions, Reads-list_submissions, Reads-list_messages,
  Reads-list_submission_reviews, Reads-get_moderation_case, Reads-campaign_response,
  Reads-assignment_response, Reads-contract_response, Reads-submission_response, Reads-for_each,
)

Reads-respond : {A : Type 0} (make : A → Response) (m : M A) → Reads m → Reads (respond make m)
unfolding respond
Reads-respond make m h = search (reads_rules, h)

Reads-get_active_user : (user : CurrentUser) → Reads (get_active_user user)
unfolding get_active_user
Reads-get_active_user user = search reads_rules

Reads-get_moderator :
    (settings : Settings) (user : CurrentUser) → Reads (get_moderator settings user)
unfolding get_moderator
Reads-get_moderator settings user = search (reads_rules, Reads-get_active_user)

Reads-authorise :
    (settings : Settings) (user : CurrentUser) (query : Query)
    → Reads (authorise settings user query)
unfolding authorise
Reads-authorise settings user Query.read_profile = Reads-get_active_user user
Reads-authorise settings user _ = search (reads_rules, Reads-get_active_user, Reads-get_moderator)

Reads-case_response : (c : ModerationCase) → Reads (case_response c)
unfolding case_response
Reads-case_response c = search query_rules depth 20

module _ (is_space : ℕ → Bool) (lower : List ℕ → List ℕ) where
  Reads-build_submission_quality_check :
      (submission_id user_id : ℕ)
      → Reads (build_submission_quality_check is_space lower submission_id user_id)
  unfolding build_submission_quality_check
  Reads-build_submission_quality_check submission_id user_id = search query_rules depth 20

  Reads-response :
      (settings : Settings) (user : CurrentUser) (query : Query)
      → Reads (response is_space lower settings user query)
  unfolding response list_public_campaigns list_owned_campaigns list_credit_entries
      list_notifications list_waitlist list_participants list_assignment_audit list_user_assignments
      list_user_disputes list_disputes
  Reads-response settings user Query.read_profile = search (query_rules, Reads-respond) depth 20
  Reads-response settings user _ =
      search (query_rules, Reads-respond, Reads-case_response, Reads-build_submission_quality_check)
        depth 20

-- No reading request changes the database, whoever sends it: where it is answered, every table is as
-- it was.
pub answer-Reads :
    (is_space : ℕ → Bool) (lower : List ℕ → List ℕ) (settings : Settings) (user : CurrentUser)
    (query : Query)
    → Reads (answer is_space lower settings user query)
unfolding answer
answer-Reads is_space lower settings user query =
    Reads-bind _ _ (Reads-authorise settings user query)
      λ _. Reads-response is_space lower settings user query
