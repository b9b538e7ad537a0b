-- ===== src/Stability/Reading.antt =====
-- The queries and the responses only read.
use test_exchange_backend.Base.{ℕ, Option, none, some, List, [], ◌∷◌}
use test_exchange_backend.Model.Entities.{Campaign, Assignment}
use test_exchange_backend.Session.{M}
use test_exchange_backend.Session.Reads.{Reads, Reads-pure, Reads-bind, reads_rules}
use test_exchange_backend.Common.{
  get_profile, get_campaign, get_assignment, require_campaign_owner, require_assignment_participant,
}
use test_exchange_backend.Campaigns.{get_contract}
use test_exchange_backend.Workflow.{or_crash}
use test_exchange_backend.Reading.{
  list_testing_sessions, get_submission, list_submissions, list_submission_reviews, list_messages,
  get_moderation_case,
}
use test_exchange_backend.Routes.{
  for_each, campaign_response, assignment_response, contract_response, submission_response,
}

module _ {A : Type 0} where
  pub Reads-or_crash : (o : Option A) → Reads (or_crash o)
  unfolding or_crash
  Reads-or_crash none = search reads_rules
  Reads-or_crash (some a) = search reads_rules

pub Reads-get_profile : (id : ℕ) → Reads (get_profile id)
unfolding get_profile
Reads-get_profile id = search reads_rules depth 30

pub Reads-get_campaign : (id : ℕ) → Reads (get_campaign id)
unfolding get_campaign
Reads-get_campaign id = search reads_rules depth 30

pub Reads-get_assignment : (id : ℕ) → Reads (get_assignment id)
unfolding get_assignment
Reads-get_assignment id = search reads_rules depth 30

pub Reads-require_campaign_owner :
    (campaign : Campaign) (user_id : ℕ) → Reads (require_campaign_owner campaign user_id)
unfolding require_campaign_owner
Reads-require_campaign_owner campaign user_id = search reads_rules depth 30

pub Reads-require_assignment_participant :
    (assignment : Assignment) (user_id : ℕ)
    → Reads (require_assignment_participant assignment user_id)
unfolding require_assignment_participant
Reads-require_assignment_participant assignment user_id =
    search (reads_rules, Reads-get_campaign) depth 30

pub Reads-get_contract : (campaign_id : ℕ) → Reads (get_contract campaign_id)
unfolding get_contract
Reads-get_contract campaign_id = search reads_rules depth 30

pub Reads-get_submission :
    (submission_id user_id : ℕ) → Reads (get_submission submission_id user_id)
unfolding get_submission
Reads-get_submission submission_id user_id =
    search (reads_rules, Reads-get_assignment, Reads-require_assignment_participant) depth 30

pub Reads-list_testing_sessions :
    (assignment_id user_id : ℕ) → Reads (list_testing_sessions assignment_id user_id)
unfolding list_testing_sessions
Reads-list_testing_sessions assignment_id user_id =
    search (reads_rules, Reads-get_assignment, Reads-require_assignment_participant) depth 30

pub Reads-list_submissions :
    (assignment_id user_id : ℕ) → Reads (list_submissions assignment_id user_id)
unfolding list_submissions
Reads-list_submissions assignment_id user_id =
    search (reads_rules, Reads-get_assignment, Reads-require_assignment_participant) depth 30

pub Reads-list_messages : (assignment_id user_id : ℕ) → Reads (list_messages assignment_id user_id)
unfolding list_messages
Reads-list_messages assignment_id user_id =
    search (reads_rules, Reads-get_assignment, Reads-require_assignment_participant) depth 30

pub Reads-list_submission_reviews :
    (submission_id user_id : ℕ) → Reads (list_submission_reviews submission_id user_id)
unfolding list_submission_reviews
Reads-list_submission_reviews submission_id user_id =
    search (reads_rules, Reads-get_submission) depth 30

pub Reads-get_moderation_case : (dispute_id : ℕ) → Reads (get_moderation_case dispute_id)
unfolding get_moderation_case
Reads-get_moderation_case dispute_id = search (reads_rules, Reads-get_campaign) depth 30

pub Reads-campaign_response : (campaign : Campaign) → Reads (campaign_response campaign)
unfolding campaign_response
Reads-campaign_response campaign = search (reads_rules, Reads-or_crash) depth 30

pub Reads-assignment_response : (assignment : Assignment) → Reads (assignment_response assignment)
unfolding assignment_response
Reads-assignment_response assignment = search (reads_rules, Reads-or_crash) depth 30

pub Reads-contract_response : (campaign_id : ℕ) → Reads (contract_response campaign_id)
unfolding contract_response
Reads-contract_response campaign_id = search (reads_rules, Reads-get_contract) depth 30

pub Reads-submission_response :
    (submission_id user_id : ℕ) → Reads (submission_response submission_id user_id)
unfolding submission_response
Reads-submission_response submission_id user_id =
    search (reads_rules, Reads-get_submission) depth 30

module _ {A B : Type 0} where
  pub Reads-for_each :
      (f : A → M B) (rows : List A) → ((a : A) → Reads (f a)) → Reads (for_each f rows)
  unfolding for_each
  Reads-for_each f [] h = search reads_rules
  Reads-for_each f (a ∷ rest) h =
      Reads-bind _ _ (h a) λ b. Reads-bind _ _ (Reads-for_each f rest h) λ others. Reads-pure _
