-- ===== src/Api/Workspaces.antt =====
-- Who may read the workspace of an assignment.
use test_exchange_backend.Base.{
  ℕ, Bool, true, false, not, ◌||◌, List, Option, none, some, ◌≡◌, ◌⊎◌, refl, arith, inl, find, any,
  ◌==◌,
}
use test_exchange_backend.Model.Entities.{Campaign, Assignment, EvidenceSubmission, Dispute}
use test_exchange_backend.Session.{
  Session, M, ok, gets, or_raise, raise_if, pure, domain_error, ◌>>=◌,
}
use test_exchange_backend.Common.{get_campaign, get_assignment, require_assignment_participant}
use test_exchange_backend.Reading.{
  is_own_assignment, takes_part, get_submission, list_testing_sessions, list_submissions,
  list_messages, list_submission_reviews,
}
use test_exchange_backend.Quality.{build_submission_quality_check}
use test_exchange_backend.Routes.{submission_response}
use test_exchange_backend.Api.Requests.{CurrentUser, Settings}
use test_exchange_backend.Api.Access.{
  Raises, Raises-bind, then-Raises, get_active_user-Raises, get_moderator-Raises, no_moderator,
}
use test_exchange_backend.Api.Queries.{Query, respond, authorise, response, answer}

-- the assignment of a submission
abbrev owner_of : Option EvidenceSubmission → Option ℕ
owner_of none = none
owner_of (some e) = some e.assignment_id

-- the assignment whose workspace a query reads
unfoldable pub workspace_of : Session → Query → Option ℕ
workspace_of s (Query.assignment assignment_id) = some assignment_id
workspace_of s (Query.assignment_campaign assignment_id) = some assignment_id
workspace_of s (Query.assignment_contract assignment_id) = some assignment_id
workspace_of s (Query.testing_sessions assignment_id) = some assignment_id
workspace_of s (Query.submissions assignment_id) = some assignment_id
workspace_of s (Query.messages assignment_id) = some assignment_id
workspace_of s (Query.audit assignment_id) = some assignment_id
workspace_of s (Query.submission submission_id) =
    owner_of (find (λ e. e.id == submission_id) s.submissions)
workspace_of s (Query.submission_quality_check submission_id) =
    owner_of (find (λ e. e.id == submission_id) s.submissions)
workspace_of s (Query.reviews submission_id) =
    owner_of (find (λ e. e.id == submission_id) s.submissions)
workspace_of s _ = none

abbrev case_of : Option Dispute → Option ℕ
case_of none = none
case_of (some d) = some d.assignment_id

-- the assignment that a query reads from, as a participant or as a moderator
unfoldable pub reads_from : Session → Query → Option ℕ
unfolding workspace_of
reads_from s (Query.dispute_case dispute_id) = case_of (find (λ d. d.id == dispute_id) s.disputes)
reads_from s query = workspace_of s query

-- a moderator who asks for the case of a dispute
unfoldable pub moderates : Settings → CurrentUser → Query → Bool
moderates settings user (Query.dispute_case dispute_id) =
    any (λ id. id == user.id) settings.moderator_user_ids
moderates settings user _ = false

stranger :
    (user_id : ℕ) (a : Assignment) (c : Campaign)
    → (a.tester_id == user_id || c.owner_id == user_id) ≡ false
    → not (user_id == a.tester_id || user_id == c.owner_id) ≡ true
stranger user_id a c outside = ground arith

some-same : {i j : ℕ} → some i ≡ some j → i ≡ j
some-same h = cc

authorise-Raises :
    (settings : Settings) (user : CurrentUser) (query : Query) (s : Session)
    → (authorise settings user query s ≡ ok (tt, s)) ⊎ Raises (authorise settings user query) s
unfolding authorise pure
authorise-Raises settings user (Query.all_disputes status_filter) s =
    get_moderator-Raises settings user s
authorise-Raises settings user (Query.dispute_case dispute_id) s =
    get_moderator-Raises settings user s
authorise-Raises settings user Query.participants s = get_moderator-Raises settings user s
authorise-Raises settings user Query.read_waitlist s = get_moderator-Raises settings user s
authorise-Raises settings user Query.public_beta_status s = inl refl
authorise-Raises settings user Query.public_campaigns s = inl refl
authorise-Raises settings user (Query.public_campaign slug) s = inl refl
authorise-Raises settings user _ s = get_active_user-Raises user s

require-refuses :
    (a : Assignment) (user_id : ℕ) (s : Session) (o : Option Campaign)
    → find (λ c. c.id == a.campaign_id) s.campaigns ≡ o
    → takes_part user_id a o ≡ false
    → Raises (require_assignment_participant a user_id) s
unfolding require_assignment_participant get_campaign gets or_raise raise_if takes_part pure ◌>>=◌
require-refuses a user_id s none found outside =
    (domain_error "Campaign not found" 404, rw found refl)
require-refuses a user_id s (some c) found outside = (
  domain_error "This workspace is private to its tester and campaign owner" 403,
  rw (found, stranger user_id a c outside) refl,
)

require-Raises :
    (a : Assignment) (user_id : ℕ) (s : Session)
    → is_own_assignment user_id s a ≡ false
    → Raises (require_assignment_participant a user_id) s
unfolding is_own_assignment
require-Raises a user_id s outside = require-refuses a user_id s _ refl outside

assignment_found :
    (id : ℕ) (a : Assignment) (s : Session)
    → find (λ x. x.id == id) s.assignments ≡ some a
    → get_assignment id s ≡ ok (a, s)
unfolding get_assignment gets or_raise ◌>>=◌
assignment_found id a s found = rw found refl

module _ {A B : Type 0} where
  Raises-after :
      (m : M A) (f : A → M B) (a : A) (s : Session)
      → m s ≡ ok (a, s)
      → Raises (f a) s
      → Raises (m >>= f) s
  unfolding ◌>>=◌
  Raises-after m f a s passes (e, h) = (e, rw passes h)

module _ {B : Type 0} where
  -- what stands behind the check of a participant
  behind_check :
      (id user_id : ℕ) (a : Assignment) (s : Session) (rest : Assignment → Campaign → M B)
      → find (λ x. x.id == id) s.assignments ≡ some a
      → is_own_assignment user_id s a ≡ false
      → Raises
          (get_assignment id >>= λ row. require_assignment_participant row user_id >>= rest row)
          s
  behind_check id user_id a s rest found outside =
      Raises-after (get_assignment id) _ a s (assignment_found id a s found) (
        Raises-bind (require_assignment_participant a user_id) (rest a) s
          (require-Raises a user_id s outside))

owner_of-some :
    (o : Option EvidenceSubmission) (id : ℕ)
    → owner_of o ≡ some id
    → (e : EvidenceSubmission) × ((o ≡ some e) × (e.assignment_id ≡ id))
owner_of-some none id h = cc
owner_of-some (some e) id h = (e, (refl, cc))

submission_found :
    (submission_id : ℕ) (e : EvidenceSubmission) (s : Session)
    → find (λ x. x.id == submission_id) s.submissions ≡ some e
    → or_raise (find (λ x. x.id == submission_id) s.submissions) "Submission not found" 404 s
      ≡ ok (e, s)
unfolding or_raise
submission_found submission_id e s found = rw found refl

get_submission-Raises :
    (submission_id user_id id : ℕ) (a : Assignment) (s : Session)
    → owner_of (find (λ e. e.id == submission_id) s.submissions) ≡ some id
    → find (λ x. x.id == id) s.assignments ≡ some a
    → is_own_assignment user_id s a ≡ false
    → Raises (get_submission submission_id user_id) s
unfolding get_submission gets
get_submission-Raises submission_id user_id id a s owned found outside =
    let (e, (is_row, same)) = owner_of-some _ id owned in
    Raises-after (gets (λ s'. find (λ x. x.id == submission_id) s'.submissions)) _ _ s refl (
      Raises-after
        (or_raise (find (λ x. x.id == submission_id) s.submissions) "Submission not found" 404) _ e
        s (submission_found submission_id e s is_row)
        (behind_check e.assignment_id user_id a s _ (rw same found) outside))

module _ (is_space : ℕ → Bool) (lower : List ℕ → List ℕ) where
  response-Raises :
      (settings : Settings) (user : CurrentUser) (query : Query) (s : Session) (id : ℕ)
      (a : Assignment)
      → workspace_of s query ≡ some id
      → find (λ x. x.id == id) s.assignments ≡ some a
      → is_own_assignment user.id s a ≡ false
      → Raises (response is_space lower settings user query) s
  unfolding response workspace_of respond submission_response list_testing_sessions list_submissions
      list_messages list_submission_reviews build_submission_quality_check
  response-Raises settings user (Query.assignment assignment_id) s id a names found outside =
      Raises-bind _ _ s
        (behind_check assignment_id user.id a s _ (rw (some-same names) found) outside)
  response-Raises settings user (Query.assignment_campaign assignment_id) s id a names found
        outside =
      Raises-bind _ _ s
        (behind_check assignment_id user.id a s _ (rw (some-same names) found) outside)
  response-Raises settings user (Query.assignment_contract assignment_id) s id a names found
        outside =
      Raises-bind _ _ s
        (behind_check assignment_id user.id a s _ (rw (some-same names) found) outside)
  response-Raises settings user (Query.testing_sessions assignment_id) s id a names found outside =
      Raises-bind _ _ s (
        Raises-bind _ _ s
          (behind_check assignment_id user.id a s _ (rw (some-same names) found) outside))
  response-Raises settings user (Query.submissions assignment_id) s id a names found outside =
      Raises-bind _ _ s (
        Raises-bind _ _ s
          (behind_check assignment_id user.id a s _ (rw (some-same names) found) outside))
  response-Raises settings user (Query.messages assignment_id) s id a names found outside =
      Raises-bind _ _ s (
        Raises-bind _ _ s
          (behind_check assignment_id user.id a s _ (rw (some-same names) found) outside))
  response-Raises settings user (Query.audit assignment_id) s id a names found outside =
      Raises-bind _ _ s
        (behind_check assignment_id user.id a s _ (rw (some-same names) found) outside)
  response-Raises settings user (Query.submission submission_id) s id a names found outside =
      Raises-bind _ _ s
        (Raises-bind _ _ s (get_submission-Raises submission_id user.id id a s names found outside))
  response-Raises settings user (Query.submission_quality_check submission_id) s id a names found
        outside =
      Raises-bind _ _ s
        (Raises-bind _ _ s (get_submission-Raises submission_id user.id id a s names found outside))
  response-Raises settings user (Query.reviews submission_id) s id a names found outside =
      Raises-bind _ _ s (
        Raises-bind _ _ s (
          Raises-bind _ _ s
            (get_submission-Raises submission_id user.id id a s names found outside)))
  response-Raises settings user _ s id a names found outside = cc

-- The workspace of an assignment is private: whoever is neither its tester nor the owner of its
-- campaign gets an error for the requests that name the assignment and read it, its campaign,
-- contract, testing sessions, submissions, messages or audit trail, for those that name one of its
-- submissions and read it, its quality check or its reviews, and, unless a moderator, for the case
-- of a dispute about it. (The public page of a campaign names no assignment.)
pub answer-private :
    (is_space : ℕ → Bool) (lower : List ℕ → List ℕ) (settings : Settings) (user : CurrentUser)
    (query : Query) (s : Session) (id : ℕ) (a : Assignment)
    → reads_from s query ≡ some id
    → find (λ x. x.id == id) s.assignments ≡ some a
    → is_own_assignment user.id s a ≡ false
    → moderates settings user query ≡ false
    → Raises (answer is_space lower settings user query) s
unfolding answer authorise reads_from moderates
answer-private is_space lower settings user (Query.dispute_case dispute_id) s id a names found
      outside barred =
    Raises-bind _ _ s (no_moderator settings user s barred)
answer-private is_space lower settings user query s id a names found outside barred =
    then-Raises (authorise settings user query) (response is_space lower settings user query) s
      (authorise-Raises settings user query s)
      (response-Raises is_space lower settings user query s id a names found outside)
