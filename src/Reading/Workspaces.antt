-- ===== src/Reading/Workspaces.antt =====
-- What the tester and the owner of an assignment read of it: the queries of
-- app/services/workflow.py.
use test_exchange_backend.Base.{
  ℕ, Bool, false, ◌||◌, Option, none, some, List, ◌==◌, find, select, order_by, reverse,
}
use test_exchange_backend.Model.Entities.{
  Campaign, Assignment, TestingSession, EvidenceSubmission, EvidenceItem, Message, Review, Dispute,
}
use test_exchange_backend.Session.{Session, M, gets, or_raise, pure, ◌>>=◌, ◌>>◌}
use test_exchange_backend.Common.{get_assignment, require_assignment_participant}

-- the join with Campaign: `or_(Assignment.tester_id == user_id, Campaign.owner_id == user_id)`
unfoldable pub takes_part : ℕ → Assignment → Option Campaign → Bool
takes_part user_id assignment none = false
takes_part user_id assignment (some campaign) =
    assignment.tester_id == user_id || campaign.owner_id == user_id

unfoldable pub is_own_assignment : ℕ → Session → Assignment → Bool
unfolding takes_part
is_own_assignment user_id s assignment =
    takes_part user_id assignment (find (λ c. c.id == assignment.campaign_id) s.campaigns)

unfoldable pub list_user_assignments : ℕ → M (List Assignment)
unfolding is_own_assignment
list_user_assignments user_id = gets (λ s. select (is_own_assignment user_id s) s.assignments)

-- the join of a dispute with its assignment
unfoldable pub is_own : ℕ → Session → Option Assignment → Bool
unfolding is_own_assignment
is_own user_id s none = false
is_own user_id s (some assignment) = is_own_assignment user_id s assignment

unfoldable pub list_user_disputes : ℕ → M (List Dispute)
unfolding is_own
list_user_disputes user_id = gets (λ s.
    select (λ d. is_own user_id s (find (λ a. a.id == d.assignment_id) s.assignments)) s.disputes)

-- One testing session a day: the date alone gives the order.
unfoldable pub list_testing_sessions : ℕ → ℕ → M (List TestingSession)
list_testing_sessions assignment_id user_id = do
  assignment ← get_assignment assignment_id
  require_assignment_participant assignment user_id
  gets (λ s.
      order_by (λ r. r.session_date) (select (λ r. r.assignment_id == assignment_id) s.sessions))

-- `order_by(EvidenceItem.created_at, EvidenceItem.id)`: the sort is stable
unfoldable pub in_order : List EvidenceItem → List EvidenceItem
in_order items = order_by (λ i. i.created_at) (order_by (λ i. i.id) items)

unfoldable pub get_submission : ℕ → ℕ → M (EvidenceSubmission × List EvidenceItem)
unfolding in_order
get_submission submission_id user_id = do
  found ← gets (λ s. find (λ e. e.id == submission_id) s.submissions)
  submission ← or_raise found "Submission not found" 404
  assignment ← get_assignment submission.assignment_id
  require_assignment_participant assignment user_id
  items ← gets (λ s. in_order (select (λ i. i.submission_id == submission_id) s.items))
  pure (submission, items)

unfoldable pub list_submissions : ℕ → ℕ → M (List EvidenceSubmission)
list_submissions assignment_id user_id = do
  assignment ← get_assignment assignment_id
  require_assignment_participant assignment user_id
  gets (λ s.
      reverse
        (order_by (λ e. e.version) (select (λ e. e.assignment_id == assignment_id) s.submissions)))

unfoldable pub list_submission_reviews : ℕ → ℕ → M (List Review)
list_submission_reviews submission_id user_id = do
  (submission, _) ← get_submission submission_id user_id
  gets (λ s. reverse (select (λ r. r.submission_id == submission.id) s.reviews))

unfoldable pub list_messages : ℕ → ℕ → M (List Message)
list_messages assignment_id user_id = do
  assignment ← get_assignment assignment_id
  require_assignment_participant assignment user_id
  gets (λ s. reverse (select (λ m. m.assignment_id == assignment_id) s.messages))
