-- ===== src/Progress/Submissions.antt =====
-- Evidence for review and the owner's decision about it.
use test_exchange_backend.Base.{
  ℕ, List, Option, none, some, not, ◌||◌, false, ◌≡◌, refl, arith, String,
}
use test_exchange_backend.Model.Enums.{
  AssignmentStatus, SubmissionStatus, ReviewDecision, assignment_is,
}
use test_exchange_backend.Model.Entities.{Assignment, Campaign}
use test_exchange_backend.Session.{Session, M, throw, pure, insert_submission, insert_review, ◌>>=◌}
use test_exchange_backend.Session.Keeps.{KeepsAssignmentKeys}
use test_exchange_backend.Session.Wp.{
  Post, Post-Keeps, on_raise_if, on_then, on_now, on_gets, on_uuid4, on_or_raise,
}
use test_exchange_backend.Workflow.{
  SubmissionCreate, check_submission, create_submission, set_outcome, decide, create_review,
  or_crash, started_time, insert_items,
}
use test_exchange_backend.Workflow.Steps.{Step, assignment_at}
use test_exchange_backend.Stability.Basics.{service_rules}
use test_exchange_backend.Stability.Campaigns.{Keeps-maybe_complete_campaign}
use test_exchange_backend.Stability.Workflow.{
  Keeps-contract_for_assignment, Keeps-check_items, Keeps-insert_items, Keeps-tester_name,
  Keeps-pay_reward,
}
use test_exchange_backend.Stability.Frames.Assignments.{
  assignments_IsQuiet, assignments_IsCreditStable,
}
use test_exchange_backend.Progress.Guards.{
  MovesFrom, on_get_assignment, on_set_assignment, on_owner, same_found, on_last_set_assignment,
  on_quiet, on_call, quiet_rules, rest_rules, MovesFrom-IsQuiet, MovesFrom-IsCreditStable,
  can_submit, can_approve, can_return, can_reject,
}

abbrev IsReady : Assignment → Type 0
IsReady a =
    not (
      assignment_is a.status AssignmentStatus.in_progress
      || assignment_is a.status AssignmentStatus.changes_requested)
    ≡ false

pub set_outcome-Moves :
    (old : List Assignment) (submission_id : ℕ) (status : SubmissionStatus) (id : ℕ)
    (change : Assignment → Assignment) (s : Session) (a : Assignment)
    → old ≡ s.assignments
    → assignment_at id old ≡ some a
    → KeepsAssignmentKeys change
    → Step a.status (change a).status
    → Post (MovesFrom old) (set_outcome submission_id status id change) s
unfolding set_outcome
set_outcome-Moves old submission_id status id change s a e found keys step =
    on_quiet old _ _ s e (search quiet_rules)
      λ _ s' e'. on_last_set_assignment old id change s' a e' found keys step

decide-Moves :
    (old : List Assignment) (decision : ReviewDecision) (submission_id : ℕ) (campaign : Campaign)
    (reviewer_id : ℕ) (s : Session) (a : Assignment)
    → old ≡ s.assignments
    → assignment_at a.id old ≡ some a
    → not (assignment_is a.status AssignmentStatus.submitted) ≡ false
    → Post (MovesFrom old) (decide decision a submission_id campaign reviewer_id) s
unfolding decide
decide-Moves old ReviewDecision.approved submission_id campaign reviewer_id s a e found h =
    on_now _ s (
      on_then (set_outcome submission_id SubmissionStatus.approved a.id _) _ _
        (set_outcome-Moves old submission_id SubmissionStatus.approved a.id _ _ a e found
          (λ row. (refl, refl, refl)) (can_approve a.status h))
        (search
          (
            service_rules, MovesFrom-IsQuiet, MovesFrom-IsCreditStable, Keeps-pay_reward,
            Keeps-maybe_complete_campaign, arith,
          )
          depth 40))
decide-Moves old ReviewDecision.changes_requested submission_id campaign reviewer_id s a e found h =
    set_outcome-Moves old submission_id SubmissionStatus.changes_requested a.id _ s a e found
      (λ row. (refl, refl, refl)) (can_return a.status h)
decide-Moves old ReviewDecision.rejected submission_id campaign reviewer_id s a e found h =
    set_outcome-Moves old submission_id SubmissionStatus.rejected a.id _ s a e found
      (λ row. (refl, refl, refl)) (can_reject a.status h)

check_submission-IsReady :
    (old : List Assignment) (a : Assignment) (tester_id : ℕ) (payload : SubmissionCreate)
    (s : Session)
    → old ≡ s.assignments
    → Post (λ s'. (old ≡ s'.assignments) × IsReady a) (check_submission a tester_id payload) s
unfolding check_submission started_time
check_submission-IsReady old a tester_id payload s e = on_raise_if _ _ _ _ s λ _.
    on_raise_if _ _ _ _ s λ ready.
      Post-Keeps _ s (e, ready)
        (search
          (
            service_rules,
            assignments_IsQuiet (λ rows. (old ≡ rows) × IsReady a),
            assignments_IsCreditStable (λ rows. (old ≡ rows) × IsReady a),
            Keeps-contract_for_assignment,
            Keeps-check_items,
            arith,
          )
          depth 40)

-- A submission is sent only for an assignment under test or under changes, and moves it to `submitted`.
pub create_submission-Moves :
    (assignment_id tester_id : ℕ) (payload : SubmissionCreate) (s : Session)
    → Post (MovesFrom s.assignments) (create_submission assignment_id tester_id payload) s
unfolding create_submission
create_submission-Moves assignment_id tester_id payload s =
    on_get_assignment assignment_id _ s λ a found.
      on_call _ (check_submission a tester_id payload) _ s
        (check_submission-IsReady s.assignments a tester_id payload s refl)
        λ _ s' ready. on_gets _ _ s' (
          on_uuid4 _ s' (
            on_now _ _ (
              on_quiet s.assignments (insert_submission _) _ _ ready.0 (search quiet_rules)
                λ _ s1 e1.
                  on_quiet s.assignments (insert_items _ payload.items) _ s1 e1
                    (search (quiet_rules, Keeps-insert_items))
                    λ _ s2 e2. on_now _ s2 (
                      on_set_assignment s.assignments assignment_id _ _ _ a e2 found
                        (λ row. (refl, refl, refl)) (can_submit a.status ready.1)
                        (search (rest_rules, Keeps-tester_name) depth 40)))))

on_or_crash :
    {A B : Type 0} {Q : Session → Type 0} (o : Option A) (f : A → M B) (s : Session)
    → ((a : A) → o ≡ some a → Post Q (f a) s)
    → Post Q (or_crash o >>= f) s
unfolding or_crash throw pure ◌>>=◌
on_or_crash none f s h = record { at = tt }
on_or_crash (some a) f s h = record { at = (h a refl).at }

pub create_review-Moves :
    (submission_id reviewer_id : ℕ) (decision : ReviewDecision) (notes : String) (s : Session)
    → Post (MovesFrom s.assignments) (create_review submission_id reviewer_id decision notes) s
unfolding create_review
create_review-Moves submission_id reviewer_id decision notes s = on_gets _ _ s (
    on_or_raise _ _ _ _ s λ submission _. on_gets _ _ s (
      on_or_crash _ _ s λ a found. on_gets _ _ s (
        on_or_raise _ _ _ _ s λ campaign _. on_owner campaign reviewer_id _ s (
          on_gets _ _ s (
            on_raise_if _ _ _ _ s λ _. on_raise_if _ _ _ _ s λ _. on_raise_if _ _ _ _ s λ h.
              on_uuid4 _ s (
                on_quiet s.assignments (insert_review _) _ _ refl (search quiet_rules) λ _ s1 e1.
                  on_then (decide decision a submission_id campaign reviewer_id) _ s1
                    (decide-Moves s.assignments decision submission_id campaign reviewer_id s1 a e1
                      (same_found submission.assignment_id s.assignments a found) h)
                    (search rest_rules depth 40)))))))
