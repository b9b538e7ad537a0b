-- ===== src/Progress/Disputes.antt =====
-- Applying to a campaign, and the moderator's resolution of a dispute.
use mathlib.Core.Path.{subst}
use test_exchange_backend.Base.{
  ℕ, Bool, true, List, Option, String, false, not, some, ◌≡◌, refl, Bool-cases, inl, inr,
}
use test_exchange_backend.Model.Enums.{AssignmentStatus, assignment_is, is_award}
use test_exchange_backend.Model.Entities.{Assignment, Dispute}
use test_exchange_backend.Session.{Session}
use test_exchange_backend.Session.Wp.{
  Post, Post-Keeps, on_raise_if, on_gets, on_or_raise, on_then, on_now,
}
use test_exchange_backend.Workflow.{apply_to_campaign, submission_of, set_outcome}
use test_exchange_backend.Workflow.Steps.{Moves, Moves-insert, Moves-refl, assignment_at}
use test_exchange_backend.Moderation.{
  Outcome, DisputeResolve, reject_overdue, award, apply_resolution, get_dispute, resolve_dispute,
}
use test_exchange_backend.Stability.Campaigns.{Keeps-maybe_complete_campaign}
use test_exchange_backend.Stability.Workflow.{
  Keeps-tester_name, Keeps-submission_of, Keeps-pay_reward,
}
use test_exchange_backend.Stability.Moderation.{Keeps-get_dispute}
use test_exchange_backend.Progress.Guards.{
  MovesFrom, on_quiet, on_get_assignment, on_get_campaign, quiet_rules, rest_rules, can_award,
  same_found, can_reject,
}
use test_exchange_backend.Progress.Submissions.{set_outcome-Moves}

pub apply_to_campaign-Moves :
    (campaign_id tester_id : ℕ) (text : Option String) (s : Session)
    → Post (MovesFrom s.assignments) (apply_to_campaign campaign_id tester_id text) s
unfolding apply_to_campaign
apply_to_campaign-Moves campaign_id tester_id text s =
    Post-Keeps _ s (Moves-refl s.assignments)
      (search (rest_rules, Moves-insert s.assignments, Keeps-tester_name) depth 60)

reject_overdue-Moves :
    (old : List Assignment) (dispute : Dispute) (a : Assignment) (outcome : Outcome) (s : Session)
    → old ≡ s.assignments
    → assignment_at a.id old ≡ some a
    → not (assignment_is a.status AssignmentStatus.submitted) ≡ false
    → Post (MovesFrom old) (reject_overdue dispute a outcome) s
unfolding reject_overdue
reject_overdue-Moves old dispute a outcome s e found h = on_raise_if _ _ _ _ s λ _.
    on_or_raise _ _ _ _ s λ submission_id _. on_gets _ _ s (
      on_quiet old (submission_of _ _ _ _) _ s e (search (quiet_rules, Keeps-submission_of))
        λ submission s1 e1. on_now _ s1 (
          set_outcome-Moves old submission.id _ a.id _ _ a e1 found (λ row. (refl, refl, refl))
            (can_reject a.status h)))

award-Moves :
    (old : List Assignment) (dispute : Dispute) (a : Assignment) (moderator_id : ℕ) (s : Session)
    → old ≡ s.assignments
    → assignment_at a.id old ≡ some a
    → Post (MovesFrom old) (award dispute a moderator_id) s
unfolding award
award-Moves old dispute a moderator_id s e found = on_or_raise _ _ _ _ s λ submission_id _.
    on_raise_if _ _ _ _ s λ h. on_gets _ _ s (
      on_quiet old (submission_of _ _ _ _) _ s e (search (quiet_rules, Keeps-submission_of))
        λ submission s1 e1. on_get_campaign a.campaign_id _ s1 λ campaign. on_now _ s1 (
          on_then (set_outcome _ _ _ _) _ _
            (set_outcome-Moves old submission.id _ a.id _ _ a e1 found (λ row. (refl, refl, refl))
              (can_award a.status h))
            (search (rest_rules, Keeps-pay_reward, Keeps-maybe_complete_campaign) depth 40)))

submitted_holds : (b : Bool) → b ≡ true → not b ≡ false
submitted_holds b h = cc h

apply_resolution-Moves :
    (old : List Assignment) (dispute : Dispute) (a : Assignment) (moderator_id : ℕ)
    (payload : DisputeResolve) (s : Session)
    → old ≡ s.assignments
    → assignment_at a.id old ≡ some a
    → Post (MovesFrom old) (apply_resolution dispute a moderator_id payload) s
unfolding apply_resolution
apply_resolution-Moves old dispute a moderator_id payload s e found =
    elim (Bool-cases (is_award payload.remedy)) [
      | inl awarded ↦ rw awarded (award-Moves old dispute a moderator_id s e found)
      | inr other ↦ elim (Bool-cases (assignment_is a.status AssignmentStatus.submitted)) [
        | inl overdue ↦
            rw (other, overdue)
              (reject_overdue-Moves old dispute a payload.outcome s e found
                (submitted_holds _ overdue))
        | inr rejected ↦
            rw (other, rejected)
              (Post-Keeps _ s (subst (Moves old) e (Moves-refl old)) (search rest_rules))
      ]
    ]

found_before :
    (id : ℕ) (old rows : List Assignment) (a : Assignment)
    → old ≡ rows
    → assignment_at id rows ≡ some a
    → assignment_at a.id old ≡ some a
found_before id old rows a e found = same_found id old a (rw e found)

-- A moderator's resolution approves or rejects the disputed work, where it is rejected or overdue.
pub resolve_dispute-Moves :
    (dispute_id moderator_id : ℕ) (payload : DisputeResolve) (s : Session)
    → Post (MovesFrom s.assignments) (resolve_dispute dispute_id moderator_id payload) s
unfolding resolve_dispute
resolve_dispute-Moves dispute_id moderator_id payload s =
    on_quiet s.assignments (get_dispute dispute_id) _ s refl
      (search (quiet_rules, Keeps-get_dispute))
      λ dispute s1 e1. on_raise_if _ _ _ _ s1 λ _. on_raise_if _ _ _ _ s1 λ _.
        on_get_assignment dispute.assignment_id _ s1 λ a found.
          on_then (apply_resolution dispute a moderator_id payload) _ s1
            (apply_resolution-Moves s.assignments dispute a moderator_id payload s1 e1
              (found_before dispute.assignment_id s.assignments s1.assignments a e1 found))
            (search rest_rules depth 40)
