-- ===== src/Moderation.antt =====
-- app/services/moderation.py: claiming and resolving a dispute.
use Prim.Native.String.{◌++◌ as append}
use test_exchange_backend.Base.{
  ℕ, String, Bool, true, false, not, ◌||◌, Option, none, some, [], ◌∷◌, ◌==◌, if◌then◌else◌, find,
}
use test_exchange_backend.Model.Enums.{
  AssignmentStatus, SubmissionStatus, DisputeStatus, DisputeRemedy, assignment_is, dispute_is,
  is_award,
}
use test_exchange_backend.Model.Keys.{dispute_tester_resolution, dispute_owner_resolution}
use test_exchange_backend.Model.Entities.{Assignment, Dispute, Json}
use test_exchange_backend.Session.{M, gets, or_raise, raise_if, now, set_dispute, pure, ◌>>=◌, ◌>>◌}
use test_exchange_backend.Common.{get_campaign, get_assignment, add_audit_event}
use test_exchange_backend.Notifications.{add_notification}
use test_exchange_backend.Campaigns.{maybe_complete_campaign}
use test_exchange_backend.Workflow.{submission_of, set_outcome, pay_reward, prefix}

unfoldable pub is_moderator : ℕ → Option ℕ → Bool
is_moderator moderator_id none = false
is_moderator moderator_id (some assigned_to) = assigned_to == moderator_id

unfoldable pub get_dispute : ℕ → M Dispute
get_dispute dispute_id = do
  found ← gets (λ s. find (λ d. d.id == dispute_id) s.disputes)
  or_raise found "Dispute not found" 404

unfoldable pub claim_open : ℕ → ℕ → Dispute → M Dispute
claim_open dispute_id moderator_id dispute = do
  raise_if (not (dispute_is dispute.status DisputeStatus.opened))
      "Only open disputes can be claimed" 409
  t ← now
  let change = λ (d : Dispute). record d {
    status = DisputeStatus.under_review;
    assigned_to = some moderator_id;
    assigned_at = some t;
  }
  set_dispute dispute_id change
  add_audit_event moderator_id "dispute.claimed" "assignment" dispute.assignment_id
      (("dispute_id", Json.uuid dispute_id) ∷ [])
  pure (change dispute)

unfoldable pub claim_again : ℕ → Dispute → M Dispute
claim_again moderator_id dispute = do
  raise_if (not (is_moderator moderator_id dispute.assigned_to))
      "This dispute is already assigned to another moderator" 409
  pure dispute

unfoldable pub claim_dispute : ℕ → ℕ → M Dispute
unfolding claim_open claim_again
claim_dispute dispute_id moderator_id = do
  dispute ← get_dispute dispute_id
  if dispute_is dispute.status DisputeStatus.under_review
      then claim_again moderator_id dispute
      else claim_open dispute_id moderator_id dispute

-- `Literal["resolved", "rejected"]`
pub data Outcome : Type 0 where
  resolved rejected : Outcome

-- `DisputeResolve`
pub record DisputeResolve : Type 0 where
  pub outcome : Outcome
  pub remedy : DisputeRemedy
  pub resolution : String

-- `DisputeResolve.validate_remedy`, of app/schemas/api.py: `true` where it raises
unfoldable pub remedy_invalid : DisputeResolve → Bool
remedy_invalid payload = elim payload.outcome [
  | resolved ↦ false
  | rejected ↦ is_award payload.remedy
]

unfoldable pub is_rejected : Outcome → Bool
is_rejected rejected = true
is_rejected resolved = false

-- `DisputeStatus(payload.outcome)`, and the texts made from the payload
unfoldable pub status_of : Outcome → DisputeStatus
status_of resolved = DisputeStatus.resolved
status_of rejected = DisputeStatus.rejected

unfoldable pub action_of : Outcome → String
action_of resolved = "dispute.resolved"
action_of rejected = "dispute.rejected"

unfoldable pub outcome_value : Outcome → String
outcome_value resolved = "resolved"
outcome_value rejected = "rejected"

unfoldable pub remedy_value : DisputeRemedy → String
remedy_value DisputeRemedy.no_remedy = "none"
remedy_value DisputeRemedy.award_tester = "award_tester"

-- the first `if` of `resolve_dispute`: overdue work that is not awarded is rejected
unfoldable pub reject_overdue : Dispute → Assignment → Outcome → M (Unit {0})
unfolding is_rejected
reject_overdue dispute assignment outcome = do
  raise_if (not (is_rejected outcome)) "An overdue submission must be approved or rejected" 422
  submission_id ← or_raise dispute.submission_id "The disputed submission was not found" 409
  found ← gets (λ s. find (λ e. e.id == submission_id) s.submissions)
  submission ← submission_of assignment.id found "The disputed submission was not found" 409
  t ← now
  set_outcome submission.id SubmissionStatus.rejected assignment.id
      (λ a. record a { status = AssignmentStatus.rejected; completed_at = some t })

-- the second `if`: the work is approved and its reward is paid
unfoldable pub award : Dispute → Assignment → ℕ → M (Unit {0})
award dispute assignment moderator_id = do
  submission_id ← or_raise dispute.submission_id "This dispute has no submission to approve" 409
  raise_if
      (not (
        assignment_is assignment.status AssignmentStatus.rejected
        || assignment_is assignment.status AssignmentStatus.submitted))
      "Only rejected or overdue work can receive a dispute award" 409
  found ← gets (λ s. find (λ e. e.id == submission_id) s.submissions)
  submission ← submission_of assignment.id found "The disputed submission was not found" 409
  campaign ← get_campaign assignment.campaign_id
  t ← now
  set_outcome submission.id SubmissionStatus.approved assignment.id
      (λ a. record a { status = AssignmentStatus.approved; completed_at = some t })
  pay_reward assignment campaign moderator_id "Moderator-approved test for "
  maybe_complete_campaign campaign moderator_id
  pure tt

-- The two `if` statements one after the other: the first applies only where there is no award.
unfoldable pub apply_resolution : Dispute → Assignment → ℕ → DisputeResolve → M (Unit {0})
apply_resolution dispute assignment moderator_id payload =
    if is_award payload.remedy
    then award dispute assignment moderator_id
    else if assignment_is assignment.status AssignmentStatus.submitted
    then reject_overdue dispute assignment payload.outcome
    else pure tt

unfoldable pub resolve_dispute : ℕ → ℕ → DisputeResolve → M Dispute
unfolding status_of action_of outcome_value remedy_value
resolve_dispute dispute_id moderator_id payload = do
  dispute ← get_dispute dispute_id
  raise_if (not (dispute_is dispute.status DisputeStatus.under_review))
      "Claim this dispute before resolving it" 409
  raise_if (not (is_moderator moderator_id dispute.assigned_to))
      "Only the assigned moderator can resolve this dispute" 403
  assignment ← get_assignment dispute.assignment_id
  apply_resolution dispute assignment moderator_id payload
  t ← now
  let change = λ (d : Dispute). record d {
    status = status_of payload.outcome;
    resolution = some payload.resolution;
    remedy = some payload.remedy;
    resolved_by = some moderator_id;
    resolved_at = some t;
  }
  set_dispute dispute_id change
  add_audit_event moderator_id (action_of payload.outcome) "assignment" dispute.assignment_id (
      ("dispute_id", Json.uuid dispute_id)
      ∷ ("outcome", Json.text (outcome_value payload.outcome))
      ∷ ("remedy", Json.text (remedy_value payload.remedy))
      ∷ [])
  campaign ← get_campaign assignment.campaign_id
  add_notification assignment.tester_id "dispute_resolved"
      (append "Dispute resolved for " campaign.name) (prefix 500 payload.resolution) "dispute"
      dispute_id (dispute_tester_resolution dispute_id)
  add_notification campaign.owner_id "dispute_resolved"
      (append "Dispute resolved for " campaign.name) (prefix 500 payload.resolution) "dispute"
      dispute_id (dispute_owner_resolution dispute_id)
  pure (change dispute)
