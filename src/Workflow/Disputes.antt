-- ===== src/Workflow/Disputes.antt =====
-- A tester's escalation of a rejected or overdue submission.
use Prim.Native.String.{◌++◌ as append}
use test_exchange_backend.Base.{
  ℕ, ◌+◌, String, not, ◌||◌, Option, none, [], ◌∷◌, ◌==◌, ltb, is_some, if◌then◌else◌, find,
}
use test_exchange_backend.Model.Enums.{
  AssignmentStatus, SubmissionStatus, DisputeStatus, assignment_is, submission_is,
}
use test_exchange_backend.Model.Keys.{dispute_owner}
use test_exchange_backend.Model.Entities.{Assignment, EvidenceSubmission, Dispute, Json}
use test_exchange_backend.Session.{
  M, gets, or_raise, raise_if, now, uuid4, hours, insert_dispute, pure, ◌>>=◌, ◌>>◌,
}
use test_exchange_backend.Common.{
  get_campaign, get_assignment, require_assignment_participant, add_audit_event,
}
use test_exchange_backend.Notifications.{add_notification}
use test_exchange_backend.Workflow.Testing.{contract_for_assignment}
use test_exchange_backend.Workflow.Reviews.{prefix}

-- the test of the submission: overdue, or rejected
unfoldable pub check_escalation : Assignment → EvidenceSubmission → M (Unit {0})
check_escalation assignment submission =
    if assignment_is assignment.status AssignmentStatus.submitted
    then (do
      raise_if (not (submission_is submission.status SubmissionStatus.submitted))
          "Only the current pending submission can be escalated" 409
      (contract, _) ← contract_for_assignment assignment
      t ← now
      raise_if (ltb t (submission.submitted_at + hours contract.review_window_hours))
          "The owner's review window has not ended yet" 409)
    else raise_if (not (submission_is submission.status SubmissionStatus.rejected))
        "Only a rejected submission can be disputed" 409

-- `submission is None or submission.assignment_id != assignment_id`
unfoldable pub submission_of : ℕ → Option EvidenceSubmission → String → ℕ → M EvidenceSubmission
submission_of assignment_id found detail code = do
  submission ← or_raise found detail code
  raise_if (not (submission.assignment_id == assignment_id)) detail code
  pure submission

unfoldable pub new_dispute : ℕ → ℕ → Option ℕ → ℕ → String → Dispute
new_dispute dispute_id assignment_id submission_id opened_by reason = record {
  id = dispute_id;
  assignment_id = assignment_id;
  submission_id = submission_id;
  opened_by = opened_by;
  reason = reason;
  status = DisputeStatus.opened;
  assigned_to = none;
  assigned_at = none;
  resolution = none;
  remedy = none;
  resolved_by = none;
  resolved_at = none;
}

unfoldable pub open_dispute : ℕ → ℕ → Option ℕ → String → M Dispute
unfolding new_dispute
open_dispute assignment_id opened_by submission_id reason = do
  assignment ← get_assignment assignment_id
  require_assignment_participant assignment opened_by
  raise_if (not (assignment.tester_id == opened_by))
      "Only the tester can request a moderator review" 403
  raise_if
      (not (
        assignment_is assignment.status AssignmentStatus.rejected
        || assignment_is assignment.status AssignmentStatus.submitted))
      "Only rejected or overdue submissions can be escalated" 409
  chosen ← or_raise submission_id "A submission is required" 422
  found ← gets (λ s. find (λ e. e.id == chosen) s.submissions)
  submission ←
      submission_of assignment_id found "The submission does not belong to this assignment" 422
  check_escalation assignment submission
  existing ← gets (λ s. find (λ d. d.assignment_id == assignment_id) s.disputes)
  raise_if (is_some existing) "This assignment already has a dispute" 409
  dispute_id ← uuid4
  let dispute = new_dispute dispute_id assignment_id submission_id opened_by reason
  insert_dispute dispute
  add_audit_event opened_by "dispute.opened" "assignment" assignment_id
      (("dispute_id", Json.uuid dispute_id) ∷ [])
  campaign ← get_campaign assignment.campaign_id
  add_notification campaign.owner_id "dispute_opened"
      (append "A dispute was opened for " campaign.name) (prefix 500 reason) "dispute" dispute_id
      (dispute_owner dispute_id)
  pure dispute
