-- ===== src/Routes/WorkflowRoutes.antt =====
-- app/api/routes/workflow.py
use test_exchange_backend.Base.{ℕ, String, Bool, ◌&&◌, Option, List, map, ◌==◌, is_none, find}
use test_exchange_backend.Model.Enums.{ReviewDecision}
use test_exchange_backend.Session.{M, gets, or_raise, raise_if, pure, ◌>>=◌, ◌>>◌}
use test_exchange_backend.Common.{get_assignment, require_assignment_participant}
use test_exchange_backend.Workflow.{
  SubmissionCreate, apply_to_campaign, accept_assignment, decline_assignment, withdraw_assignment,
  start_assignment, record_testing_session, create_submission, create_review, add_message,
  open_dispute,
}
use test_exchange_backend.Reading.{
  list_user_assignments, list_user_disputes, list_testing_sessions, list_submissions,
  list_submission_reviews, list_messages, list_assignment_audit,
}
use test_exchange_backend.Quality.{QualityCheckRead, build_submission_quality_check}
use test_exchange_backend.Schemas.{
  AssignmentRead, AuditEventRead, CampaignRead, ContractRead, DisputeRead, MessageRead, ReviewRead,
  SubmissionRead, TestingSessionRead, audit_event_read, dispute_read, message_read, review_read,
  testing_session_read,
}
use test_exchange_backend.Routes.Responses.{
  for_each, campaign_response, assignment_response, contract_response, submission_response,
}

unfoldable pub apply : ℕ → Option String → ℕ → M AssignmentRead
apply campaign_id application_note user_id = do
  assignment ← apply_to_campaign campaign_id user_id application_note
  assignment_response assignment

unfoldable pub assignments : ℕ → M (List AssignmentRead)
assignments user_id = do rows ← list_user_assignments user_id; for_each assignment_response rows

unfoldable pub assignment : ℕ → ℕ → M AssignmentRead
assignment assignment_id user_id = do
  row ← get_assignment assignment_id
  require_assignment_participant row user_id
  assignment_response row

unfoldable pub assignment_campaign : ℕ → ℕ → M CampaignRead
assignment_campaign assignment_id user_id = do
  row ← get_assignment assignment_id
  require_assignment_participant row user_id
  found ← gets (λ s. find (λ c. c.id == row.campaign_id) s.campaigns)
  campaign ← or_raise found "Campaign not found" 404
  campaign_response campaign

unfoldable pub assignment_contract : ℕ → ℕ → M ContractRead
assignment_contract assignment_id user_id = do
  row ← get_assignment assignment_id
  require_assignment_participant row user_id
  raise_if (user_id == row.tester_id && is_none row.accepted_at)
      "The private testing contract unlocks after acceptance" 403
  contract_response row.campaign_id

unfoldable pub accept : ℕ → ℕ → M AssignmentRead
accept assignment_id user_id = do
  row ← accept_assignment assignment_id user_id
  assignment_response row

unfoldable pub decline : ℕ → ℕ → M AssignmentRead
decline assignment_id user_id = do
  row ← decline_assignment assignment_id user_id
  assignment_response row

unfoldable pub withdraw : ℕ → ℕ → M AssignmentRead
withdraw assignment_id user_id = do
  row ← withdraw_assignment assignment_id user_id
  assignment_response row

unfoldable pub start : ℕ → ℕ → M AssignmentRead
start assignment_id user_id = do
  row ← start_assignment assignment_id user_id
  assignment_response row

unfoldable pub testing_sessions : ℕ → ℕ → M (List TestingSessionRead)
testing_sessions assignment_id user_id = do
  rows ← list_testing_sessions assignment_id user_id
  pure (map testing_session_read rows)

unfoldable pub testing_session : ℕ → Option String → ℕ → M TestingSessionRead
testing_session assignment_id note user_id = do
  row ← record_testing_session assignment_id user_id note
  pure (testing_session_read row)

unfoldable pub submit : ℕ → SubmissionCreate → ℕ → M SubmissionRead
submit assignment_id payload user_id = do
  submission ← create_submission assignment_id user_id payload
  submission_response submission.id user_id

unfoldable pub submission : ℕ → ℕ → M SubmissionRead
submission submission_id user_id = submission_response submission_id user_id

unfoldable pub submission_quality_check :
    (ℕ → Bool) → (List ℕ → List ℕ) → ℕ → ℕ → M QualityCheckRead
submission_quality_check is_space lower submission_id user_id =
    build_submission_quality_check is_space lower submission_id user_id

unfoldable pub submissions : ℕ → ℕ → M (List SubmissionRead)
submissions assignment_id user_id = do
  records ← list_submissions assignment_id user_id
  for_each (λ e. submission_response e.id user_id) records

unfoldable pub review : ℕ → ReviewDecision → String → ℕ → M ReviewRead
review submission_id decision notes user_id = do
  row ← create_review submission_id user_id decision notes
  pure (review_read row)

unfoldable pub reviews : ℕ → ℕ → M (List ReviewRead)
reviews submission_id user_id = do
  rows ← list_submission_reviews submission_id user_id
  pure (map review_read rows)

unfoldable pub messages : ℕ → ℕ → M (List MessageRead)
messages assignment_id user_id = do
  rows ← list_messages assignment_id user_id
  pure (map message_read rows)

unfoldable pub message : ℕ → String → ℕ → M MessageRead
message assignment_id body user_id = do
  row ← add_message assignment_id user_id body
  pure (message_read row)

unfoldable pub dispute : ℕ → Option ℕ → String → ℕ → M DisputeRead
dispute assignment_id submission_id reason user_id = do
  row ← open_dispute assignment_id user_id submission_id reason
  pure (dispute_read row)

unfoldable pub disputes : ℕ → M (List DisputeRead)
disputes user_id = do rows ← list_user_disputes user_id; pure (map dispute_read rows)

unfoldable pub audit : ℕ → ℕ → M (List AuditEventRead)
audit assignment_id user_id = do
  row ← get_assignment assignment_id
  require_assignment_participant row user_id
  rows ← list_assignment_audit assignment_id
  pure (map audit_event_read rows)
