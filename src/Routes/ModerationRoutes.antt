-- ===== src/Routes/ModerationRoutes.antt =====
-- app/api/routes/moderation.py
use test_exchange_backend.Base.{ℕ, String, Option, List, [], ◌∷◌, map, ◌==◌, if◌then◌else◌}
use test_exchange_backend.Model.Enums.{DisputeStatus}
use test_exchange_backend.Model.Entities.{EvidenceItem, EvidenceSubmission}
use test_exchange_backend.Session.{M, pure, ◌>>=◌}
use test_exchange_backend.Moderation.{DisputeResolve, claim_dispute, resolve_dispute}
use test_exchange_backend.Profiles.{suspend_participant, restore_participant}
use test_exchange_backend.Reading.{
  ModerationCase, list_disputes, get_moderation_case, list_participants, list_waitlist,
}
use test_exchange_backend.EvidenceLinks.{
  StorageSettings, StorageRequest, StorageReply, moderator_evidence_url,
}
use test_exchange_backend.Schemas.{
  DisputeRead, ModerationDisputeCaseRead, ModerationParticipantRead, SubmissionRead, WaitlistRead,
  audit_event_read, contract_read, dispute_read, message_read, moderation_participant_read,
  review_read, submission_read, waitlist_read,
}
use test_exchange_backend.Routes.Responses.{campaign_response, assignment_response}

-- `{"url": ..., "expires_in": 60}`
pub record EvidenceUrl : Type 0 where
  pub url : List ℕ
  pub expires_in : ℕ

unfoldable pub evidence_url :
    StorageSettings → (StorageRequest → StorageReply) → ℕ → ℕ → ℕ → M EvidenceUrl
evidence_url settings post dispute_id evidence_id user_id = do
  url ← moderator_evidence_url settings post dispute_id evidence_id user_id
  pure (record { url = url; expires_in = 60 })

-- `case.evidence_by_submission[submission.id]`, whose keys are the ids of the case's submissions
unfoldable pub evidence_of : ℕ → List (ℕ × List EvidenceItem) → List EvidenceItem
evidence_of id [] = []
evidence_of id ((key, items) ∷ rest) = if key == id then items else evidence_of id rest

unfoldable pub submission_reads :
    List (ℕ × List EvidenceItem) → List EvidenceSubmission → List SubmissionRead
unfolding evidence_of
submission_reads groups = map λ e. submission_read e (evidence_of e.id groups)

unfoldable pub case_response : ModerationCase → M ModerationDisputeCaseRead
unfolding submission_reads
case_response c = do
  assignment ← assignment_response c.assignment
  campaign ← campaign_response c.campaign
  pure (record {
    dispute = dispute_read c.dispute;
    assignment = assignment;
    campaign = campaign;
    contract = contract_read c.contract c.tasks;
    submissions = submission_reads c.evidence_by_submission c.submissions;
    reviews = map review_read c.reviews;
    messages = map message_read c.messages;
    audit_events = map audit_event_read c.audit_events;
  })

unfoldable pub disputes : Option DisputeStatus → M (List DisputeRead)
disputes status_filter = do rows ← list_disputes status_filter; pure (map dispute_read rows)

unfoldable pub dispute_case : ℕ → M ModerationDisputeCaseRead
unfolding case_response
dispute_case dispute_id = do found ← get_moderation_case dispute_id; case_response found

unfoldable pub claim : ℕ → ℕ → M DisputeRead
claim dispute_id user_id = do row ← claim_dispute dispute_id user_id; pure (dispute_read row)

unfoldable pub resolve : ℕ → DisputeResolve → ℕ → M DisputeRead
resolve dispute_id payload user_id = do
  row ← resolve_dispute dispute_id user_id payload
  pure (dispute_read row)

unfoldable pub participants : M (List ModerationParticipantRead)
participants = do rows ← list_participants; pure (map moderation_participant_read rows)

unfoldable pub suspend : ℕ → String → ℕ → M ModerationParticipantRead
suspend participant_id reason user_id = do
  row ← suspend_participant participant_id user_id reason
  pure (moderation_participant_read row)

unfoldable pub restore : ℕ → ℕ → M ModerationParticipantRead
restore participant_id user_id = do
  row ← restore_participant participant_id user_id
  pure (moderation_participant_read row)

unfoldable pub waitlist : M (List WaitlistRead)
waitlist = do rows ← list_waitlist; pure (map waitlist_read rows)
