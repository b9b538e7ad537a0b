-- ===== src/Workflow/Reviews.antt =====
-- The owner's decision about a submission, and the private messages of an assignment.
use Prim.Native.String.{◌++◌ as append}
use test_exchange_backend.Base.{
  ℕ, zero, suc, String, not, ◌&&◌, ◌||◌, Option, none, some, [], ◌∷◌, ◌==◌, is_some, if◌then◌else◌,
  find,
}
use test_exchange_backend.Base.Int.{pos}
use test_exchange_backend.Model.Enums.{
  AssignmentStatus, SubmissionStatus, ReviewDecision, CreditEntryType, DisputeStatus, assignment_is,
  submission_is, dispute_is,
}
use test_exchange_backend.Model.Keys.{assignment_reward, review_tester, message_recipient}
use test_exchange_backend.Model.Entities.{Campaign, Assignment, Review, Message, Json}
use test_exchange_backend.Session.{
  M, throw, unhandled_error, gets, or_raise, raise_if, now, uuid4, insert_review, insert_message,
  set_assignment, set_submission, pure, ◌>>=◌, ◌>>◌,
}
use test_exchange_backend.Common.{
  get_campaign, get_assignment, require_campaign_owner, require_assignment_participant,
  add_audit_event,
}
use test_exchange_backend.Notifications.{add_notification}
use test_exchange_backend.Credits.{record_credit_entry}
use test_exchange_backend.Campaigns.{maybe_complete_campaign}

-- `text[:n]`
unfoldable pub prefix : ℕ → String → String
prefix zero text = ""
prefix (suc n) String.[] = ""
prefix (suc n) (String.◌∷◌ c text) = String.◌∷◌ c (prefix n text)

-- `f"submission.{payload.decision.value}"`, and the value in words
unfoldable pub action_of : ReviewDecision → String
action_of ReviewDecision.approved = "submission.approved"
action_of ReviewDecision.changes_requested = "submission.changes_requested"
action_of ReviewDecision.rejected = "submission.rejected"

unfoldable pub words_of : ReviewDecision → String
words_of ReviewDecision.approved = "approved"
words_of ReviewDecision.changes_requested = "changes requested"
words_of ReviewDecision.rejected = "rejected"

-- Both statuses change together.
unfoldable pub set_outcome : ℕ → SubmissionStatus → ℕ → (Assignment → Assignment) → M (Unit {0})
set_outcome submission_id status assignment_id change = do
  set_submission submission_id (λ e. record e { status = status })
  set_assignment assignment_id change

-- the tester's reward, once for each assignment
unfoldable pub pay_reward : Assignment → Campaign → ℕ → String → M (Unit {0})
pay_reward assignment campaign actor_id note = do
  record_credit_entry (record {
    user_id = assignment.tester_id;
    delta = pos campaign.reward_credits;
    entry_type = CreditEntryType.reward;
    idempotency_key = assignment_reward assignment.id;
    reference_type = some "assignment";
    reference_id = some assignment.id;
    note = some (append note campaign.name);
    created_by = some actor_id;
  })
  pure tt

-- the branches on `payload.decision`
unfoldable pub decide : ReviewDecision → Assignment → ℕ → Campaign → ℕ → M (Unit {0})
decide ReviewDecision.approved assignment submission_id campaign reviewer_id = do
  t ← now
  set_outcome submission_id SubmissionStatus.approved assignment.id
      (λ a. record a { status = AssignmentStatus.approved; completed_at = some t })
  pay_reward assignment campaign reviewer_id "Approved test for "
  maybe_complete_campaign campaign reviewer_id
  pure tt
decide ReviewDecision.changes_requested assignment submission_id campaign reviewer_id =
    set_outcome submission_id SubmissionStatus.changes_requested assignment.id
      (λ a. record a { status = AssignmentStatus.changes_requested })
decide ReviewDecision.rejected assignment submission_id campaign reviewer_id =
    set_outcome submission_id SubmissionStatus.rejected assignment.id
      (λ a. record a { status = AssignmentStatus.rejected })

-- a row that the code reads without a test: without it an AttributeError
unfoldable pub or_crash : {A : Type 0} → Option A → M A
or_crash none = throw unhandled_error
or_crash (some a) = pure a

unfoldable pub create_review : ℕ → ℕ → ReviewDecision → String → M Review
unfolding action_of words_of
create_review submission_id reviewer_id decision notes = do
  located ← gets (λ s. find (λ e. e.id == submission_id) s.submissions)
  submission ← or_raise located "Submission not found" 404
  row ← gets (λ s. find (λ a. a.id == submission.assignment_id) s.assignments)
  assignment ← or_crash row
  found ← gets (λ s. find (λ c. c.id == assignment.campaign_id) s.campaigns)
  campaign ← or_raise found "Campaign not found" 404
  require_campaign_owner campaign reviewer_id
  active_dispute ← gets (λ s.
      find
        (λ d.
          d.assignment_id == assignment.id
          && (dispute_is d.status DisputeStatus.opened
              || dispute_is d.status DisputeStatus.under_review))
        s.disputes)
  raise_if (is_some active_dispute) "A moderator is handling this submission's escalation" 409
  raise_if (not (submission_is submission.status SubmissionStatus.submitted))
      "This submission has already been reviewed" 409
  raise_if (not (assignment_is assignment.status AssignmentStatus.submitted))
      "The assignment is not awaiting review" 409
  review_id ← uuid4
  let review : Review = record {
    id = review_id;
    submission_id = submission_id;
    reviewer_id = reviewer_id;
    decision = decision;
    notes = notes;
  }
  insert_review review
  decide decision assignment submission_id campaign reviewer_id
  add_audit_event reviewer_id (action_of decision) "assignment" assignment.id
      (("submission_id", Json.uuid submission_id) ∷ ("review_id", Json.uuid review_id) ∷ [])
  add_notification assignment.tester_id "submission_reviewed"
      (append "Your " (append campaign.name (append " submission was " (words_of decision))))
      (prefix 500 notes) "submission" submission_id (review_tester review_id)
  pure review

unfoldable pub add_message : ℕ → ℕ → String → M Message
add_message assignment_id sender_id body = do
  assignment ← get_assignment assignment_id
  require_assignment_participant assignment sender_id
  message_id ← uuid4
  let message : Message = record {
    id = message_id;
    assignment_id = assignment_id;
    sender_id = sender_id;
    body = body;
  }
  insert_message message
  add_audit_event sender_id "message.created" "assignment" assignment_id
      (("message_id", Json.uuid message_id) ∷ [])
  campaign ← get_campaign assignment.campaign_id
  let recipient_id =
      if sender_id == assignment.tester_id then campaign.owner_id else assignment.tester_id
  add_notification recipient_id "message_received"
      (append "New private message about " campaign.name) (prefix 500 body) "assignment"
      assignment_id (message_recipient message_id)
  pure message
