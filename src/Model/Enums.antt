-- ===== src/Model/Enums.antt =====
-- app/models/enums.py: the enumerations, the groups of statuses, and the equality tests on them.
use test_exchange_backend.Base.{Bool, true, false}

pub data Platform : Type 0 where
  android ios web desktop api other : Platform

pub data CampaignStatus : Type 0 where
  draft published paused completed cancelled : CampaignStatus

pub data ContractStatus : Type 0 where
  draft locked : ContractStatus

pub data AssignmentStatus : Type 0 where
  applied accepted in_progress submitted changes_requested approved rejected cancelled :
      AssignmentStatus

pub data SubmissionStatus : Type 0 where
  submitted changes_requested approved rejected : SubmissionStatus

pub data ReviewDecision : Type 0 where
  approved changes_requested rejected : ReviewDecision

pub data EvidenceKind : Type 0 where
  screenshot video log note link file : EvidenceKind

pub data CreditEntryType : Type 0 where
  signup_grant purchase posting reservation reward release refund adjustment : CreditEntryType

pub data DisputeStatus : Type 0 where
  opened under_review resolved rejected : DisputeStatus

pub data DisputeRemedy : Type 0 where
  no_remedy award_tester : DisputeRemedy

-- `OCCUPIED_ASSIGNMENT_STATUSES`
unfoldable pub occupied : AssignmentStatus → Bool
occupied AssignmentStatus.accepted = true
occupied AssignmentStatus.in_progress = true
occupied AssignmentStatus.submitted = true
occupied AssignmentStatus.changes_requested = true
occupied AssignmentStatus.approved = true
occupied _ = false

-- `ACTIVE_TESTING_ASSIGNMENT_STATUSES`
unfoldable pub active_testing : AssignmentStatus → Bool
active_testing AssignmentStatus.accepted = true
active_testing AssignmentStatus.in_progress = true
active_testing AssignmentStatus.submitted = true
active_testing AssignmentStatus.changes_requested = true
active_testing _ = false

-- `campaign.status == ...`
unfoldable pub campaign_is : CampaignStatus → CampaignStatus → Bool
campaign_is CampaignStatus.draft CampaignStatus.draft = true
campaign_is CampaignStatus.published CampaignStatus.published = true
campaign_is CampaignStatus.paused CampaignStatus.paused = true
campaign_is CampaignStatus.completed CampaignStatus.completed = true
campaign_is CampaignStatus.cancelled CampaignStatus.cancelled = true
campaign_is _ _ = false

-- `assignment.status == ...`
unfoldable pub assignment_is : AssignmentStatus → AssignmentStatus → Bool
assignment_is AssignmentStatus.applied AssignmentStatus.applied = true
assignment_is AssignmentStatus.accepted AssignmentStatus.accepted = true
assignment_is AssignmentStatus.in_progress AssignmentStatus.in_progress = true
assignment_is AssignmentStatus.submitted AssignmentStatus.submitted = true
assignment_is AssignmentStatus.changes_requested AssignmentStatus.changes_requested = true
assignment_is AssignmentStatus.approved AssignmentStatus.approved = true
assignment_is AssignmentStatus.rejected AssignmentStatus.rejected = true
assignment_is AssignmentStatus.cancelled AssignmentStatus.cancelled = true
assignment_is _ _ = false

-- `submission.status == ...`
unfoldable pub submission_is : SubmissionStatus → SubmissionStatus → Bool
submission_is SubmissionStatus.submitted SubmissionStatus.submitted = true
submission_is SubmissionStatus.changes_requested SubmissionStatus.changes_requested = true
submission_is SubmissionStatus.approved SubmissionStatus.approved = true
submission_is SubmissionStatus.rejected SubmissionStatus.rejected = true
submission_is _ _ = false

-- `dispute.status == ...`
unfoldable pub dispute_is : DisputeStatus → DisputeStatus → Bool
dispute_is DisputeStatus.opened DisputeStatus.opened = true
dispute_is DisputeStatus.under_review DisputeStatus.under_review = true
dispute_is DisputeStatus.resolved DisputeStatus.resolved = true
dispute_is DisputeStatus.rejected DisputeStatus.rejected = true
dispute_is _ _ = false

-- `remedy == DisputeRemedy.AWARD_TESTER`
unfoldable pub is_award : DisputeRemedy → Bool
is_award DisputeRemedy.award_tester = true
is_award DisputeRemedy.no_remedy = false

-- `contract.status == ContractStatus.LOCKED`
unfoldable pub is_locked : ContractStatus → Bool
is_locked ContractStatus.locked = true
is_locked ContractStatus.draft = false
