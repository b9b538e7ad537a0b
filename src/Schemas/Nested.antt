-- ===== src/Schemas/Nested.antt =====
-- The response models that hold others.
use test_exchange_backend.Base.{ℕ, String, Bool, Option, List, map}
use test_exchange_backend.Base.Int.{ℤ}
use test_exchange_backend.Model.Enums.{
  Platform, CampaignStatus, ContractStatus, AssignmentStatus, SubmissionStatus,
}
use test_exchange_backend.Model.Entities.{
  Profile, Campaign, TestingContract, ContractTask, Assignment, EvidenceSubmission, EvidenceItem,
}
use test_exchange_backend.Schemas.Reads.{
  PublicProfileRead, ContractTaskRead, EvidenceItemRead, public_profile_read, contract_task_read,
  evidence_item_read,
}
use test_exchange_backend.Schemas.Records.{MessageRead, ReviewRead, DisputeRead, AuditEventRead}

pub record CampaignRead : Type 0 where
  pub id : ℕ
  pub owner_id : ℕ
  pub owner_profile : PublicProfileRead
  pub name : String
  pub slug : String
  pub platform : Platform
  pub category : String
  pub public_summary : String
  pub public_tester_requirements : String
  pub minimum_version : Option String
  pub target_testers : ℕ
  pub reward_credits : ℕ
  pub status : CampaignStatus
  pub published_at : Option ℕ

-- `owner_profile` is the profile of the campaign's owner
unfoldable pub campaign_read : Profile → Campaign → CampaignRead
unfolding public_profile_read
campaign_read owner c = record {
  id = c.id;
  owner_id = c.owner_id;
  owner_profile = public_profile_read owner;
  name = c.name;
  slug = c.slug;
  platform = c.platform;
  category = c.category;
  public_summary = c.public_summary;
  public_tester_requirements = c.public_tester_requirements;
  minimum_version = c.minimum_version;
  target_testers = c.target_testers;
  reward_credits = c.reward_credits;
  status = c.status;
  published_at = c.published_at;
}

pub record AssignmentRead : Type 0 where
  pub id : ℕ
  pub campaign_id : ℕ
  pub tester_id : ℕ
  pub tester_profile : PublicProfileRead
  pub application_note : Option String
  pub status : AssignmentStatus
  pub accepted_at : Option ℕ
  pub started_at : Option ℕ
  pub submitted_at : Option ℕ
  pub completed_at : Option ℕ

unfoldable pub assignment_read : Profile → Assignment → AssignmentRead
unfolding public_profile_read
assignment_read tester a = record {
  id = a.id;
  campaign_id = a.campaign_id;
  tester_id = a.tester_id;
  tester_profile = public_profile_read tester;
  application_note = a.application_note;
  status = a.status;
  accepted_at = a.accepted_at;
  started_at = a.started_at;
  submitted_at = a.submitted_at;
  completed_at = a.completed_at;
}

pub record ContractRead : Type 0 where
  pub id : ℕ
  pub campaign_id : ℕ
  pub version : ℕ
  pub tester_instructions : String
  pub access_instructions : Option String
  pub device_requirements : Option String
  pub evidence_requirements : String
  pub review_window_hours : ℕ
  pub minimum_duration_days : ℕ
  pub required_sessions : ℕ
  pub status : ContractStatus
  pub locked_at : Option ℕ
  pub tasks : List ContractTaskRead

unfoldable pub contract_read : TestingContract → List ContractTask → ContractRead
contract_read contract tasks = record {
  id = contract.id;
  campaign_id = contract.campaign_id;
  version = contract.version;
  tester_instructions = contract.tester_instructions;
  access_instructions = contract.access_instructions;
  device_requirements = contract.device_requirements;
  evidence_requirements = contract.evidence_requirements;
  review_window_hours = contract.review_window_hours;
  minimum_duration_days = contract.minimum_duration_days;
  required_sessions = contract.required_sessions;
  status = contract.status;
  locked_at = contract.locked_at;
  tasks = map contract_task_read tasks;
}

pub record SubmissionRead : Type 0 where
  pub id : ℕ
  pub assignment_id : ℕ
  pub version : ℕ
  pub summary : String
  pub status : SubmissionStatus
  pub submitted_at : ℕ
  pub items : List EvidenceItemRead

unfoldable pub submission_read : EvidenceSubmission → List EvidenceItem → SubmissionRead
submission_read submission items = record {
  id = submission.id;
  assignment_id = submission.assignment_id;
  version = submission.version;
  summary = submission.summary;
  status = submission.status;
  submitted_at = submission.submitted_at;
  items = map evidence_item_read items;
}

pub record ModerationDisputeCaseRead : Type 0 where
  pub dispute : DisputeRead
  pub assignment : AssignmentRead
  pub campaign : CampaignRead
  pub contract : ContractRead
  pub submissions : List SubmissionRead
  pub reviews : List ReviewRead
  pub messages : List MessageRead
  pub audit_events : List AuditEventRead

pub record CreditBalanceRead : Type 0 where
  pub user_id : ℕ
  pub balance : ℤ

pub record CapabilitiesRead : Type 0 where
  pub is_moderator : Bool

pub record BetaStatusRead : Type 0 where
  pub enabled : Bool
  pub max_users : ℕ
  pub claimed_seats : ℕ
  pub remaining_seats : ℕ
  pub is_full : Bool
