-- ===== src/Model/Entities.antt =====
-- app/models/entities.py: the rows of each table. An id is a UUID, of which the services use the
-- identity only, and a time is a number of microseconds in UTC. The columns `created_at` and
-- `updated_at` are left out where the database fills them; the one of an item of evidence, which the
-- program fills, orders the items that are read.
use test_exchange_backend.Base.{ℕ, Bool, Option, String, List}
use test_exchange_backend.Base.Int.{ℤ}
use test_exchange_backend.Model.Enums.{
  Platform, CampaignStatus, ContractStatus, AssignmentStatus, SubmissionStatus, ReviewDecision,
  EvidenceKind, CreditEntryType, DisputeStatus, DisputeRemedy,
}
use test_exchange_backend.Model.Keys.{CreditKey, NotificationKey}

pub record Profile : Type 0 where
  pub id : ℕ
  pub email : Option String
  pub username : String
  pub display_name : String
  pub bio : Option String
  pub avatar_url : Option String
  pub is_suspended : Bool
  pub suspended_at : Option ℕ
  pub suspension_reason : Option String

-- the row of the singleton table, whose id is 1
pub record BetaProgramState : Type 0 where
  pub claimed_seats : ℕ

pub record WaitlistEntry : Type 0 where
  pub id : ℕ
  pub email : String

pub record Campaign : Type 0 where
  pub id : ℕ
  pub owner_id : ℕ
  pub name : String
  pub slug : String
  pub platform : Platform
  pub category : String
  pub public_summary : String
  pub public_tester_requirements : String
  pub minimum_version : Option String
  pub target_testers : ℕ
  pub reward_credits : ℕ
  pub status : CampaignStatus
  pub published_at : Option ℕ

pub record TestingContract : Type 0 where
  pub id : ℕ
  pub campaign_id : ℕ
  pub version : ℕ
  pub tester_instructions : String
  pub access_instructions : Option String
  pub device_requirements : Option String
  pub evidence_requirements : String
  pub review_window_hours : ℕ
  pub minimum_duration_days : ℕ
  pub required_sessions : ℕ
  pub status : ContractStatus
  pub locked_at : Option ℕ

pub record ContractTask : Type 0 where
  pub id : ℕ
  pub contract_id : ℕ
  pub position : ℕ
  pub title : String
  pub instructions : String
  pub evidence_required : Bool

pub record Assignment : Type 0 where
  pub id : ℕ
  pub campaign_id : ℕ
  pub tester_id : ℕ
  pub application_note : Option String
  pub status : AssignmentStatus
  pub accepted_at : Option ℕ
  pub started_at : Option ℕ
  pub submitted_at : Option ℕ
  pub completed_at : Option ℕ

pub record TestingSession : Type 0 where
  pub id : ℕ
  pub assignment_id : ℕ
  pub session_date : ℕ
  pub note : Option String

pub record EvidenceSubmission : Type 0 where
  pub id : ℕ
  pub assignment_id : ℕ
  pub version : ℕ
  pub summary : String
  pub status : SubmissionStatus
  pub submitted_at : ℕ

pub record EvidenceItem : Type 0 where
  pub id : ℕ
  pub submission_id : ℕ
  pub task_id : Option ℕ
  pub kind : EvidenceKind
  pub storage_key : Option String
  pub external_url : Option String
  pub note : Option String
  pub created_at : ℕ

pub record Message : Type 0 where
  pub id : ℕ
  pub assignment_id : ℕ
  pub sender_id : ℕ
  pub body : String

pub record Notification : Type 0 where
  pub id : ℕ
  pub user_id : ℕ
  pub kind : String
  pub title : String
  pub body : String
  pub entity_type : String
  pub entity_id : ℕ
  pub idempotency_key : NotificationKey
  pub read_at : Option ℕ

pub record Review : Type 0 where
  pub id : ℕ
  pub submission_id : ℕ
  pub reviewer_id : ℕ
  pub decision : ReviewDecision
  pub notes : String

pub record CreditAccount : Type 0 where
  pub user_id : ℕ
  pub balance : ℤ

pub record CreditLedgerEntry : Type 0 where
  pub id : ℕ
  pub transaction_id : ℕ
  pub user_id : ℕ
  pub delta : ℤ
  pub entry_type : CreditEntryType
  pub reference_type : Option String
  pub reference_id : Option ℕ
  pub note : Option String
  pub idempotency_key : CreditKey
  pub created_by : Option ℕ

pub record Dispute : Type 0 where
  pub id : ℕ
  pub assignment_id : ℕ
  pub submission_id : Option ℕ
  pub opened_by : ℕ
  pub reason : String
  pub status : DisputeStatus
  pub assigned_to : Option ℕ
  pub assigned_at : Option ℕ
  pub resolution : Option String
  pub remedy : Option DisputeRemedy
  pub resolved_by : Option ℕ
  pub resolved_at : Option ℕ

-- the values that the services put into `AuditEvent.details`
pub data Json : Type 0 where
  text : String → Json
  number : ℕ → Json
  flag : Bool → Json
  uuid : ℕ → Json
  day : ℕ → Json

pub record AuditEvent : Type 0 where
  pub id : ℕ
  pub actor_id : Option ℕ
  pub action : String
  pub entity_type : String
  pub entity_id : ℕ
  pub details : List (String × Json)
