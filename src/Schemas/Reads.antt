-- ===== src/Schemas/Reads.antt =====
-- The response models, each made from a row by `model_validate`. The columns `created_at` and
-- `updated_at` are left out, as in the rows.
use test_exchange_backend.Base.{ℕ, String, Bool, Option}
use test_exchange_backend.Model.Enums.{EvidenceKind}
use test_exchange_backend.Model.Entities.{
  Profile, WaitlistEntry, ContractTask, TestingSession, EvidenceItem,
}

pub record PublicProfileRead : Type 0 where
  pub id : ℕ
  pub username : String
  pub display_name : String
  pub bio : Option String
  pub avatar_url : Option String

unfoldable pub public_profile_read : Profile → PublicProfileRead
public_profile_read p = record {
  id = p.id;
  username = p.username;
  display_name = p.display_name;
  bio = p.bio;
  avatar_url = p.avatar_url;
}

pub record ProfileRead : Type 0 where
  pub id : ℕ
  pub email : Option String
  pub username : String
  pub display_name : String
  pub bio : Option String
  pub avatar_url : Option String

unfoldable pub profile_read : Profile → ProfileRead
profile_read p = record {
  id = p.id;
  email = p.email;
  username = p.username;
  display_name = p.display_name;
  bio = p.bio;
  avatar_url = p.avatar_url;
}

pub record ModerationParticipantRead : Type 0 where
  pub id : ℕ
  pub email : Option String
  pub username : String
  pub display_name : String
  pub bio : Option String
  pub avatar_url : Option String
  pub is_suspended : Bool
  pub suspended_at : Option ℕ
  pub suspension_reason : Option String

unfoldable pub moderation_participant_read : Profile → ModerationParticipantRead
moderation_participant_read p = record {
  id = p.id;
  email = p.email;
  username = p.username;
  display_name = p.display_name;
  bio = p.bio;
  avatar_url = p.avatar_url;
  is_suspended = p.is_suspended;
  suspended_at = p.suspended_at;
  suspension_reason = p.suspension_reason;
}

pub record WaitlistRead : Type 0 where
  pub id : ℕ
  pub email : String

unfoldable pub waitlist_read : WaitlistEntry → WaitlistRead
waitlist_read w = record { id = w.id; email = w.email }

pub record ContractTaskRead : Type 0 where
  pub id : ℕ
  pub position : ℕ
  pub title : String
  pub instructions : String
  pub evidence_required : Bool

unfoldable pub contract_task_read : ContractTask → ContractTaskRead
contract_task_read t = record {
  id = t.id;
  position = t.position;
  title = t.title;
  instructions = t.instructions;
  evidence_required = t.evidence_required;
}

pub record EvidenceItemRead : Type 0 where
  pub id : ℕ
  pub task_id : Option ℕ
  pub kind : EvidenceKind
  pub storage_key : Option String
  pub external_url : Option String
  pub note : Option String
  pub created_at : ℕ

unfoldable pub evidence_item_read : EvidenceItem → EvidenceItemRead
evidence_item_read i = record {
  id = i.id;
  task_id = i.task_id;
  kind = i.kind;
  storage_key = i.storage_key;
  external_url = i.external_url;
  note = i.note;
  created_at = i.created_at;
}

pub record TestingSessionRead : Type 0 where
  pub id : ℕ
  pub assignment_id : ℕ
  pub session_date : ℕ
  pub note : Option String

unfoldable pub testing_session_read : TestingSession → TestingSessionRead
testing_session_read r = record {
  id = r.id;
  assignment_id = r.assignment_id;
  session_date = r.session_date;
  note = r.note;
}
