-- ===== src/Schemas/Records.antt =====
-- The response models of what happened, each made from a row by `model_validate`. The columns `created_at` and
-- `updated_at` are left out, as in the rows.
use test_exchange_backend.Base.{ℕ, String, Option, List}
use test_exchange_backend.Base.Int.{ℤ}
use test_exchange_backend.Model.Enums.{
  ReviewDecision, CreditEntryType, DisputeStatus, DisputeRemedy,
}
use test_exchange_backend.Model.Keys.{CreditKey}
use test_exchange_backend.Model.Entities.{
  Message, Notification, Review, CreditLedgerEntry, Dispute, AuditEvent, Json,
}

pub record MessageRead : Type 0 where
  pub id : ℕ
  pub assignment_id : ℕ
  pub sender_id : ℕ
  pub body : String

unfoldable pub message_read : Message → MessageRead
message_read m = record {
  id = m.id;
  assignment_id = m.assignment_id;
  sender_id = m.sender_id;
  body = m.body;
}

pub record NotificationRead : Type 0 where
  pub id : ℕ
  pub user_id : ℕ
  pub kind : String
  pub title : String
  pub body : String
  pub entity_type : String
  pub entity_id : ℕ
  pub read_at : Option ℕ

unfoldable pub notification_read : Notification → NotificationRead
notification_read n = record {
  id = n.id;
  user_id = n.user_id;
  kind = n.kind;
  title = n.title;
  body = n.body;
  entity_type = n.entity_type;
  entity_id = n.entity_id;
  read_at = n.read_at;
}

pub record ReviewRead : Type 0 where
  pub id : ℕ
  pub submission_id : ℕ
  pub reviewer_id : ℕ
  pub decision : ReviewDecision
  pub notes : String

unfoldable pub review_read : Review → ReviewRead
review_read r = record {
  id = r.id;
  submission_id = r.submission_id;
  reviewer_id = r.reviewer_id;
  decision = r.decision;
  notes = r.notes;
}

pub record CreditLedgerEntryRead : Type 0 where
  pub id : ℕ
  pub transaction_id : ℕ
  pub user_id : ℕ
  pub delta : ℤ
  pub entry_type : CreditEntryType
  pub reference_type : Option String
  pub reference_id : Option ℕ
  pub note : Option String
  pub idempotency_key : CreditKey
  pub created_by : Option ℕ

unfoldable pub credit_ledger_entry_read : CreditLedgerEntry → CreditLedgerEntryRead
credit_ledger_entry_read e = record {
  id = e.id;
  transaction_id = e.transaction_id;
  user_id = e.user_id;
  delta = e.delta;
  entry_type = e.entry_type;
  reference_type = e.reference_type;
  reference_id = e.reference_id;
  note = e.note;
  idempotency_key = e.idempotency_key;
  created_by = e.created_by;
}

pub record DisputeRead : Type 0 where
  pub id : ℕ
  pub assignment_id : ℕ
  pub submission_id : Option ℕ
  pub opened_by : ℕ
  pub reason : String
  pub status : DisputeStatus
  pub assigned_to : Option ℕ
  pub assigned_at : Option ℕ
  pub resolution : Option String
  pub remedy : Option DisputeRemedy
  pub resolved_by : Option ℕ
  pub resolved_at : Option ℕ

unfoldable pub dispute_read : Dispute → DisputeRead
dispute_read d = record {
  id = d.id;
  assignment_id = d.assignment_id;
  submission_id = d.submission_id;
  opened_by = d.opened_by;
  reason = d.reason;
  status = d.status;
  assigned_to = d.assigned_to;
  assigned_at = d.assigned_at;
  resolution = d.resolution;
  remedy = d.remedy;
  resolved_by = d.resolved_by;
  resolved_at = d.resolved_at;
}

pub record AuditEventRead : Type 0 where
  pub id : ℕ
  pub actor_id : Option ℕ
  pub action : String
  pub entity_type : String
  pub entity_id : ℕ
  pub details : List (String × Json)

unfoldable pub audit_event_read : AuditEvent → AuditEventRead
audit_event_read e = record {
  id = e.id;
  actor_id = e.actor_id;
  action = e.action;
  entity_type = e.entity_type;
  entity_id = e.entity_id;
  details = e.details;
}
