-- ===== src/Stability/Basics.antt =====
-- The services of app/services/common.py and app/services/notifications.py.
use test_exchange_backend.Base.{ℕ, String, Option, none, some, List, arith}
use test_exchange_backend.Model.Keys.{NotificationKey}
use test_exchange_backend.Model.Entities.{Campaign, Assignment, Notification, Json}
use test_exchange_backend.Session.{Session}
use test_exchange_backend.Session.Keeps.{Keeps, IsQuiet, stable_rules}
use test_exchange_backend.Common.{
  get_profile, get_campaign, get_assignment, require_campaign_owner, require_assignment_participant,
  add_audit_event,
}
use test_exchange_backend.Credits.{CreditEntry, record_credit_entry, ensure_credit_account}
use test_exchange_backend.Credits.Steps.{IsServiceEntry}
use test_exchange_backend.Notifications.{
  add_notification, insert_if_new, mark_notification_read, mark_all_notifications_read,
}

-- the two operations of the credit service that the other services call
pub record IsCreditStable (P : Session → Type 0) : Type 0 where
  pub at_record : (e : CreditEntry) → IsServiceEntry e → Keeps P (record_credit_entry e)
  pub at_ensure : (user_id : ℕ) → Keeps P (ensure_credit_account user_id)

module _ {P : Session → Type 0} where
  pub stable_record :
      IsCreditStable P → (e : CreditEntry) → IsServiceEntry e → Keeps P (record_credit_entry e)
  stable_record cr = cr.at_record

  pub stable_ensure : IsCreditStable P → (user_id : ℕ) → Keeps P (ensure_credit_account user_id)
  stable_ensure cr = cr.at_ensure

module _ {P : Session → Type 0} (st : IsQuiet P) where
  pub Keeps-get_profile : (id : ℕ) → Keeps P (get_profile id)
  unfolding get_profile
  Keeps-get_profile id = search stable_rules

  pub Keeps-get_campaign : (id : ℕ) → Keeps P (get_campaign id)
  unfolding get_campaign
  Keeps-get_campaign id = search stable_rules

  pub Keeps-get_assignment : (id : ℕ) → Keeps P (get_assignment id)
  unfolding get_assignment
  Keeps-get_assignment id = search stable_rules

  pub Keeps-require_campaign_owner :
      (campaign : Campaign) (user_id : ℕ) → Keeps P (require_campaign_owner campaign user_id)
  unfolding require_campaign_owner
  Keeps-require_campaign_owner campaign user_id = search stable_rules

  pub Keeps-require_assignment_participant :
      (a : Assignment) (user_id : ℕ) → Keeps P (require_assignment_participant a user_id)
  unfolding require_assignment_participant
  Keeps-require_assignment_participant a user_id = search (stable_rules, Keeps-get_campaign)

  pub Keeps-add_audit_event :
      (actor_id : ℕ) (action entity_type : String) (entity_id : ℕ) (details : List (String × Json))
      → Keeps P (add_audit_event actor_id action entity_type entity_id details)
  unfolding add_audit_event
  Keeps-add_audit_event actor_id action entity_type entity_id details = search stable_rules

  Keeps-insert_if_new :
      (make : ℕ → Notification) (existing : Option Notification)
      → Keeps P (insert_if_new make existing)
  unfolding insert_if_new
  Keeps-insert_if_new make none = search stable_rules
  Keeps-insert_if_new make (some n) = search stable_rules

  pub Keeps-add_notification :
      (user_id : ℕ) (kind title body entity_type : String) (entity_id : ℕ) (key : NotificationKey)
      → Keeps P (add_notification user_id kind title body entity_type entity_id key)
  unfolding add_notification
  Keeps-add_notification user_id kind title body entity_type entity_id key =
      search (stable_rules, Keeps-insert_if_new)

  pub Keeps-mark_notification_read :
      (notification_id user_id : ℕ) → Keeps P (mark_notification_read notification_id user_id)
  unfolding mark_notification_read
  Keeps-mark_notification_read notification_id user_id = search (stable_rules, arith) depth 12

  pub Keeps-mark_all_notifications_read :
      (user_id : ℕ) → Keeps P (mark_all_notifications_read user_id)
  unfolding mark_all_notifications_read
  Keeps-mark_all_notifications_read user_id = search stable_rules

pub ruleset service_rules = (
  stable_rules, Keeps-get_profile, Keeps-get_campaign, Keeps-get_assignment,
  Keeps-require_campaign_owner, Keeps-require_assignment_participant, Keeps-add_audit_event,
  Keeps-add_notification, stable_record, stable_ensure,
)
