-- ===== src/Notifications.antt =====
-- app/services/notifications.py: notifications, once for each idempotency key, and read marks.
use test_exchange_backend.Base.{
  ℕ, String, not, Option, none, some, ◌==◌, is_none, if◌then◌else◌, find,
}
use test_exchange_backend.Model.Keys.{NotificationKey, notification_key_eq}
use test_exchange_backend.Model.Entities.{Notification}
use test_exchange_backend.Session.{
  M, gets, or_raise, raise_if, now, uuid4, insert_notification, set_notification, mark_all_read,
  pure, ◌>>=◌, ◌>>◌,
}

unfoldable pub insert_if_new : (ℕ → Notification) → Option Notification → M Notification
insert_if_new make (some existing) = pure existing
insert_if_new make none = do
  notification_id ← uuid4
  insert_notification (make notification_id)
  pure (make notification_id)

unfoldable pub add_notification :
    ℕ → String → String → String → String → ℕ → NotificationKey → M Notification
unfolding insert_if_new
add_notification user_id kind title body entity_type entity_id idempotency_key = do
  existing ←
      gets (λ s. find (λ n. notification_key_eq n.idempotency_key idempotency_key) s.notifications)
  insert_if_new
      (λ notification_id. record {
        id = notification_id;
        user_id = user_id;
        kind = kind;
        title = title;
        body = body;
        entity_type = entity_type;
        entity_id = entity_id;
        idempotency_key = idempotency_key;
        read_at = none;
      })
      existing

unfoldable pub mark_notification_read : ℕ → ℕ → M Notification
mark_notification_read notification_id user_id = do
  found ← gets (λ s. find (λ n. n.id == notification_id) s.notifications)
  notification ← or_raise found "Notification not found" 404
  raise_if (not (notification.user_id == user_id)) "Notification not found" 404
  if is_none notification.read_at
      then (do
        t ← now
        set_notification notification_id (λ n. record n { read_at = some t })
        pure (record notification { read_at = some t }))
      else pure notification

unfoldable pub mark_all_notifications_read : ℕ → M (Unit {0})
mark_all_notifications_read user_id = do t ← now; mark_all_read user_id t
