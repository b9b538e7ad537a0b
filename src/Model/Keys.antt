-- ===== src/Model/Keys.antt =====
-- The idempotency keys of app/services, each an f-string over the id of a row. An id is a UUID,
-- whose text holds no colon, so the texts are equal exactly when the constructors and ids are.
use test_exchange_backend.Base.{ℕ, ◌≡◌, ◌↔◌, Bool, true, false, ◌&&◌, arith, ◌==◌}

-- `campaign:{id}:posting`, `assignment:{id}:reward` and `profile:{id}:signup-grant`
pub data CreditKey : Type 0 where
  campaign_posting : ℕ → CreditKey
  assignment_reward : ℕ → CreditKey
  profile_signup_grant : ℕ → CreditKey

unfoldable pub credit_key_eq : CreditKey → CreditKey → Bool
credit_key_eq (campaign_posting a) (campaign_posting b) = a == b
credit_key_eq (assignment_reward a) (assignment_reward b) = a == b
credit_key_eq (profile_signup_grant a) (profile_signup_grant b) = a == b
credit_key_eq _ _ = false

pub credit_key_eq_iff : (k j : CreditKey) → (credit_key_eq k j ≡ true) ↔ (k ≡ j)
unfolding credit_key_eq
credit_key_eq_iff (campaign_posting a) (campaign_posting b) = ground arith
credit_key_eq_iff (assignment_reward a) (assignment_reward b) = ground arith
credit_key_eq_iff (profile_signup_grant a) (profile_signup_grant b) = ground arith
credit_key_eq_iff _ _ = ground arith

-- `assignment:{id}:application-notification` and the like
pub data NotificationKey : Type 0 where
  assignment_application : ℕ → NotificationKey
  assignment_accepted : ℕ → NotificationKey
  assignment_declined : ℕ → NotificationKey
  assignment_withdrawn : ℕ → NotificationKey
  assignment_recruitment_closed : ℕ → NotificationKey
  submission_owner : ℕ → NotificationKey
  review_tester : ℕ → NotificationKey
  message_recipient : ℕ → NotificationKey
  dispute_owner : ℕ → NotificationKey
  dispute_tester_resolution : ℕ → NotificationKey
  dispute_owner_resolution : ℕ → NotificationKey

-- the fixed text of a key, and the id in it
unfoldable pub key_kind : NotificationKey → ℕ
key_kind (assignment_application _) = 0
key_kind (assignment_accepted _) = 1
key_kind (assignment_declined _) = 2
key_kind (assignment_withdrawn _) = 3
key_kind (assignment_recruitment_closed _) = 4
key_kind (submission_owner _) = 5
key_kind (review_tester _) = 6
key_kind (message_recipient _) = 7
key_kind (dispute_owner _) = 8
key_kind (dispute_tester_resolution _) = 9
key_kind (dispute_owner_resolution _) = 10

unfoldable pub key_id : NotificationKey → ℕ
key_id (assignment_application a) = a
key_id (assignment_accepted a) = a
key_id (assignment_declined a) = a
key_id (assignment_withdrawn a) = a
key_id (assignment_recruitment_closed a) = a
key_id (submission_owner a) = a
key_id (review_tester a) = a
key_id (message_recipient a) = a
key_id (dispute_owner a) = a
key_id (dispute_tester_resolution a) = a
key_id (dispute_owner_resolution a) = a

unfoldable pub notification_key_eq : NotificationKey → NotificationKey → Bool
unfolding key_kind key_id
notification_key_eq k j = key_kind k == key_kind j && key_id k == key_id j
