-- ===== src/Credits/Purposes.antt =====
-- What the entries of the services are for: each names a row, and its idempotency key is the key of
-- that row.
use test_exchange_backend.Base.{
  ℕ, Bool, true, false, ◌&&◌, Option, none, some, List, [], ◌∷◌, ◌≡◌, ◌==◌, count_if,
}
use test_exchange_backend.Model.Enums.{CreditEntryType}
use test_exchange_backend.Model.Keys.{
  CreditKey, campaign_posting, assignment_reward, profile_signup_grant,
}
use test_exchange_backend.Model.Entities.{CreditLedgerEntry}

-- the key that an entry of a type has for the row that it refers to
abbrev pub key_of : CreditEntryType → Option ℕ → Option CreditKey
key_of CreditEntryType.posting (some id) = some (campaign_posting id)
key_of CreditEntryType.reward (some id) = some (assignment_reward id)
key_of CreditEntryType.signup_grant (some id) = some (profile_signup_grant id)
key_of _ _ = none

abbrev pub IsPurposeful : List CreditLedgerEntry → Type 0
IsPurposeful [] = Unit
IsPurposeful (l ∷ rest) =
    (key_of l.entry_type l.reference_id ≡ some l.idempotency_key) × IsPurposeful rest

-- `entry_type == ...`
unfoldable pub type_is : CreditEntryType → CreditEntryType → Bool
type_is CreditEntryType.posting CreditEntryType.posting = true
type_is CreditEntryType.reward CreditEntryType.reward = true
type_is CreditEntryType.signup_grant CreditEntryType.signup_grant = true
type_is CreditEntryType.purchase CreditEntryType.purchase = true
type_is CreditEntryType.reservation CreditEntryType.reservation = true
type_is CreditEntryType.release CreditEntryType.release = true
type_is CreditEntryType.refund CreditEntryType.refund = true
type_is CreditEntryType.adjustment CreditEntryType.adjustment = true
type_is _ _ = false

unfoldable pub refers_to : ℕ → Option ℕ → Bool
refers_to id none = false
refers_to id (some j) = j == id

-- how many entries of a type refer to a row
unfoldable pub posted_for : CreditEntryType → ℕ → List CreditLedgerEntry → ℕ
unfolding type_is refers_to
posted_for t id = count_if (λ l. type_is l.entry_type t && refers_to id l.reference_id)
