-- ===== src/Credits/Defs.antt =====
-- app/services/credits.py: the accounts and the append-only ledger.
use test_exchange_backend.Base.{ℕ, String, Option, none, some, ◌==◌, find}
use test_exchange_backend.Base.Int.{ℤ, pos, ◌+ℤ◌, ltb_ℤ}
use test_exchange_backend.Model.Enums.{CreditEntryType}
use test_exchange_backend.Model.Keys.{CreditKey, credit_key_eq}
use test_exchange_backend.Model.Entities.{CreditAccount, CreditLedgerEntry}
use test_exchange_backend.Session.{
  M, gets, raise_if, uuid4, is_zero, insert_account, insert_entry, set_balance, pure, ◌>>=◌, ◌>>◌,
}

unfoldable pub create_if_absent : ℕ → Option CreditAccount → M CreditAccount
create_if_absent user_id (some account) = pure account
create_if_absent user_id none = do
  insert_account (record { user_id = user_id; balance = pos 0 })
  pure (record { user_id = user_id; balance = pos 0 })

unfoldable pub ensure_credit_account : ℕ → M CreditAccount
unfolding create_if_absent
ensure_credit_account user_id = do
  account ← gets (λ s. find (λ a. a.user_id == user_id) s.accounts)
  create_if_absent user_id account

unfoldable pub or_ensure : ℕ → Option CreditAccount → M CreditAccount
or_ensure user_id (some account) = pure account
or_ensure user_id none = ensure_credit_account user_id

unfoldable pub get_credit_account_for_update : ℕ → M CreditAccount
unfolding or_ensure
get_credit_account_for_update user_id = do
  account ← gets (λ s. find (λ a. a.user_id == user_id) s.accounts)
  or_ensure user_id account

-- The arguments of `record_credit_entry`, none of which any caller leaves out but
-- `transaction_id`, which every caller does.
pub record CreditEntry : Type 0 where
  pub user_id : ℕ
  pub delta : ℤ
  pub entry_type : CreditEntryType
  pub idempotency_key : CreditKey
  pub reference_type : Option String
  pub reference_id : Option ℕ
  pub note : Option String
  pub created_by : Option ℕ

unfoldable pub entry_of : CreditEntry → ℕ → ℕ → CreditLedgerEntry
entry_of e transaction_id entry_id = record {
  id = entry_id;
  transaction_id = transaction_id;
  user_id = e.user_id;
  delta = e.delta;
  entry_type = e.entry_type;
  reference_type = e.reference_type;
  reference_id = e.reference_id;
  note = e.note;
  idempotency_key = e.idempotency_key;
  created_by = e.created_by;
}

-- the part of `record_credit_entry` below the look-up of the account
unfoldable pub post_to : CreditEntry → CreditAccount → M CreditLedgerEntry
unfolding entry_of
post_to e account = do
  raise_if (ltb_ℤ (account.balance +ℤ e.delta) (pos 0)) "Insufficient credits" 409
  set_balance e.user_id (account.balance +ℤ e.delta)
  transaction_id ← uuid4
  entry_id ← uuid4
  insert_entry (entry_of e transaction_id entry_id)
  pure (entry_of e transaction_id entry_id)

-- the part of `record_credit_entry` below the look-up of the key
unfoldable pub post_entry : CreditEntry → M CreditLedgerEntry
post_entry e = do
  raise_if (is_zero e.delta) "Credit changes cannot be zero" 400
  account ← get_credit_account_for_update e.user_id
  post_to e account

unfoldable pub post_if_new : CreditEntry → Option CreditLedgerEntry → M CreditLedgerEntry
post_if_new e (some existing) = pure existing
post_if_new e none = post_entry e

unfoldable pub record_credit_entry : CreditEntry → M CreditLedgerEntry
unfolding post_if_new
record_credit_entry e = do
  existing ← gets (λ s. find (λ l. credit_key_eq l.idempotency_key e.idempotency_key) s.ledger)
  post_if_new e existing
