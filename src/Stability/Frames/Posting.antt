-- ===== src/Stability/Frames/Posting.antt =====
-- What the credit service keeps, from what the operations on the rows that it writes keep.
use test_exchange_backend.Base.{ℕ, Option, none, some}
use test_exchange_backend.Base.Int.{ℤ}
use test_exchange_backend.Model.Entities.{CreditAccount, CreditLedgerEntry}
use test_exchange_backend.Session.{Session, insert_account, insert_entry, set_balance, uuid4}
use test_exchange_backend.Credits.{
  CreditEntry, create_if_absent, ensure_credit_account, or_ensure, get_credit_account_for_update,
  post_to, post_entry, post_if_new, record_credit_entry,
}
use test_exchange_backend.Stability.Basics.{IsCreditStable}
use test_exchange_backend.Session.Keeps.{Keeps, keeps_rules}

module _ {P : Session → Type 0} (account : (row : CreditAccount) → Keeps P (insert_account row))
    (entry : (row : CreditLedgerEntry) → Keeps P (insert_entry row))
    (balance : (user_id : ℕ) (b : ℤ) → Keeps P (set_balance user_id b)) (id : Keeps P uuid4) where
  Keeps-create_if_absent :
      (user_id : ℕ) (found : Option CreditAccount) → Keeps P (create_if_absent user_id found)
  unfolding create_if_absent
  Keeps-create_if_absent user_id none = search keeps_rules
  Keeps-create_if_absent user_id (some a) = search keeps_rules

  Keeps-ensure : (user_id : ℕ) → Keeps P (ensure_credit_account user_id)
  unfolding ensure_credit_account
  Keeps-ensure user_id = search (keeps_rules, Keeps-create_if_absent)

  Keeps-or_ensure : (user_id : ℕ) (found : Option CreditAccount) → Keeps P (or_ensure user_id found)
  unfolding or_ensure
  Keeps-or_ensure user_id none = Keeps-ensure user_id
  Keeps-or_ensure user_id (some a) = search keeps_rules

  Keeps-post_if_new :
      (e : CreditEntry) (existing : Option CreditLedgerEntry) → Keeps P (post_if_new e existing)
  unfolding post_if_new post_entry post_to get_credit_account_for_update
  Keeps-post_if_new e none = search (keeps_rules, Keeps-or_ensure) depth 20
  Keeps-post_if_new e (some l) = search keeps_rules

  Keeps-record : (e : CreditEntry) → Keeps P (record_credit_entry e)
  unfolding record_credit_entry
  Keeps-record e = search (keeps_rules, Keeps-post_if_new)

  pub posting_IsCreditStable : IsCreditStable P
  posting_IsCreditStable = record { at_record = λ e _. Keeps-record e; at_ensure = Keeps-ensure }
