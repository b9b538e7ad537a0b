-- ===== src/Credits/Steps.antt =====
-- What the credit service does to the accounts and the ledger: it opens an account with no credits,
-- or it posts one entry and moves the balance by it. A property of the two tables that both steps
-- keep is kept by the service.
use test_exchange_backend.Base.{
  ℕ, ◌+◌, Bool, false, ◌||◌, Option, none, some, List, ◌∷◌, ◌≡◌, refl, inl, inr, arith, ◌==◌, find,
  any, ==_iff, Bool-cases,
}
use test_exchange_backend.Base.Int.{pos, ◌+ℤ◌, ltb_ℤ}
use test_exchange_backend.Model.Keys.{credit_key_eq}
use test_exchange_backend.Model.Entities.{CreditAccount, CreditLedgerEntry}
use test_exchange_backend.Session.{
  Session, insert, is_zero, insert_account, insert_entry, set_balance, ◌>>=◌, gets, pure, raise_if,
  uuid4,
}
use test_exchange_backend.Session.Keeps.{Keeps, Returns, Returns-bind, Returns-After, keeps_rules}
use test_exchange_backend.Credits.Balance.{account_of, with_balance}
use test_exchange_backend.Credits.Purposes.{key_of}
use test_exchange_backend.Credits.Defs.{
  create_if_absent, ensure_credit_account, or_ensure, get_credit_account_for_update, CreditEntry,
  entry_of, post_to, post_entry, post_if_new, record_credit_entry,
}

-- another entry with the id or the key of this one
abbrev pub duplicate : CreditLedgerEntry → List CreditLedgerEntry → Bool
duplicate row ledger =
    any (λ e. e.id == row.id || credit_key_eq e.idempotency_key row.idempotency_key) ledger

-- the key of an entry is the key of the row that it refers to
abbrev pub IsServiceEntry : CreditEntry → Type 0
IsServiceEntry e = key_of e.entry_type e.reference_id ≡ some e.idempotency_key

pub record IsCreditInvariant (Q : List CreditAccount → List CreditLedgerEntry → Type 0)
    : Type 0 where
  pub opens :
      (accounts : List CreditAccount) (ledger : List CreditLedgerEntry) (user_id : ℕ)
      → Q accounts ledger
      → account_of user_id accounts ≡ none
      → Q (record { user_id = user_id; balance = pos 0 } ∷ accounts) ledger
  pub posts :
      (accounts : List CreditAccount) (ledger : List CreditLedgerEntry) (a : CreditAccount)
      (e : CreditLedgerEntry)
      → Q accounts ledger
      → account_of e.user_id accounts ≡ some a
      → ltb_ℤ (a.balance +ℤ e.delta) (pos 0) ≡ false
      → duplicate e ledger ≡ false
      → is_zero e.delta ≡ false
      → key_of e.entry_type e.reference_id ≡ some e.idempotency_key
      → Q (with_balance e.user_id (a.balance +ℤ e.delta) accounts) (e ∷ ledger)

module _ {Q : List CreditAccount → List CreditLedgerEntry → Type 0}
    (inv : IsCreditInvariant Q) where
  abbrev Holds : Session → Type 0
  Holds s = Q s.accounts s.ledger

  -- the account that a call returns is the one in the table
  abbrev HoldsWith : ℕ → CreditAccount → Session → Type 0
  HoldsWith user_id a s = Holds s × (account_of user_id s.accounts ≡ some a)

  create_Returns :
      (user_id : ℕ) (found : Option CreditAccount) (s : Session)
      → Holds s
      → account_of user_id s.accounts ≡ found
      → Returns (HoldsWith user_id) (create_if_absent user_id found s)
  unfolding create_if_absent insert_account insert ◌>>=◌ pure find
  create_Returns user_id (some a) s h found = (h, found)
  create_Returns user_id none s h found =
      ground (arith, inv.opens s.accounts s.ledger user_id h found, ==_iff user_id user_id)

  ensure_Returns :
      (user_id : ℕ) (s : Session)
      → Holds s
      → Returns (HoldsWith user_id) (ensure_credit_account user_id s)
  unfolding ensure_credit_account ◌>>=◌ gets
  ensure_Returns user_id s h = create_Returns user_id (account_of user_id s.accounts) s h refl

  or_ensure-Returns :
      (user_id : ℕ) (found : Option CreditAccount) (s : Session)
      → Holds s
      → account_of user_id s.accounts ≡ found
      → Returns (HoldsWith user_id) (or_ensure user_id found s)
  unfolding or_ensure pure
  or_ensure-Returns user_id (some a) s h found = (h, found)
  or_ensure-Returns user_id none s h found = ensure_Returns user_id s h

  account_Returns :
      (user_id : ℕ) (s : Session)
      → Holds s
      → Returns (HoldsWith user_id) (get_credit_account_for_update user_id s)
  unfolding get_credit_account_for_update ◌>>=◌ gets
  account_Returns user_id s h = or_ensure-Returns user_id (account_of user_id s.accounts) s h refl

  -- the part of `post_entry` below the look-up of the account
  -- the rest, once the account is known
  post_rest :
      (e : CreditEntry) (a : CreditAccount) (s : Session)
      → is_zero e.delta ≡ false
      → IsServiceEntry e
      → HoldsWith e.user_id a s
      → Returns (λ _. Holds) (post_to e a s)
  unfolding post_to set_balance insert_entry insert ◌>>=◌ pure raise_if uuid4
  post_rest e a s nonzero purpose (h, found) =
      let entry = entry_of e (s.uuids s.drawn) (s.uuids (s.drawn + 1)) in
      ground (arith, inv.posts s.accounts s.ledger a entry h found)

  Keeps-post_to :
      (e : CreditEntry) (s : Session)
      → is_zero e.delta ≡ false
      → IsServiceEntry e
      → Holds s
      → Returns (λ _. Holds) ((get_credit_account_for_update e.user_id >>= post_to e) s)
  Keeps-post_to e s nonzero purpose h =
      Returns-bind (HoldsWith e.user_id) (λ _. Holds) (get_credit_account_for_update e.user_id)
        (post_to e) s (account_Returns e.user_id s h) (λ a s' k. post_rest e a s' nonzero purpose k)

  Keeps-post_if_new :
      (e : CreditEntry) (existing : Option CreditLedgerEntry)
      → IsServiceEntry e
      → Keeps Holds (post_if_new e existing)
  unfolding post_if_new post_entry raise_if pure ◌>>=◌
  Keeps-post_if_new e none purpose = record {
    at = λ s h. elim (Bool-cases (is_zero e.delta)) [
      | inl zero_delta ↦ rw zero_delta tt
      | inr nonzero ↦ rw nonzero (Keeps-post_to e s nonzero purpose h)
    ];
  }
  Keeps-post_if_new e (some entry) purpose = record { at = λ s h. h }

  pub IsCreditInvariant-record :
      (e : CreditEntry) → IsServiceEntry e → Keeps Holds (record_credit_entry e)
  unfolding record_credit_entry
  IsCreditInvariant-record e purpose = search (keeps_rules, Keeps-post_if_new)

  pub IsCreditInvariant-ensure : (user_id : ℕ) → Keeps Holds (ensure_credit_account user_id)
  IsCreditInvariant-ensure user_id = record {
    at = λ s h.
        Returns-After (HoldsWith user_id) (ensure_credit_account user_id s) (λ a s' k. k.0)
          (ensure_Returns user_id s h);
  }
