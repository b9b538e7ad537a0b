-- ===== src/Credits/Charging.antt =====
-- What one call of `record_credit_entry` charges.
use mathlib.Core.Path.{subst}
use test_exchange_backend.Base.{
  ℕ, ◌+◌, true, false, Option, none, some, List, [], ◌∷◌, ◌≡◌, refl, sym, ap, ◌∙◌, arith, ◌==◌, ◌⊎◌,
  inl, inr, Bool-cases, if◌then◌else◌, ==_iff, find, any,
}
use test_exchange_backend.Base.Int.{ℤ, pos, ◌+ℤ◌, ltb_ℤ}
use test_exchange_backend.Model.Keys.{CreditKey, credit_key_eq}
use test_exchange_backend.Model.Entities.{CreditAccount, CreditLedgerEntry}
use test_exchange_backend.Session.{
  Session, Result, ok, err, domain_error, insert, is_zero, insert_account, insert_entry,
  set_balance, gets, pure, raise_if, uuid4, ◌>>=◌,
}
use test_exchange_backend.Credits.Balance.{
  account_of, with_balance, balance_of, balance_of-found, balance_of-absent,
  balance_of-with_balance, balance_of-with_balance_ne,
}
use test_exchange_backend.Credits.Steps.{duplicate}
use test_exchange_backend.Credits.Defs.{
  create_if_absent, ensure_credit_account, or_ensure, get_credit_account_for_update, CreditEntry,
  entry_of, post_to, post_entry, post_if_new, record_credit_entry,
}

-- the entry that carries a key
abbrev pub entry_with : CreditKey → List CreditLedgerEntry → Option CreditLedgerEntry
entry_with key ledger = find (λ l. credit_key_eq l.idempotency_key key) ledger

-- the entry of a call, at the draws of the session
abbrev pub entry_at : CreditEntry → Session → CreditLedgerEntry
entry_at e s = entry_of e (s.uuids s.drawn) (s.uuids (s.drawn + 1))

-- What a call charges: the ledger and the accounts afterwards.
pub record IsCharged (e : CreditEntry) (s : Session) (l : CreditLedgerEntry) (s' : Session)
    : Type 0 where
  pub posted : s'.ledger ≡ l ∷ s.ledger
  pub keyed : l.idempotency_key ≡ e.idempotency_key
  pub moved :
      (j : ℕ)
      → balance_of j s'.accounts
        ≡ (if e.user_id == j then balance_of j s.accounts +ℤ e.delta else balance_of j s.accounts)

-- The result of a call that posts a new entry: refused where the balance would be negative, charged
-- otherwise.
abbrev pub IsDecided : CreditEntry → Session → Result (CreditLedgerEntry × Session) → Type 0
IsDecided e s r =
    ((ltb_ℤ (balance_of e.user_id s.accounts +ℤ e.delta) (pos 0) ≡ true)
      × (r ≡ err (domain_error "Insufficient credits" 409)))
    ⊎ ((ltb_ℤ (balance_of e.user_id s.accounts +ℤ e.delta) (pos 0) ≡ false)
        × ((l : CreditLedgerEntry) × ((s' : Session) × ((r ≡ ok (l, s')) × IsCharged e s l s'))))

is_new :
    (e : CreditEntry) (s : Session) (ledger : List CreditLedgerEntry)
    → entry_with e.idempotency_key ledger ≡ none
    → any (λ l. l.id == s.uuids (s.drawn + 1)) ledger ≡ false
    → duplicate (entry_at e s) ledger ≡ false
unfolding find any entry_of
is_new e s [] absent fresh = refl
is_new e s (l ∷ rest) absent fresh = ground (arith, is_new e s rest)

charged : CreditEntry → CreditAccount → Session → Session
charged e a s = record s {
  accounts = with_balance e.user_id (a.balance +ℤ e.delta) s.accounts;
  drawn = s.drawn + 1 + 1;
  ledger = entry_at e s ∷ s.ledger;
}

post_to-charged :
    (e : CreditEntry) (a : CreditAccount) (s : Session)
    → ltb_ℤ (a.balance +ℤ e.delta) (pos 0) ≡ false
    → is_zero e.delta ≡ false
    → duplicate (entry_at e s) s.ledger ≡ false
    → post_to e a s ≡ ok (entry_at e s, charged e a s)
unfolding post_to set_balance insert_entry insert raise_if uuid4 pure charged ◌>>=◌
post_to-charged e a s enough nonzero fresh = rw (enough, fresh, nonzero) refl

post_to-refused :
    (e : CreditEntry) (a : CreditAccount) (s : Session)
    → ltb_ℤ (a.balance +ℤ e.delta) (pos 0) ≡ true
    → post_to e a s ≡ err (domain_error "Insufficient credits" 409)
unfolding post_to raise_if ◌>>=◌
post_to-refused e a s short = rw short refl

charged-IsCharged :
    (e : CreditEntry) (a : CreditAccount) (s : Session)
    → account_of e.user_id s.accounts ≡ some a
    → IsCharged e s (entry_at e s) (charged e a s)
unfolding charged entry_of
charged-IsCharged e a s found = record {
  posted = refl;
  keyed = refl;
  moved = λ j. elim (Bool-cases (e.user_id == j)) [
    | inl same ↦
        let j_is : e.user_id ≡ j = (==_iff e.user_id j).0 same in
        rw same (
          ap (λ (k : ℕ). balance_of k (with_balance e.user_id (a.balance +ℤ e.delta) s.accounts))
            (sym j_is)
          ∙ balance_of-with_balance e.user_id (a.balance +ℤ e.delta) s.accounts a found
          ∙ ap (λ (n : ℤ). n +ℤ e.delta)
              (sym (balance_of-found e.user_id s.accounts a found)
                ∙ ap (λ (k : ℕ). balance_of k s.accounts) j_is))
    | inr other ↦
        rw other (balance_of-with_balance_ne e.user_id j (a.balance +ℤ e.delta) s.accounts other)
  ];
}

post_to-IsDecided :
    (e : CreditEntry) (a : CreditAccount) (s : Session)
    → account_of e.user_id s.accounts ≡ some a
    → is_zero e.delta ≡ false
    → duplicate (entry_at e s) s.ledger ≡ false
    → IsDecided e s (post_to e a s)
post_to-IsDecided e a s found nonzero fresh =
    let sums : balance_of e.user_id s.accounts +ℤ e.delta ≡ a.balance +ℤ e.delta =
      ap (λ (n : ℤ). n +ℤ e.delta) (balance_of-found e.user_id s.accounts a found) in
    elim (Bool-cases (ltb_ℤ (a.balance +ℤ e.delta) (pos 0))) [
      | inl short ↦ inl (ap (λ (n : ℤ). ltb_ℤ n (pos 0)) sums ∙ short, post_to-refused e a s short)
      | inr enough ↦ inr (
        ap (λ (n : ℤ). ltb_ℤ n (pos 0)) sums ∙ enough,
        (
          entry_at e s,
          (
            charged e a s,
            (post_to-charged e a s enough nonzero fresh, charged-IsCharged e a s found),
          ),
        ),
      )
    ]

-- with the account that a first posting opens
opened : ℕ → Session → Session
opened user_id s = record s {
  accounts = record { user_id = user_id; balance = pos 0 } ∷ s.accounts;
}

balance_of-opened :
    (user_id j : ℕ) (s : Session)
    → account_of user_id s.accounts ≡ none
    → balance_of j (opened user_id s).accounts ≡ balance_of j s.accounts
unfolding balance_of opened
balance_of-opened user_id j s absent =
    ground (arith, ==_iff user_id j, balance_of-absent user_id s.accounts absent)

from_opened :
    (e : CreditEntry) (s s' : Session) (l : CreditLedgerEntry)
    → account_of e.user_id s.accounts ≡ none
    → IsCharged e (opened e.user_id s) l s'
    → IsCharged e s l s'
unfolding opened
from_opened e s s' l absent c = record {
  posted = c.posted;
  keyed = c.keyed;
  moved = λ j.
      c.moved j
      ∙ ap (λ (n : ℤ). if e.user_id == j then n +ℤ e.delta else n)
          (balance_of-opened e.user_id j s absent);
}

opened-IsDecided :
    (e : CreditEntry) (s : Session) (r : Result (CreditLedgerEntry × Session))
    → account_of e.user_id s.accounts ≡ none
    → IsDecided e (opened e.user_id s) r
    → IsDecided e s r
opened-IsDecided e s r absent decided =
    let sums =
      ap (λ (n : ℤ). ltb_ℤ (n +ℤ e.delta) (pos 0))
        (sym (balance_of-opened e.user_id e.user_id s absent)) in
    elim decided [
      | inl (short, refused) ↦ inl (sums ∙ short, refused)
      | inr (enough, (l, (s', (returned, c)))) ↦
          inr (sums ∙ enough, (l, (s', (returned, from_opened e s s' l absent c))))
    ]

no_account :
    (user_id : ℕ) (accounts : List CreditAccount)
    → account_of user_id accounts ≡ none
    → any (λ a. a.user_id == user_id) accounts ≡ false
unfolding find any
no_account user_id [] absent = refl
no_account user_id (a ∷ rest) absent = ground (arith, no_account user_id rest)

opened-found :
    (user_id : ℕ) (s : Session)
    → account_of user_id (opened user_id s).accounts
      ≡ some (record { user_id = user_id; balance = pos 0 })
unfolding opened find
opened-found user_id s = rw ((==_iff user_id user_id).1 refl) refl

account-opens :
    (user_id : ℕ) (s : Session)
    → account_of user_id s.accounts ≡ none
    → get_credit_account_for_update user_id s
      ≡ ok (record { user_id = user_id; balance = pos 0 }, opened user_id s)
unfolding get_credit_account_for_update or_ensure ensure_credit_account create_if_absent
    insert_account insert gets pure opened ◌>>=◌
account-opens user_id s absent = rw (absent, absent, no_account user_id s.accounts absent) refl

account-stands :
    (user_id : ℕ) (s : Session) (a : CreditAccount)
    → account_of user_id s.accounts ≡ some a
    → get_credit_account_for_update user_id s ≡ ok (a, s)
unfolding get_credit_account_for_update or_ensure gets pure ◌>>=◌
account-stands user_id s a found = rw found refl

post_entry-at :
    (e : CreditEntry) (a : CreditAccount) (s s' : Session)
    → is_zero e.delta ≡ false
    → get_credit_account_for_update e.user_id s ≡ ok (a, s')
    → post_to e a s' ≡ post_entry e s
unfolding post_entry raise_if ◌>>=◌
post_entry-at e a s s' nonzero stands = rw (nonzero, stands) refl

post_entry-IsDecided :
    (e : CreditEntry) (s : Session) (found : Option CreditAccount)
    → account_of e.user_id s.accounts ≡ found
    → is_zero e.delta ≡ false
    → duplicate (entry_at e s) s.ledger ≡ false
    → IsDecided e s (post_entry e s)
unfolding opened
post_entry-IsDecided e s (some a) found nonzero fresh =
    subst (λ (r : Result (CreditLedgerEntry × Session)). IsDecided e s r)
      (post_entry-at e a s s nonzero (account-stands e.user_id s a found))
      (post_to-IsDecided e a s found nonzero fresh)
post_entry-IsDecided e s none found nonzero fresh =
    subst (λ (r : Result (CreditLedgerEntry × Session)). IsDecided e s r)
      (post_entry-at e _ s (opened e.user_id s) nonzero (account-opens e.user_id s found))
      (opened-IsDecided e s _ found
        (post_to-IsDecided e _ (opened e.user_id s) (opened-found e.user_id s) nonzero fresh))

pub record_credit_entry-new :
    (e : CreditEntry) (s : Session)
    → entry_with e.idempotency_key s.ledger ≡ none
    → post_entry e s ≡ record_credit_entry e s
unfolding record_credit_entry post_if_new gets ◌>>=◌
record_credit_entry-new e s absent = rw absent refl

-- A change that is not 0, under a key that the ledger has not and with a fresh id, has one of two
-- results. Where the user's balance, 0 without an account, would become negative, the call raises the
-- error 409 of the service, before any constraint of the database does. Otherwise it returns: the
-- ledger has the one new entry, with the key, before the old ones; the user's balance is the old one
-- plus the change; and every other user's balance is as it was.
pub record_credit_entry-IsDecided :
    (e : CreditEntry) (s : Session)
    → is_zero e.delta ≡ false
    → entry_with e.idempotency_key s.ledger ≡ none
    → any (λ l. l.id == s.uuids (s.drawn + 1)) s.ledger ≡ false
    → IsDecided e s (record_credit_entry e s)
record_credit_entry-IsDecided e s nonzero absent fresh =
    subst (λ (r : Result (CreditLedgerEntry × Session)). IsDecided e s r)
      (record_credit_entry-new e s absent)
      (post_entry-IsDecided e s _ refl nonzero (is_new e s s.ledger absent fresh))
