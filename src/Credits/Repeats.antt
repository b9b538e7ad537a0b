-- ===== src/Credits/Repeats.antt =====
-- Another call of `record_credit_entry` with the key of one that has returned.
use mathlib.Core.Path.{subst}
use test_exchange_backend.Base.{
  Option, none, some, List, ◌∷◌, ◌≡◌, refl, sym, inl, inr, arith, Bool-cases, find,
}
use test_exchange_backend.Model.Keys.{CreditKey, credit_key_eq_iff}
use test_exchange_backend.Model.Entities.{CreditAccount, CreditLedgerEntry}
use test_exchange_backend.Session.{
  Session, Result, ok, err, continue, insert, is_zero, insert_entry, set_balance, gets, pure,
  raise_if, uuid4, ◌>>=◌,
}
use test_exchange_backend.Credits.Charging.{entry_with, entry_at, record_credit_entry-new}
use test_exchange_backend.Credits.Defs.{
  get_credit_account_for_update, CreditEntry, entry_of, post_to, post_entry, post_if_new,
  record_credit_entry,
}

record_credit_entry-found :
    (e : CreditEntry) (s : Session) (l : CreditLedgerEntry)
    → entry_with e.idempotency_key s.ledger ≡ some l
    → record_credit_entry e s ≡ ok (l, s)
unfolding record_credit_entry post_if_new gets pure ◌>>=◌
record_credit_entry-found e s l found = rw found refl

-- where a call returns an entry, the ledger holds it for the key
abbrev IsPosted : CreditKey → Result (CreditLedgerEntry × Session) → Type 0
IsPosted key (ok (l, s)) = entry_with key s.ledger ≡ some l
IsPosted key (err e) = Unit

entry_with-first :
    (e : CreditEntry) (s : Session) (ledger : List CreditLedgerEntry)
    → entry_with e.idempotency_key (entry_at e s ∷ ledger) ≡ some (entry_at e s)
unfolding find entry_of
entry_with-first e s ledger =
    rw ((credit_key_eq_iff e.idempotency_key e.idempotency_key).1 refl) refl

post_to-IsPosted :
    (e : CreditEntry) (a : CreditAccount) (s : Session) → IsPosted e.idempotency_key (post_to e a s)
unfolding post_to set_balance insert_entry insert ◌>>=◌ pure raise_if uuid4
post_to-IsPosted e a s = ground (arith, entry_with-first e s s.ledger)

after_account :
    (e : CreditEntry) (call : Result (CreditAccount × Session))
    → IsPosted e.idempotency_key (continue (post_to e) call)
after_account e (ok (a, s)) = post_to-IsPosted e a s
after_account e (err error) = tt

post_entry-IsPosted : (e : CreditEntry) (s : Session) → IsPosted e.idempotency_key (post_entry e s)
unfolding post_entry raise_if ◌>>=◌
post_entry-IsPosted e s = elim (Bool-cases (is_zero e.delta)) [
  | inl zero_delta ↦ rw zero_delta tt
  | inr nonzero ↦ rw nonzero (after_account e (get_credit_account_for_update e.user_id s))
]

record_credit_entry-IsPosted :
    (e : CreditEntry) (s : Session) (found : Option CreditLedgerEntry)
    → entry_with e.idempotency_key s.ledger ≡ found
    → IsPosted e.idempotency_key (record_credit_entry e s)
record_credit_entry-IsPosted e s none found =
    subst (λ (r : Result (CreditLedgerEntry × Session)). IsPosted e.idempotency_key r)
      (record_credit_entry-new e s found) (post_entry-IsPosted e s)
record_credit_entry-IsPosted e s (some l) found =
    subst (λ (r : Result (CreditLedgerEntry × Session)). IsPosted e.idempotency_key r)
      (sym (record_credit_entry-found e s l found)) found

-- Posting is idempotent: where a call returns an entry, the ledger holds it under the key of the call,
-- and any call with that key, whatever else it asks for, returns the same entry and changes nothing,
-- so that a retry charges and pays nothing again.
pub record_credit_entry-again :
    (e again : CreditEntry) (s s' : Session) (l : CreditLedgerEntry)
    → record_credit_entry e s ≡ ok (l, s')
    → again.idempotency_key ≡ e.idempotency_key
    → (entry_with e.idempotency_key s'.ledger ≡ some l)
      × (record_credit_entry again s' ≡ ok (l, s'))
record_credit_entry-again e again s s' l returned keyed =
    let found : entry_with e.idempotency_key s'.ledger ≡ some l =
      subst (λ (r : Result (CreditLedgerEntry × Session)). IsPosted e.idempotency_key r) returned
        (record_credit_entry-IsPosted e s _ refl) in
    (found, record_credit_entry-found again s' l (rw keyed found))
