-- ===== src/Examples/Ledger.antt =====
-- The theorems on the credit tables, on a new database.
use test_exchange_backend.Base.{
  ◌+◌, false, none, some, List, [], ◌++◌, ◌≡◌, refl, ◌≤◌, arith, ◌==◌, find, any, count_if,
  update_if,
}
use test_exchange_backend.Base.Int.{pos, neg, ◌+ℤ◌}
use test_exchange_backend.Model.Enums.{CreditEntryType}
use test_exchange_backend.Model.Keys.{assignment_reward, credit_key_eq}
use test_exchange_backend.Model.Entities.{CreditLedgerEntry}
use test_exchange_backend.Session.{
  Session, Result, ok, err, insert, is_zero, insert_account, insert_entry, set_balance, uuid4, gets,
  raise_if, pure, ◌>>=◌,
}
use test_exchange_backend.Credits.{
  CreditEntry, entry_of, post_to, post_entry, post_if_new, record_credit_entry,
  get_credit_account_for_update, or_ensure, ensure_credit_account, create_if_absent,
}
use test_exchange_backend.Credits.Charging.{entry_with, IsDecided, record_credit_entry-IsDecided}
use test_exchange_backend.Credits.Repeats.{record_credit_entry-again}
use test_exchange_backend.Credits.Ledger.{IsOrderly, with_key}
use test_exchange_backend.Credits.Purposes.{posted_for}
use test_exchange_backend.Credits.Balance.{balance_of, ledger_sum}
use test_exchange_backend.Api.Requests.{serve}
use test_exchange_backend.Api.Ledger.{serve-IsBalanced, serve-append_only, serve-posts_once}
use test_exchange_backend.Examples.Databases.{settings, new_database, first_calls}

serve-IsBalanced_example :
    balance_of 1 (serve settings new_database first_calls).accounts
    ≡ ledger_sum 1 (serve settings new_database first_calls).ledger
unfolding balance_of ledger_sum
serve-IsBalanced_example = serve-IsBalanced settings new_database first_calls (λ user_id. refl) 1

serve-append_only_example :
    (new : List CreditLedgerEntry) × ((serve settings new_database first_calls).ledger ≡ new ++ [])
serve-append_only_example = serve-append_only settings new_database first_calls

abbrev reward : CreditEntry
reward = record {
  user_id = 2;
  delta = pos 25;
  entry_type = CreditEntryType.reward;
  idempotency_key = assignment_reward 20;
  reference_type = some "assignment";
  reference_id = some 20;
  note = none;
  created_by = none;
}

abbrev rewarded : Result (CreditLedgerEntry × Session)
rewarded = record_credit_entry reward new_database

-- the first entry of the ledger that a call leaves, or the one given
abbrev entry_or : CreditLedgerEntry → Result (CreditLedgerEntry × Session) → CreditLedgerEntry
entry_or l (ok (found, s)) = found
entry_or l (err e) = l

abbrev left_by : Result (CreditLedgerEntry × Session) → Session
left_by (ok (l, s)) = s
left_by (err e) = new_database

abbrev posted : CreditLedgerEntry
posted = entry_or (entry_of reward 0 0) rewarded

reward_returns : rewarded ≡ ok (posted, left_by rewarded)
unfolding record_credit_entry post_if_new post_entry post_to entry_of get_credit_account_for_update
    or_ensure ensure_credit_account create_if_absent insert_account insert_entry set_balance insert
    is_zero uuid4 gets raise_if pure find any update_if credit_key_eq ◌+ℤ◌ ◌>>=◌
reward_returns = refl

record_credit_entry-again_example :
    (entry_with (assignment_reward 20) (left_by rewarded).ledger ≡ some posted)
    × (record_credit_entry (record reward { delta = pos 40 }) (left_by rewarded)
        ≡ ok (posted, left_by rewarded))
record_credit_entry-again_example =
    record_credit_entry-again reward (record reward { delta = pos 40 }) new_database
      (left_by rewarded) posted reward_returns refl

charge_is_new : is_zero (neg 30) ≡ false
unfolding is_zero
charge_is_new = refl

no_entry_yet : entry_with (assignment_reward 20) new_database.ledger ≡ none
unfolding find
no_entry_yet = refl

fresh_id :
    any (λ l. l.id == new_database.uuids (new_database.drawn + 1)) new_database.ledger ≡ false
unfolding any
fresh_id = refl

record_credit_entry-IsDecided_example :
    IsDecided
      (record reward { delta = neg 30 })
      new_database
      (record_credit_entry (record reward { delta = neg 30 }) new_database)
unfolding credit_key_eq find
record_credit_entry-IsDecided_example =
    record_credit_entry-IsDecided (record reward { delta = neg 30 }) new_database charge_is_new
      no_entry_yet fresh_id

nothing_twice : IsOrderly []
unfolding with_key count_if
nothing_twice = (tt, λ key. omega arith)

serve-posts_once_example :
    posted_for CreditEntryType.signup_grant 1 (serve settings new_database first_calls).ledger ≤ 1
serve-posts_once_example =
    serve-posts_once settings new_database first_calls nothing_twice CreditEntryType.signup_grant 1
