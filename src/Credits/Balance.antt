-- ===== src/Credits/Balance.antt =====
-- The balance of an account and the sum of its ledger entries, and that the credit service changes
-- both alike.
use test_exchange_backend.Base.{
  ℕ, Option, none, some, List, [], ◌∷◌, ◌≡◌, refl, arith, ◌==◌, if◌then◌else◌, find, update_if,
  Bool-cases, inl, inr, false, ==_iff,
}
use test_exchange_backend.Base.Int.{ℤ, pos, ◌+ℤ◌, int_laws}
use test_exchange_backend.Model.Entities.{CreditAccount, CreditLedgerEntry}

-- `account.balance` of a user, 0 without an account
unfoldable pub balance_of : ℕ → List CreditAccount → ℤ
balance_of user_id [] = pos 0
balance_of user_id (a ∷ rest) = if a.user_id == user_id then a.balance else balance_of user_id rest

-- the sum of a user's entries
unfoldable pub ledger_sum : ℕ → List CreditLedgerEntry → ℤ
ledger_sum user_id [] = pos 0
ledger_sum user_id (e ∷ rest) =
    (if e.user_id == user_id then e.delta else pos 0) +ℤ ledger_sum user_id rest

-- Every balance is the sum of its owner's ledger entries.
abbrev pub IsBalanced : List CreditAccount → List CreditLedgerEntry → Type 0
IsBalanced accounts ledger = (user_id : ℕ) → balance_of user_id accounts ≡ ledger_sum user_id ledger

abbrev pub account_of : ℕ → List CreditAccount → Option CreditAccount
account_of user_id accounts = find (λ a. a.user_id == user_id) accounts

abbrev pub with_balance : ℕ → ℤ → List CreditAccount → List CreditAccount
with_balance user_id balance accounts =
    update_if (λ a. a.user_id == user_id) (λ a. record a { balance = balance }) accounts

pub balance_of-found :
    (user_id : ℕ) (accounts : List CreditAccount) (a : CreditAccount)
    → account_of user_id accounts ≡ some a
    → balance_of user_id accounts ≡ a.balance
unfolding find balance_of
balance_of-found user_id [] a h = cc
balance_of-found user_id (x ∷ rest) a h = ground (arith, balance_of-found user_id rest a)

pub balance_of-absent :
    (user_id : ℕ) (accounts : List CreditAccount)
    → account_of user_id accounts ≡ none
    → balance_of user_id accounts ≡ pos 0
unfolding find balance_of
balance_of-absent user_id [] h = refl
balance_of-absent user_id (x ∷ rest) h = ground (arith, balance_of-absent user_id rest)

-- A write of one balance shows in that account,
pub balance_of-with_balance :
    (user_id : ℕ) (balance : ℤ) (accounts : List CreditAccount) (a : CreditAccount)
    → account_of user_id accounts ≡ some a
    → balance_of user_id (with_balance user_id balance accounts) ≡ balance
unfolding find update_if balance_of
balance_of-with_balance user_id balance [] a h = cc
balance_of-with_balance user_id balance (x ∷ rest) a h =
    ground (arith, balance_of-with_balance user_id balance rest a)

-- and in no other.
pub balance_of-with_balance_ne :
    (user_id j : ℕ) (balance : ℤ) (accounts : List CreditAccount)
    → (user_id == j) ≡ false
    → balance_of j (with_balance user_id balance accounts) ≡ balance_of j accounts
unfolding update_if balance_of
balance_of-with_balance_ne user_id j balance [] h = refl
balance_of-with_balance_ne user_id j balance (x ∷ rest) h =
    ground (arith, balance_of-with_balance_ne user_id j balance rest)

pub post-IsBalanced :
    (accounts : List CreditAccount) (ledger : List CreditLedgerEntry) (a : CreditAccount)
    (e : CreditLedgerEntry)
    → IsBalanced accounts ledger
    → account_of e.user_id accounts ≡ some a
    → IsBalanced (with_balance e.user_id (a.balance +ℤ e.delta) accounts) (e ∷ ledger)
unfolding ledger_sum
post-IsBalanced accounts ledger a e h found j = elim (Bool-cases (e.user_id == j)) [
  | inl same ↦ grind (
    int_laws,
    (==_iff e.user_id j).0 same,
    balance_of-with_balance e.user_id (a.balance +ℤ e.delta) accounts a found,
    balance_of-found e.user_id accounts a found,
    h j,
  )
  | inr other ↦ grind (
    int_laws,
    other,
    balance_of-with_balance_ne e.user_id j (a.balance +ℤ e.delta) accounts other,
    h j,
  )
]

pub open-IsBalanced :
    (accounts : List CreditAccount) (ledger : List CreditLedgerEntry) (user_id : ℕ)
    → IsBalanced accounts ledger
    → account_of user_id accounts ≡ none
    → IsBalanced (record { user_id = user_id; balance = pos 0 } ∷ accounts) ledger
unfolding balance_of
open-IsBalanced accounts ledger user_id h absent j =
    ground (arith, h j, ==_iff user_id j, balance_of-absent user_id accounts absent)
