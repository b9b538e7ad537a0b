-- ===== src/Credits/Ledger.antt =====
-- Properties of the two credit tables that both steps of the credit service keep.
use test_exchange_backend.Base.{
  ℕ, ◌≤◌, true, false, ◌&&◌, Option, none, some, List, [], ◌∷◌, ◌++◌, ◌≡◌, refl, sym, arith, ap,
  ◌∙◌, count_if, any, ==_iff, inl, inr, Bool-cases,
}
use test_exchange_backend.Model.Enums.{CreditEntryType}
use test_exchange_backend.Model.Keys.{CreditKey, credit_key_eq, credit_key_eq_iff}
use test_exchange_backend.Model.Entities.{CreditLedgerEntry}
use test_exchange_backend.Credits.Balance.{IsBalanced, post-IsBalanced, open-IsBalanced}
use test_exchange_backend.Credits.Steps.{IsCreditInvariant, duplicate}
use test_exchange_backend.Credits.Purposes.{key_of, IsPurposeful, type_is, refers_to, posted_for}

pub IsBalanced-invariant : IsCreditInvariant IsBalanced
IsBalanced-invariant = record {
  opens = open-IsBalanced;
  posts = λ accounts ledger a e h found _ _ _ _. post-IsBalanced accounts ledger a e h found;
}

-- The ledger is an old one with new entries before it.
abbrev pub Extends : List CreditLedgerEntry → List CreditLedgerEntry → Type 0
Extends old ledger = (new : List CreditLedgerEntry) × (ledger ≡ new ++ old)

pub Extends-invariant :
    (old : List CreditLedgerEntry) → IsCreditInvariant (λ _ ledger. Extends old ledger)
Extends-invariant old = record {
  opens = λ accounts ledger user_id h _. h;
  posts = λ accounts ledger a e h _ _ _ _ _. (e ∷ h.0, ap (λ l. e ∷ l) h.1);
}

-- how many entries carry an idempotency key
unfoldable pub with_key : CreditKey → List CreditLedgerEntry → ℕ
with_key key = count_if (λ e. credit_key_eq e.idempotency_key key)

abbrev pub HasEachKeyOnce : List CreditLedgerEntry → Type 0
HasEachKeyOnce ledger = (key : CreditKey) → with_key key ledger ≤ 1

with_key-new :
    (row : CreditLedgerEntry) (ledger : List CreditLedgerEntry)
    → duplicate row ledger ≡ false
    → with_key row.idempotency_key ledger ≡ 0
unfolding with_key count_if any
with_key-new row [] h = refl
with_key-new row (e ∷ rest) h = ground (arith, with_key-new row rest)

with_key-cons :
    (row : CreditLedgerEntry) (ledger : List CreditLedgerEntry) (key : CreditKey)
    → duplicate row ledger ≡ false
    → with_key key ledger ≤ 1
    → with_key key (row ∷ ledger) ≤ 1
unfolding with_key count_if
with_key-cons row ledger key fresh h = elim (Bool-cases (credit_key_eq row.idempotency_key key)) [
  | inl same ↦ grind (
    arith,
    with_key-new row ledger fresh,
    (credit_key_eq_iff row.idempotency_key key).0 same,
    same,
  )
  | inr other ↦ grind (arith, other, h)
]

-- each entry is for its row, and no key is there twice
abbrev pub IsOrderly : List CreditLedgerEntry → Type 0
IsOrderly ledger = IsPurposeful ledger × HasEachKeyOnce ledger

pub IsOrderly-invariant : IsCreditInvariant (λ _ ledger. IsOrderly ledger)
IsOrderly-invariant = record {
  opens = λ accounts ledger user_id h _. h;
  posts = λ accounts ledger a e h _ _ fresh _ purpose.
      ((purpose, h.0), λ key. with_key-cons e ledger key fresh (h.1 key));
}

same_type : (u t : CreditEntryType) → type_is u t ≡ true → u ≡ t
unfolding type_is
same_type CreditEntryType.posting CreditEntryType.posting h = refl
same_type CreditEntryType.reward CreditEntryType.reward h = refl
same_type CreditEntryType.signup_grant CreditEntryType.signup_grant h = refl
same_type CreditEntryType.purchase CreditEntryType.purchase h = refl
same_type CreditEntryType.reservation CreditEntryType.reservation h = refl
same_type CreditEntryType.release CreditEntryType.release h = refl
same_type CreditEntryType.refund CreditEntryType.refund h = refl
same_type CreditEntryType.adjustment CreditEntryType.adjustment h = refl
same_type _ _ h = cc

same_row : (id : ℕ) (ref : Option ℕ) → refers_to id ref ≡ true → ref ≡ some id
unfolding refers_to
same_row id none h = cc
same_row id (some j) h = ap some ((==_iff j id).0 h)

-- an entry of the type for the row has the key of the row
key_of-row :
    (t : CreditEntryType) (id : ℕ) (l : CreditLedgerEntry)
    → key_of l.entry_type l.reference_id ≡ some l.idempotency_key
    → (type_is l.entry_type t && refers_to id l.reference_id) ≡ true
    → key_of t (some id) ≡ some l.idempotency_key
key_of-row t id l has h =
    let type_same : type_is l.entry_type t ≡ true = ground arith in
    let row_same : refers_to id l.reference_id ≡ true = ground arith in
    sym (ap (key_of t) (same_row id l.reference_id row_same))
    ∙ sym
        (ap (λ (u : CreditEntryType). key_of u l.reference_id) (same_type l.entry_type t type_same))
    ∙ has

posted_for-with_key :
    (t : CreditEntryType) (id : ℕ) (key : CreditKey) (ledger : List CreditLedgerEntry)
    → key_of t (some id) ≡ some key
    → IsPurposeful ledger
    → posted_for t id ledger ≤ with_key key ledger
unfolding posted_for with_key count_if
posted_for-with_key t id key [] keyed h = omega arith
posted_for-with_key t id key (l ∷ rest) keyed (has, h) =
    let later = posted_for-with_key t id key rest keyed h in
    elim (Bool-cases (type_is l.entry_type t && refers_to id l.reference_id)) [
      | inl chosen ↦
          let row_key = key_of-row t id l has chosen in
          let same : l.idempotency_key ≡ key = cc in
          let counted = (credit_key_eq_iff l.idempotency_key key).1 same in
          rw (chosen, counted) (omega arith)
      | inr left ↦ rw left (ground arith)
    ]

posted_for-none :
    (t : CreditEntryType) (id : ℕ) (ledger : List CreditLedgerEntry)
    → key_of t (some id) ≡ none
    → IsPurposeful ledger
    → posted_for t id ledger ≡ 0
unfolding posted_for count_if
posted_for-none t id [] keyless h = refl
posted_for-none t id (l ∷ rest) keyless (has, h) =
    elim (Bool-cases (type_is l.entry_type t && refers_to id l.reference_id)) [
      | inl chosen ↦ let row_key = key_of-row t id l has chosen in cc
      | inr left ↦ let later = posted_for-none t id rest keyless h in rw left (omega arith)
    ]

posted_at_most_once :
    (t : CreditEntryType) (id : ℕ) (ledger : List CreditLedgerEntry) (key : Option CreditKey)
    → key_of t (some id) ≡ key
    → IsOrderly ledger
    → posted_for t id ledger ≤ 1
posted_at_most_once t id ledger none keyless (purposes, once) =
    let nothing = posted_for-none t id ledger keyless purposes in omega arith
posted_at_most_once t id ledger (some key) keyed (purposes, once) =
    let bound = posted_for-with_key t id key ledger keyed purposes in
    let single = once key in omega arith

pub IsOrderly-once :
    (t : CreditEntryType) (id : ℕ) (ledger : List CreditLedgerEntry)
    → IsOrderly ledger
    → posted_for t id ledger ≤ 1
IsOrderly-once t id ledger h = posted_at_most_once t id ledger _ refl h
