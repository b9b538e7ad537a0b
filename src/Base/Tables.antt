-- ===== src/Base/Tables.antt =====
-- Tables as lists of rows, with the queries that the services make of them.
use Prim.Native.Nat.{ℕ, suc, ◌+◌}
use mathlib.Core.Bool.{Bool, true, false}
use mathlib.Core.Option.{Option, none, some}
use mathlib.Core.List.{List, [], ◌∷◌}
use test_exchange_backend.Base.Tests.{if◌then◌else◌}

module _ {ℓ} {A : Type ℓ} where
  -- `select(...).where(...)`, one row or none
  unfoldable pub find : (A → Bool) → List A → Option A
  find p [] = none
  find p (x ∷ xs) = if p x then some x else find p xs

  unfoldable pub any : (A → Bool) → List A → Bool
  any p [] = false
  any p (x ∷ xs) = if p x then true else any p xs

  unfoldable pub all : (A → Bool) → List A → Bool
  all p [] = true
  all p (x ∷ xs) = if p x then all p xs else false

  -- `select(func.count(...)).where(...)`
  unfoldable pub count_if : (A → Bool) → List A → ℕ
  count_if p [] = 0
  count_if p (x ∷ xs) = (if p x then 1 else 0) + count_if p xs

  unfoldable pub select : (A → Bool) → List A → List A
  select p [] = []
  select p (x ∷ xs) = let rest = select p xs in if p x then x ∷ rest else rest

  -- `UPDATE ... SET ... WHERE ...`
  unfoldable pub update_if : (A → Bool) → (A → A) → List A → List A
  update_if p f [] = []
  update_if p f (x ∷ xs) = (if p x then f x else x) ∷ update_if p f xs

  abbrev pub length : List A → ℕ
  length [] = 0
  length (x ∷ xs) = suc (length xs)
