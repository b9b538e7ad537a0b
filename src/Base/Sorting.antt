-- ===== src/Base/Sorting.antt =====
-- `ORDER BY` and `LIMIT` of the queries: a stable insertion sort by a key.
use Prim.Native.Nat.{ℕ, zero, suc, ◌+◌, ◌≤◌}
use mathlib.Core.Path.{◌≡◌, refl, sym, ap, ◌∙◌}
use mathlib.Core.Logic.{inl, inr}
use mathlib.Core.Bool.{Bool, false}
use mathlib.Core.List.{List, [], ◌∷◌, ◌++◌}
use native.Mathlib.Omega.{arith}
use test_exchange_backend.Base.Tests.{leb, if◌then◌else◌, Bool-cases}
use test_exchange_backend.Base.Tables.{all, count_if, select}

module _ {ℓ} {A : Type ℓ} where
  unfoldable pub reverse : List A → List A
  reverse [] = []
  reverse (x ∷ xs) = reverse xs ++ (x ∷ [])

  -- `LIMIT n`
  unfoldable pub take : ℕ → List A → List A
  take zero xs = []
  take (suc n) [] = []
  take (suc n) (x ∷ xs) = x ∷ take n xs

module _ {ℓ} {A : Type ℓ} (key : A → ℕ) where
  unfoldable pub insert_by : A → List A → List A
  insert_by x [] = x ∷ []
  insert_by x (y ∷ ys) =
      let rest = insert_by x ys in if leb (key x) (key y) then x ∷ y ∷ ys else y ∷ rest

  unfoldable pub order_by : List A → List A
  unfolding insert_by
  order_by [] = []
  order_by (x ∷ xs) = insert_by x (order_by xs)

  -- every key is `k` at least
  unfoldable pub IsAbove : ℕ → List A → Type 0
  IsAbove k [] = Unit
  IsAbove k (x ∷ xs) = (k ≤ key x) × IsAbove k xs

  unfoldable pub IsOrdered : List A → Type 0
  unfolding IsAbove
  IsOrdered [] = Unit
  IsOrdered (x ∷ xs) = IsAbove (key x) xs × IsOrdered xs

  IsAbove-weaken : (j k : ℕ) (xs : List A) → j ≤ k → IsAbove k xs → IsAbove j xs
  unfolding IsAbove
  IsAbove-weaken j k [] le h = tt
  IsAbove-weaken j k (x ∷ xs) le (first, h) = (omega arith, IsAbove-weaken j k xs le h)

  IsAbove-insert_by :
      (k : ℕ) (x : A) (xs : List A) → k ≤ key x → IsAbove k xs → IsAbove k (insert_by x xs)
  unfolding IsAbove insert_by
  IsAbove-insert_by k x [] le h = (le, tt)
  IsAbove-insert_by k x (y ∷ ys) le (first, h) = elim (Bool-cases (leb (key x) (key y))) [
    | inl before ↦ rw before (le, (first, h))
    | inr after ↦ rw after (first, IsAbove-insert_by k x ys le h)
  ]

  IsOrdered-insert_by : (x : A) (xs : List A) → IsOrdered xs → IsOrdered (insert_by x xs)
  unfolding IsOrdered IsAbove insert_by
  IsOrdered-insert_by x [] h = (tt, tt)
  IsOrdered-insert_by x (y ∷ ys) (above, h) = elim (Bool-cases (leb (key x) (key y))) [
    | inl before ↦
        let le : key x ≤ key y = ground arith in
        rw before ((le, IsAbove-weaken (key x) (key y) ys le above), (above, h))
    | inr after ↦
        let le : key y ≤ key x = ground arith in
        rw after (IsAbove-insert_by (key y) x ys le above, IsOrdered-insert_by x ys h)
  ]

  pub IsOrdered-order_by : (xs : List A) → IsOrdered (order_by xs)
  unfolding order_by IsOrdered
  IsOrdered-order_by [] = tt
  IsOrdered-order_by (x ∷ xs) = IsOrdered-insert_by x (order_by xs) (IsOrdered-order_by xs)

  count_if-insert_by :
      (p : A → Bool) (x : A) (xs : List A) → count_if p (insert_by x xs) ≡ count_if p (x ∷ xs)
  unfolding count_if insert_by
  count_if-insert_by p x [] = refl
  count_if-insert_by p x (y ∷ ys) = elim (Bool-cases (leb (key x) (key y))) [
    | inl before ↦ rw before refl
    | inr after ↦ rw (after, count_if-insert_by p x ys) (ground arith)
  ]

  -- the sort keeps the rows
  pub count_if-order_by : (p : A → Bool) (xs : List A) → count_if p (order_by xs) ≡ count_if p xs
  unfolding order_by count_if
  count_if-order_by p [] = refl
  count_if-order_by p (x ∷ xs) =
      count_if-insert_by p x (order_by xs)
      ∙ ap (λ n. (if p x then 1 else 0) + n) (count_if-order_by p xs)

  all-insert_by : (p : A → Bool) (x : A) (xs : List A) → all p (insert_by x xs) ≡ all p (x ∷ xs)
  unfolding all insert_by
  all-insert_by p x [] = refl
  all-insert_by p x (y ∷ ys) = ground (arith, all-insert_by p x ys)

  pub all-order_by : (p : A → Bool) (xs : List A) → all p (order_by xs) ≡ all p xs
  unfolding order_by all
  all-order_by p [] = refl
  all-order_by p (x ∷ xs) =
      all-insert_by p x (order_by xs) ∙ ap (λ b. if p x then b else false) (all-order_by p xs)

  IsAbove-select : (p : A → Bool) (k : ℕ) (xs : List A) → IsAbove k xs → IsAbove k (select p xs)
  unfolding IsAbove select
  IsAbove-select p k [] h = tt
  IsAbove-select p k (x ∷ xs) (first, h) = elim (Bool-cases (p x)) [
    | inl chosen ↦ rw chosen (first, IsAbove-select p k xs h)
    | inr left ↦ rw left (IsAbove-select p k xs h)
  ]

  insert_by-first : (x : A) (xs : List A) → IsAbove (key x) xs → insert_by x xs ≡ x ∷ xs
  unfolding IsAbove insert_by
  insert_by-first x [] h = refl
  insert_by-first x (y ∷ ys) (first, h) = ground arith

  select-behind :
      (p : A → Bool) (x y : A) (ys : List A)
      → leb (key x) (key y) ≡ false
      → select p (insert_by x ys) ≡ (if p x then insert_by x (select p ys) else select p ys)
      → select p (y ∷ insert_by x ys)
        ≡ (if p x then insert_by x (select p (y ∷ ys)) else select p (y ∷ ys))
  unfolding select insert_by
  select-behind p x y ys after rest = elim (Bool-cases (p x)) [
    | inl chosen ↦ elim (Bool-cases (p y)) [
      | inl kept ↦ rw (kept, rest, chosen, after) refl
      | inr dropped ↦ rw (dropped, rest, chosen) refl
    ]
    | inr left ↦ elim (Bool-cases (p y)) [
      | inl kept ↦ rw (kept, rest, left) refl
      | inr dropped ↦ rw (dropped, rest, left) refl
    ]
  ]

  select-insert_by :
      (p : A → Bool) (x : A) (xs : List A)
      → IsOrdered xs
      → select p (insert_by x xs) ≡ (if p x then insert_by x (select p xs) else select p xs)
  unfolding select insert_by IsOrdered
  select-insert_by p x [] h = ground arith
  select-insert_by p x (y ∷ ys) (above, h) = elim (Bool-cases (leb (key x) (key y))) [
    | inl before ↦
        let le : key x ≤ key y = ground arith in
        elim (Bool-cases (p x)) [
          | inl chosen ↦
              rw (before, chosen)
                (sym (
                  insert_by-first x (select p (y ∷ ys)) (
                    IsAbove-select p (key x) (y ∷ ys)
                      (le, IsAbove-weaken (key x) (key y) ys le above))))
          | inr left ↦ rw (before, left) refl
        ]
    | inr after ↦ rw after (select-behind p x y ys after (select-insert_by p x ys h))
  ]

  -- Sorting and filtering commute.
  pub select-order_by :
      (p : A → Bool) (xs : List A) → select p (order_by xs) ≡ order_by (select p xs)
  unfolding select order_by
  select-order_by p [] = refl
  select-order_by p (x ∷ xs) = elim (Bool-cases (p x)) [
    | inl chosen ↦
        rw
          (select-insert_by p x (order_by xs) (IsOrdered-order_by xs), chosen, select-order_by p xs)
          refl
    | inr left ↦
        rw (select-insert_by p x (order_by xs) (IsOrdered-order_by xs), left, select-order_by p xs)
          refl
  ]
