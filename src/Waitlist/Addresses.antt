-- ===== src/Waitlist/Addresses.antt =====
-- `WaitlistCreate` of app/schemas/api.py, on a text as its code points. What is white space and what
-- lower case makes of a text come from Python's Unicode tables and are parameters.
use test_exchange_backend.Base.{
  ℕ, String, Bool, true, false, not, ◌&&◌, Option, none, some, List, [], ◌∷◌, ◌++◌, ◌≡◌, refl, inl,
  inr, ◌==◌, Bool-cases, if◌then◌else◌, any, all, length,
}
use test_exchange_backend.Workflow.StorageKey.{starts_with, codes}
use test_exchange_backend.Quality.Texts.{strip}
use test_exchange_backend.Config.{is_empty}
use test_exchange_backend.Schemas.{is_between, has_length}

-- what goes before a cut is one code point longer, and without a later cut there may be one here
abbrev pub cut_at : ℕ → List ℕ → Option (List ℕ × List ℕ) → Option (List ℕ × List ℕ)
cut_at c rest (some (local, domain)) = some (c ∷ local, domain)
cut_at c rest none = if c == b'@' then some ([], rest) else none

-- `normalized.rpartition("@")`, where there is a separator
unfoldable pub rpartition : List ℕ → Option (List ℕ × List ℕ)
rpartition [] = none
rpartition (c ∷ rest) = cut_at c rest (rpartition rest)

unfoldable pub is_domain : List ℕ → Bool
is_domain domain = any (λ c. c == b'.') domain && not (starts_with domain (b'.' ∷ []))

-- the tests of `validate_email` on the parts
unfoldable pub is_address : Option (List ℕ × List ℕ) → Bool
unfolding is_domain is_empty
is_address none = false
is_address (some (local, domain)) = not (is_empty local) && is_domain domain

module _ (is_space : ℕ → Bool) (lower : List ℕ → List ℕ) where
  -- a ValueError is `none`
  unfoldable pub validate_email : List ℕ → Option (List ℕ)
  unfolding rpartition is_address
  validate_email value =
      let normalized = lower (strip is_space value) in
      if is_address (rpartition normalized) then some normalized else none

  -- the body: its text stripped by pydantic, then the length of it, then the validator
  unfoldable pub waitlist_create : List ℕ → Option (List ℕ)
  unfolding validate_email is_between
  waitlist_create value =
      let email = strip is_space value in
      let checked = validate_email email in
      if is_between 5 320 (length email) then checked else none

-- the body of a request, on a text that pydantic has stripped: its length, then the tests of the
-- validator on `value.strip().lower()`
unfoldable pub waitlist_create_valid : (String → String) → String → Bool
unfolding rpartition is_address has_length
waitlist_create_valid normalize email =
    has_length 5 320 email && is_address (rpartition (codes (normalize email)))

absurd_all : {A : Type 0} (b rest : Bool) → b ≡ true → (if not b then rest else false) ≡ true → A
absurd_all true rest e h = cc
absurd_all false rest e h = cc

rest_all : (b rest : Bool) → b ≡ false → (if not b then rest else false) ≡ true → rest ≡ true
rest_all true rest e h = cc
rest_all false rest e h = h

rpartition-none : (text : List ℕ) → all (λ c. not (c == b'@')) text ≡ true → rpartition text ≡ none
unfolding rpartition all
rpartition-none [] h = refl
rpartition-none (c ∷ text) h = elim (Bool-cases (c == b'@')) [
  | inl cut ↦ absurd_all (c == b'@') _ cut h
  | inr plain ↦ rw (rpartition-none text (rest_all (c == b'@') _ plain h), plain) refl
]

rpartition-parts :
    (local domain : List ℕ)
    → all (λ c. not (c == b'@')) domain ≡ true
    → rpartition (local ++ b'@' ∷ domain) ≡ some (local, domain)
unfolding rpartition
rpartition-parts [] domain h = rw (rpartition-none domain h) refl
rpartition-parts (c ∷ local) domain h = rw (rpartition-parts local domain h) refl

-- An address is cut at its last @: where the text, stripped and in lower case, is a local part, an @
-- and a domain without one, it is accepted exactly when the local part is not empty and the domain
-- has a dot and does not begin with one, and the address accepted is that text.
pub validate_email-parts :
    (is_space : ℕ → Bool) (lower : List ℕ → List ℕ) (value local domain : List ℕ)
    → lower (strip is_space value) ≡ local ++ b'@' ∷ domain
    → all (λ c. not (c == b'@')) domain ≡ true
    → validate_email is_space lower value ≡ (
        if not (is_empty local)
          && (any (λ c. c == b'.') domain && not (starts_with domain (b'.' ∷ [])))
        then some (local ++ b'@' ∷ domain)
        else none)
unfolding validate_email is_address is_domain
validate_email-parts is_space lower value local domain text plain =
    rw (text, rpartition-parts local domain plain) refl
