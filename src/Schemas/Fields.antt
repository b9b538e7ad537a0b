-- ===== src/Schemas/Fields.antt =====
-- The constraints that `Field` puts on one field. A body is taken as pydantic hands it on, its texts
-- stripped and its values of their types; a text's length is its number of code points.
use test_exchange_backend.Base.{
  ℕ, String, Bool, true, false, ◌&&◌, ◌||◌, Option, none, some, List, [], ◌∷◌, ◌==◌, leb, length,
}
use test_exchange_backend.Campaigns.{Patch}
use test_exchange_backend.Workflow.StorageKey.{codes}

-- `Field(ge=low, le=high)`
unfoldable pub is_between : ℕ → ℕ → ℕ → Bool
is_between low high n = leb low n && leb n high

-- `Field(min_length=low, max_length=high)`
unfoldable pub has_length : ℕ → ℕ → String → Bool
unfolding is_between
has_length low high text = is_between low high (length (codes text))

module _ {A : Type 0} where
  -- a field that may be null
  unfoldable pub null_or : (A → Bool) → Option A → Bool
  null_or test none = true
  null_or test (some a) = test a

  -- a field of a PATCH body, left out or null or given
  unfoldable pub patch_or : (A → Bool) → Patch A → Bool
  unfolding null_or
  patch_or test none = true
  patch_or test (some value) = null_or test value

unfoldable pub is_digit : ℕ → Bool
unfolding is_between
is_digit = is_between b'0' b'9'

unfoldable pub is_lower : ℕ → Bool
unfolding is_between
is_lower = is_between b'a' b'z'

-- `[a-z0-9]`
unfoldable pub is_slug_char : ℕ → Bool
unfolding is_lower is_digit
is_slug_char c = is_lower c || is_digit c

-- `[a-zA-Z0-9_-]`
unfoldable pub is_username_char : ℕ → Bool
unfolding is_lower is_digit is_between
is_username_char c = is_lower c || is_between b'A' b'Z' c || is_digit c || c == b'_' || c == b'-'

-- The rest of a slug, after a letter or digit where the flag is set, else at the start of a word.
unfoldable pub slug_rest : Bool → List ℕ → Bool
unfolding is_slug_char
slug_rest inside [] = inside
slug_rest inside (c ∷ rest) =
    (is_slug_char c && slug_rest true rest) || (c == b'-' && (inside && slug_rest false rest))
