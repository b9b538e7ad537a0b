-- ===== src/Quality/Texts.antt =====
-- `_normalize_text` and `str.strip`, on a text as its code points. Python's `\s` in a pattern of
-- texts matches the code points that `str.isspace` accepts.
use test_exchange_backend.Base.{ℕ, Bool, true, false, List, [], ◌∷◌, if◌then◌else◌, reverse}

module _ (is_space : ℕ → Bool) where
  -- `text.lstrip()`
  unfoldable pub lstrip : List ℕ → List ℕ
  lstrip [] = []
  lstrip (c ∷ rest) = let stripped = lstrip rest in if is_space c then stripped else c ∷ rest

  unfoldable pub strip : List ℕ → List ℕ
  unfolding lstrip
  strip text = reverse (lstrip (reverse (lstrip text)))

  -- `re.sub(r"\s+", " ", text)`: a run of white space becomes one space; the flag is set in a run
  unfoldable pub squeeze : Bool → List ℕ → List ℕ
  squeeze inside [] = []
  squeeze inside (c ∷ rest) =
      let in_run = squeeze true rest in
      let out = squeeze false rest in
      if is_space c then (if inside then in_run else b' ' ∷ in_run) else c ∷ out

module _ (is_space : ℕ → Bool) (lower : List ℕ → List ℕ) where
  unfoldable pub normalize_text : List ℕ → List ℕ
  unfolding strip squeeze
  normalize_text value = squeeze is_space false (lower (strip is_space value))
