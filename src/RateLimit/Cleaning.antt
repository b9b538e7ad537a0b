-- ===== src/RateLimit/Cleaning.antt =====
-- The periodic clean-up of app/core/rate_limit.py and the windows of the limiter.
use mathlib.Core.Path.{◌∙◌}
use test_exchange_backend.Base.{
  ℕ, ◌+◌, ◌≤◌, Bool, false, none, some, List, [], ◌∷◌, ◌≡◌, refl, arith, ◌==◌, leb, select,
  count_if, inl, inr, Bool-cases, ==_iff,
}
use test_exchange_backend.RateLimit.{
  RateLimitResult, Window, FixedWindowRateLimiter, get, put, is_recent, clean, current_window,
  answer, counted,
}

-- how many windows a key has
unfoldable pub with_key : ℕ → List (ℕ × Window) → ℕ
with_key key = count_if (λ entry. entry.0 == key)

-- The windows are a dictionary: no key comes twice.
abbrev pub HasUniqueKeys : List (ℕ × Window) → Type 0
HasUniqueKeys windows = (key : ℕ) → with_key key windows ≤ 1

get-select_absent :
    (key : ℕ) (test : ℕ × Window → Bool) (windows : List (ℕ × Window))
    → with_key key windows ≡ 0
    → get key (select test windows) ≡ none
unfolding with_key count_if get select
get-select_absent key test [] h = refl
get-select_absent key test ((k, w) ∷ rest) h = ground (arith, get-select_absent key test rest)

-- A window that the clean-up drops is one that every later request would replace.
current_window-select :
    (key seconds time later : ℕ) (windows : List (ℕ × Window))
    → time ≤ later
    → with_key key windows ≤ 1
    → current_window seconds later (get key (select (is_recent seconds time) windows))
      ≡ current_window seconds later (get key windows)
unfolding with_key count_if get select current_window
current_window-select key seconds time later [] after h = refl
current_window-select key seconds time later ((k, w) ∷ rest) after h = ground (
  arith,
  current_window-select key seconds time later rest,
  get-select_absent key (is_recent seconds time) rest,
)

with_key-select :
    (key : ℕ) (test : ℕ × Window → Bool) (windows : List (ℕ × Window))
    → with_key key (select test windows) ≤ with_key key windows
unfolding with_key count_if select
with_key-select key test [] = omega arith
with_key-select key test (entry ∷ rest) = ground (arith, with_key-select key test rest)

with_key-put_self :
    (key : ℕ) (window : Window) (windows : List (ℕ × Window))
    → with_key key windows ≤ 1
    → with_key key (put key window windows) ≤ 1
unfolding with_key count_if put
with_key-put_self key window [] h = ground arith
with_key-put_self key window ((k, w) ∷ rest) h = ground (arith, with_key-put_self key window rest)

with_key-put_ne :
    (key j : ℕ) (window : Window) (windows : List (ℕ × Window))
    → (key == j) ≡ false
    → with_key j (put key window windows) ≡ with_key j windows
unfolding with_key count_if put
with_key-put_ne key j window [] h = ground arith
with_key-put_ne key j window ((k, w) ∷ rest) h = ground (arith, with_key-put_ne key j window rest)

pub put-HasUniqueKeys :
    (key : ℕ) (window : Window) (windows : List (ℕ × Window))
    → HasUniqueKeys windows
    → HasUniqueKeys (put key window windows)
put-HasUniqueKeys key window windows unique j = elim (Bool-cases (key == j)) [
  | inl same ↦
      ground (arith, (==_iff key j).0 same, with_key-put_self key window windows (unique key))
  | inr other ↦ rw (with_key-put_ne key j window windows other) (unique j)
]

pub get-put_self :
    (key : ℕ) (window : Window) (windows : List (ℕ × Window))
    → get key (put key window windows) ≡ some window
unfolding get put
get-put_self key window [] = ground arith
get-put_self key window ((k, w) ∷ rest) = ground (arith, get-put_self key window rest)

pub get-put_ne :
    (key j : ℕ) (window : Window) (windows : List (ℕ × Window))
    → (key == j) ≡ false
    → get j (put key window windows) ≡ get j windows
unfolding get put
get-put_ne key j window [] h = ground arith
get-put_ne key j window ((k, w) ∷ rest) h = ground (arith, get-put_ne key j window rest)

-- the limiter without the clean-up: the answer, and the windows afterwards
unfoldable pub consume_kept :
    ℕ → ℕ → ℕ → ℕ → List (ℕ × Window) → RateLimitResult × List (ℕ × Window)
consume_kept seconds key limit time windows =
    let window = counted (current_window seconds time (get key windows)) in
    (answer seconds limit time window, put key window windows)

-- every request from `time` on finds the same window
unfoldable pub Agrees : ℕ → ℕ → List (ℕ × Window) → List (ℕ × Window) → Type 0
Agrees seconds time a b =
    (key later : ℕ)
    → time ≤ later
    → current_window seconds later (get key a) ≡ current_window seconds later (get key b)

pub put-Agrees :
    (seconds time key : ℕ) (window : Window) (a b : List (ℕ × Window))
    → Agrees seconds time a b
    → Agrees seconds time (put key window a) (put key window b)
unfolding Agrees
put-Agrees seconds time key window a b agrees j later after = elim (Bool-cases (key == j)) [
  | inl same ↦ cc ((==_iff key j).0 same, get-put_self key window a, get-put_self key window b)
  | inr other ↦
      rw (get-put_ne key j window a other, get-put_ne key j window b other) (agrees j later after)
]

pub clean-Agrees :
    (time : ℕ) (l : FixedWindowRateLimiter) (kept : List (ℕ × Window))
    → HasUniqueKeys l.windows
    → Agrees l.window_seconds time l.windows kept
    → Agrees l.window_seconds time (clean time l).windows kept
unfolding Agrees clean
clean-Agrees time l kept unique agrees key later after =
    elim (Bool-cases (leb 1000 (l.requests_since_cleanup + 1))) [
      | inl due ↦ rw due (
          current_window-select key l.window_seconds time later l.windows after (unique key)
          ∙ agrees key later after)
      | inr waits ↦ rw waits (agrees key later after)
    ]

pub clean-HasUniqueKeys :
    (time : ℕ) (l : FixedWindowRateLimiter)
    → HasUniqueKeys l.windows
    → HasUniqueKeys (clean time l).windows
unfolding clean
clean-HasUniqueKeys time l unique key =
    ground (arith, unique key, with_key-select key (is_recent l.window_seconds time) l.windows)

pub clean-window_seconds :
    (time : ℕ) (l : FixedWindowRateLimiter) → (clean time l).window_seconds ≡ l.window_seconds
unfolding clean
clean-window_seconds time l = ground arith
