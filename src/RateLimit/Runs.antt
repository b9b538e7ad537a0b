-- ===== src/RateLimit/Runs.antt =====
-- A run of requests against the limiter of app/core/rate_limit.py, with and without its clean-up.
use mathlib.Core.Path.{subst}
use test_exchange_backend.Base.{ℕ, ◌≤◌, List, [], ◌∷◌, ◌≡◌, refl, arith}
use test_exchange_backend.RateLimit.{
  RateLimitResult, Window, FixedWindowRateLimiter, get, clean, current_window, consume,
}
use test_exchange_backend.RateLimit.Cleaning.{
  HasUniqueKeys, consume_kept, Agrees, put-HasUniqueKeys, put-Agrees, clean-Agrees,
  clean-HasUniqueKeys, clean-window_seconds,
}

-- the arguments of one call of `consume`
pub record Arrival : Type 0 where
  pub key : ℕ
  pub limit : ℕ
  pub time : ℕ

unfoldable pub answers : List Arrival → FixedWindowRateLimiter → List RateLimitResult
answers [] l = []
answers (a ∷ rest) l =
    let (result, next) = consume a.key a.limit a.time l in result ∷ answers rest next

-- the answers of a limiter that never cleans up
unfoldable pub answers_kept : ℕ → List Arrival → List (ℕ × Window) → List RateLimitResult
answers_kept seconds [] windows = []
answers_kept seconds (a ∷ rest) windows =
    let (result, next) = consume_kept seconds a.key a.limit a.time windows in
    result ∷ answers_kept seconds rest next

-- The monotonic clock does not go back.
abbrev pub IsOrdered : ℕ → List Arrival → Type 0
IsOrdered time [] = Unit
IsOrdered time (a ∷ rest) = (time ≤ a.time) × IsOrdered a.time rest

module _ (key limit time : ℕ) (l : FixedWindowRateLimiter) (kept : List (ℕ × Window)) where
  same_window :
      HasUniqueKeys l.windows
      → Agrees l.window_seconds time l.windows kept
      → current_window l.window_seconds time (get key (clean time l).windows)
        ≡ current_window l.window_seconds time (get key kept)
  unfolding Agrees
  same_window unique agrees = clean-Agrees time l kept unique agrees key time (omega arith)

  consume-answer :
      HasUniqueKeys l.windows
      → Agrees l.window_seconds time l.windows kept
      → (consume key limit time l).0 ≡ (consume_kept l.window_seconds key limit time kept).0
  unfolding consume consume_kept
  consume-answer unique agrees = rw (same_window unique agrees) refl

  consume-Agrees :
      HasUniqueKeys l.windows
      → Agrees l.window_seconds time l.windows kept
      → Agrees l.window_seconds time
          (consume key limit time l).1.windows
          (consume_kept l.window_seconds key limit time kept).1
  unfolding consume consume_kept
  consume-Agrees unique agrees = rw (same_window unique agrees) (
      put-Agrees l.window_seconds time key _ (clean time l).windows kept
        (clean-Agrees time l kept unique agrees))

  consume-HasUniqueKeys :
      HasUniqueKeys l.windows → HasUniqueKeys (consume key limit time l).1.windows
  unfolding consume
  consume-HasUniqueKeys unique =
      put-HasUniqueKeys key _ (clean time l).windows (clean-HasUniqueKeys time l unique)

  consume-window_seconds : (consume key limit time l).1.window_seconds ≡ l.window_seconds
  unfolding consume
  consume-window_seconds = clean-window_seconds time l

later-Agrees :
    (seconds time later : ℕ) (a b : List (ℕ × Window))
    → time ≤ later
    → Agrees seconds time a b
    → Agrees seconds later a b
unfolding Agrees
later-Agrees seconds time later a b after agrees key t h = agrees key t (omega arith)

same_lists :
    {x y : RateLimitResult} {xs ys : List RateLimitResult} → x ≡ y → xs ≡ ys → x ∷ xs ≡ y ∷ ys
same_lists e es = cc (e, es)

answers-Agrees :
    (arrivals : List Arrival) (l : FixedWindowRateLimiter) (time : ℕ) (kept : List (ℕ × Window))
    → HasUniqueKeys l.windows
    → Agrees l.window_seconds time l.windows kept
    → IsOrdered time arrivals
    → answers arrivals l ≡ answers_kept l.window_seconds arrivals kept
unfolding answers answers_kept
answers-Agrees [] l time kept unique agrees ordered = refl
answers-Agrees (a ∷ rest) l time kept unique agrees ordered =
    let now_agrees : Agrees l.window_seconds a.time l.windows kept =
      later-Agrees l.window_seconds time a.time l.windows kept ordered.0 agrees in
    same_lists (consume-answer a.key a.limit a.time l kept unique now_agrees) (
      subst
        (λ (seconds : ℕ).
          answers rest (consume a.key a.limit a.time l).1
          ≡ answers_kept seconds rest (consume_kept l.window_seconds a.key a.limit a.time kept).1)
        (consume-window_seconds a.key a.limit a.time l kept)
        (answers-Agrees rest (consume a.key a.limit a.time l).1 a.time
          (consume_kept l.window_seconds a.key a.limit a.time kept).1
          (consume-HasUniqueKeys a.key a.limit a.time l kept unique)
          (rw (consume-window_seconds a.key a.limit a.time l kept)
            (consume-Agrees a.key a.limit a.time l kept unique now_agrees))
          ordered.1))

Agrees-refl : (seconds time : ℕ) (windows : List (ℕ × Window)) → Agrees seconds time windows windows
unfolding Agrees
Agrees-refl seconds time windows key later after = refl

-- The periodic clean-up changes no answer: from windows with different keys, and with times that do
-- not go back, a run of requests gets the answers of a limiter that keeps every window for ever.
pub answers-clean_up :
    (arrivals : List Arrival) (l : FixedWindowRateLimiter) (time : ℕ)
    → HasUniqueKeys l.windows
    → IsOrdered time arrivals
    → answers arrivals l ≡ answers_kept l.window_seconds arrivals l.windows
answers-clean_up arrivals l time unique ordered =
    answers-Agrees arrivals l time l.windows unique (Agrees-refl l.window_seconds time l.windows)
      ordered
