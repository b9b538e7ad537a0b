-- ===== src/RateLimit.antt =====
-- app/core/rate_limit.py: the fixed-window limiter. Times are whole seconds of the monotonic
-- clock, which the code reads as a float and rounds up for `retry_after`. A key stands for its text.
pub mod Cleaning
pub mod Runs
pub mod Quota
pub mod Middleware
use test_exchange_backend.Base.{
  ℕ, ◌+◌, ◌-◌, Bool, Option, none, some, List, [], ◌∷◌, ◌==◌, ltb, leb, if◌then◌else◌, select,
}
use Prim.Native.Nat.{max}

pub record RateLimitResult : Type 0 where
  pub allowed : Bool
  pub limit : ℕ
  pub remaining : ℕ
  pub retry_after : ℕ

-- `_Window`
pub record Window : Type 0 where
  pub started_at : ℕ
  pub requests : ℕ

pub record FixedWindowRateLimiter : Type 0 where
  pub window_seconds : ℕ
  pub windows : List (ℕ × Window)
  pub requests_since_cleanup : ℕ

-- `self._windows.get(key)`
unfoldable pub get : ℕ → List (ℕ × Window) → Option Window
get key [] = none
get key ((k, w) ∷ rest) = if k == key then some w else get key rest

-- `self._windows[key] = window`
unfoldable pub put : ℕ → Window → List (ℕ × Window) → List (ℕ × Window)
put key window [] = (key, window) ∷ []
put key window ((k, w) ∷ rest) =
    if k == key then (k, window) ∷ rest else (k, w) ∷ put key window rest

-- `window.started_at > current_time - self.window_seconds`
abbrev pub is_recent : ℕ → ℕ → ℕ × Window → Bool
is_recent seconds time (k, w) = ltb time (w.started_at + seconds)

-- the periodic clean-up at the start of `consume`
unfoldable pub clean : ℕ → FixedWindowRateLimiter → FixedWindowRateLimiter
clean time l =
    if leb 1000 (l.requests_since_cleanup + 1)
    then record l {
      windows = select (is_recent l.window_seconds time) l.windows;
      requests_since_cleanup = 0;
    }
    else record l { requests_since_cleanup = l.requests_since_cleanup + 1 }

-- `window is None or current_time - window.started_at >= self.window_seconds`: a new window
unfoldable pub current_window : ℕ → ℕ → Option Window → Window
current_window seconds time none = record { started_at = time; requests = 0 }
current_window seconds time (some w) =
    if leb (w.started_at + seconds) time then record { started_at = time; requests = 0 } else w

-- what a window answers once the request is counted in it
unfoldable pub answer : ℕ → ℕ → ℕ → Window → RateLimitResult
answer seconds limit time w = record {
  allowed = leb w.requests limit;
  limit = limit;
  remaining = limit - w.requests;
  retry_after = max 1 (w.started_at + seconds - time);
}

abbrev pub counted : Window → Window
counted w = record w { requests = w.requests + 1 }

unfoldable pub consume :
    ℕ → ℕ → ℕ → FixedWindowRateLimiter → RateLimitResult × FixedWindowRateLimiter
unfolding clean current_window answer
consume key limit time l =
    let cleaned = clean time l in
    let window = counted (current_window l.window_seconds time (get key cleaned.windows)) in
    (
      answer l.window_seconds limit time window,
      record cleaned { windows = put key window cleaned.windows },
    )
