-- ===== src/RateLimit/Quota.antt =====
-- The requests of one key in one window of app/core/rate_limit.py.
use mathlib.Core.Path.{◌∙◌, sym}
use test_exchange_backend.Base.{
  ap, ℕ, ◌+◌, ◌-◌, ◌<◌, ◌≤◌, true, false, ◌&&◌, List, [], ◌∷◌, some, ◌≡◌, refl, arith, ◌==◌, ==_iff,
  leb, if◌then◌else◌, inl, inr, Bool-cases,
}
use test_exchange_backend.RateLimit.{
  RateLimitResult, Window, FixedWindowRateLimiter, get, current_window, answer, counted,
}
use test_exchange_backend.RateLimit.Cleaning.{HasUniqueKeys, consume_kept, get-put_self, get-put_ne}
use test_exchange_backend.RateLimit.Runs.{
  Arrival, answers, answers_kept, IsOrdered, answers-clean_up,
}

-- the requests of a key that were allowed
unfoldable pub allowed_for : ℕ → List Arrival → List RateLimitResult → ℕ
allowed_for key [] results = 0
allowed_for key (a ∷ rest) [] = 0
allowed_for key (a ∷ rest) (r ∷ results) =
    (if a.key == key && r.allowed then 1 else 0) + allowed_for key rest results

-- All requests come before the end, and those of the key have the same limit.
abbrev pub IsWithin : ℕ → ℕ → ℕ → List Arrival → Type 0
IsWithin end key limit [] = Unit
IsWithin end key limit (a ∷ rest) =
    (a.time < end) × ((a.key == key) ≡ true → a.limit ≡ limit) × IsWithin end key limit rest

still_open :
    (seconds time : ℕ) (w : Window)
    → time < w.started_at + seconds
    → current_window seconds time (some w) ≡ w
unfolding current_window
still_open seconds time w h = ground arith

allowed_first :
    (key limit requests : ℕ) (a : Arrival) (rest : List Arrival) (r : RateLimitResult)
    (results : List RateLimitResult)
    → r.allowed ≡ leb (requests + 1) limit
    → allowed_for key rest results ≤ limit - (requests + 1)
    → allowed_for key (a ∷ rest) (r ∷ results) ≤ limit - requests
unfolding allowed_for
allowed_first key limit requests a rest r results e h = ground (arith, e, h)

nothing_allowed : (key limit requests : ℕ) → allowed_for key [] [] ≤ limit - requests
unfolding allowed_for
nothing_allowed key limit requests = omega arith

allowed_other :
    (key n : ℕ) (a : Arrival) (rest : List Arrival) (r : RateLimitResult)
    (results : List RateLimitResult)
    → (a.key == key) ≡ false
    → allowed_for key rest results ≤ n
    → allowed_for key (a ∷ rest) (r ∷ results) ≤ n
unfolding allowed_for
allowed_other key n a rest r results e h = ground (arith, e, h)

module _ (seconds key limit time : ℕ) (windows : List (ℕ × Window)) (w : Window)
    (found : get key windows ≡ some w) (before : time < w.started_at + seconds) where
  found_open : current_window seconds time (get key windows) ≡ w
  found_open = rw found (still_open seconds time w before)

  consume_kept-allowed :
      (consume_kept seconds key limit time windows).0.allowed ≡ leb (w.requests + 1) limit
  unfolding consume_kept answer
  consume_kept-allowed = rw found_open refl

  consume_kept-get : get key (consume_kept seconds key limit time windows).1 ≡ some (counted w)
  unfolding consume_kept
  consume_kept-get = rw found_open (get-put_self key (counted w) windows)

get-consume_kept_ne :
    (seconds key limit time j : ℕ) (windows : List (ℕ × Window))
    → (key == j) ≡ false
    → get j (consume_kept seconds key limit time windows).1 ≡ get j windows
unfolding consume_kept
get-consume_kept_ne seconds key limit time j windows e = get-put_ne key j _ windows e

answers_kept-allowed :
    (arrivals : List Arrival) (seconds key limit : ℕ) (windows : List (ℕ × Window)) (w : Window)
    → get key windows ≡ some w
    → IsWithin (w.started_at + seconds) key limit arrivals
    → allowed_for key arrivals (answers_kept seconds arrivals windows) ≤ limit - w.requests
unfolding answers_kept
answers_kept-allowed [] seconds key limit windows w found within =
    nothing_allowed key limit w.requests
answers_kept-allowed (a ∷ rest) seconds key limit windows w found (before, same_limit, within) =
    elim (Bool-cases (a.key == key)) [
      | inl same ↦
          let here : get a.key windows ≡ some w = rw ((==_iff a.key key).0 same) found in
          allowed_first key limit w.requests a rest _ _
            (consume_kept-allowed seconds a.key a.limit a.time windows w here before
              ∙ ap (λ n. leb (w.requests + 1) n) (same_limit same))
            (answers_kept-allowed rest seconds key limit
              (consume_kept seconds a.key a.limit a.time windows).1 (counted w)
              (ap (λ k. get k (consume_kept seconds a.key a.limit a.time windows).1)
                  (sym ((==_iff a.key key).0 same))
                ∙ consume_kept-get seconds a.key a.limit a.time windows w here before)
              within)
      | inr other ↦ allowed_other key (limit - w.requests) a rest _ _ other (
          answers_kept-allowed rest seconds key limit
            (consume_kept seconds a.key a.limit a.time windows).1 w
            (get-consume_kept_ne seconds a.key a.limit a.time key windows other ∙ found) within)
    ]

-- A window lets no more than its rest through: in a run of requests, with clean-ups and with other
-- keys between them, from windows with different keys, at times that do not go back and that all
-- come before the end of the key's window, no more requests of the key are allowed than are left of
-- its limit.
pub answers-allowed :
    (arrivals : List Arrival) (l : FixedWindowRateLimiter) (time key limit : ℕ) (w : Window)
    → HasUniqueKeys l.windows
    → IsOrdered time arrivals
    → get key l.windows ≡ some w
    → IsWithin (w.started_at + l.window_seconds) key limit arrivals
    → allowed_for key arrivals (answers arrivals l) ≤ limit - w.requests
answers-allowed arrivals l time key limit w unique ordered found within =
    rw (answers-clean_up arrivals l time unique ordered)
      (answers_kept-allowed arrivals l.window_seconds key limit l.windows w found within)
