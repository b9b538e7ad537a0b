-- ===== src/Examples/Limiter.antt =====
-- The rate limiter at the request that cleans up.
use test_exchange_backend.Base.{◌≤◌, some, ◌-◌, refl, List, [], ◌∷◌, ◌≡◌, arith, count_if}
use test_exchange_backend.RateLimit.{FixedWindowRateLimiter, get}
use test_exchange_backend.RateLimit.Cleaning.{HasUniqueKeys, with_key}
use test_exchange_backend.RateLimit.Quota.{allowed_for, answers-allowed}
use test_exchange_backend.RateLimit.Runs.{Arrival, answers, answers_kept, answers-clean_up}

-- one window that is over, one that is not, and a clean-up that is due
abbrev limiter : FixedWindowRateLimiter
limiter = record {
  window_seconds = 60;
  windows =
      (1, record { started_at = 0; requests = 3 })
      ∷ (2, record { started_at = 90; requests = 1 })
      ∷ [];
  requests_since_cleanup = 999;
}

abbrev arrivals : List Arrival
arrivals =
    record { key = 2; limit = 2; time = 100 }
    ∷ record { key = 1; limit = 2; time = 101 }
    ∷ record { key = 2; limit = 2; time = 102 }
    ∷ []

limiter-HasUniqueKeys : HasUniqueKeys limiter.windows
unfolding with_key count_if
limiter-HasUniqueKeys key = ground arith

answers-clean_up_example : answers arrivals limiter ≡ answers_kept 60 arrivals limiter.windows
answers-clean_up_example =
    answers-clean_up arrivals limiter 100 limiter-HasUniqueKeys
      (omega arith, (omega arith, (omega arith, tt)))

found_2 : get 2 limiter.windows ≡ some (record { started_at = 90; requests = 1 })
unfolding get
found_2 = refl

answers-allowed_example : allowed_for 2 arrivals (answers arrivals limiter) ≤ 2 - 1
answers-allowed_example =
    answers-allowed arrivals limiter 100 2 2 (record { started_at = 90; requests = 1 })
      limiter-HasUniqueKeys (omega arith, (omega arith, (omega arith, tt))) found_2
      (omega arith, λ _. refl, (omega arith, λ _. refl, (omega arith, λ _. refl, tt)))
