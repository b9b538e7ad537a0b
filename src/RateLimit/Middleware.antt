-- ===== src/RateLimit/Middleware.antt =====
-- `RateLimitMiddleware` of app/core/rate_limit.py. The responses of Starlette are a parameter, with a
-- JSON response and the assignment of a header; so is the number that stands for a key's text in the
-- limiter.
use Prim.Native.String.{◌++◌ as append}
use text.Mathlib.Text.{◌==◌ as str_eq}
use test_exchange_backend.Base.{
  ℕ, ◌+◌, ◌-◌, ◌≤◌, String, Bool, true, false, not, ◌&&◌, ◌||◌, Option, none, some, List, [], ◌∷◌,
  ◌≡◌, refl, arith, inl, inr, ◌==◌, Bool-cases, if◌then◌else◌, any,
}
use test_exchange_backend.Session.{decimal}
use test_exchange_backend.RateLimit.{RateLimitResult, Window, FixedWindowRateLimiter, get, consume}
use test_exchange_backend.RateLimit.Cleaning.{HasUniqueKeys}
use test_exchange_backend.RateLimit.Runs.{Arrival, answers, IsOrdered}
use test_exchange_backend.RateLimit.Quota.{allowed_for, IsWithin, answers-allowed}

pub record LimitSettings : Type 0 where
  pub rate_limit_enabled : Bool
  pub rate_limit_read_requests : ℕ
  pub rate_limit_write_requests : ℕ

-- the parts of a request that the middleware reads
pub record HttpRequest : Type 0 where
  pub method : String
  pub path : String
  pub client_host : Option String

-- the first test of `dispatch`
unfoldable pub is_exempt : LimitSettings → HttpRequest → Bool
is_exempt settings request =
    not settings.rate_limit_enabled
    || any (str_eq request.method) ("OPTIONS" ∷ "HEAD" ∷ [])
    || any (str_eq request.path) ("/health" ∷ "/ready" ∷ "/docs" ∷ "/openapi.json" ∷ "/redoc" ∷ [])

unfoldable pub is_write : HttpRequest → Bool
is_write request = not (str_eq request.method "GET")

unfoldable pub limit_of : LimitSettings → HttpRequest → ℕ
unfolding is_write
limit_of settings request =
    if is_write request
    then settings.rate_limit_write_requests
    else settings.rate_limit_read_requests

abbrev host_or_unknown : Option String → String
host_or_unknown none = "unknown"
host_or_unknown (some host) = host

-- `_request_identity`
unfoldable pub request_identity : HttpRequest → String
request_identity request = append "ip:" (host_or_unknown request.client_host)

-- `f"{identity}:{scope}"`
unfoldable pub scope_key : HttpRequest → String
unfolding request_identity is_write
scope_key request =
    append (request_identity request) (append ":" (if is_write request then "write" else "read"))

-- a response, made by the application behind the middleware or by the middleware itself
pub data Dispatched (R : Type 0) : Type 0 where
  passed_on : R → Dispatched R
  turned_away : R → Dispatched R

module _ {R : Type 0} (json_response : ℕ → String → List (String × String) → R)
    (set_header : String → String → R → R) (number : String → ℕ) where
  -- the answer to a request that is not exempt
  unfoldable pub answer_with : RateLimitResult → R → Dispatched R
  answer_with result response =
      if result.allowed
      then passed_on (
          set_header "X-RateLimit-Remaining" (decimal result.remaining)
            (set_header "X-RateLimit-Limit" (decimal result.limit) response))
      else turned_away (
          json_response 429 "Too many requests. Try again later." (
            ("X-RateLimit-Limit", decimal result.limit)
            ∷ ("X-RateLimit-Remaining", decimal result.remaining)
            ∷ ("Retry-After", decimal result.retry_after)
            ∷ []))

  -- `dispatch`; the response of `call_next` is used only where the request is passed on
  unfoldable pub dispatch :
      LimitSettings
      → (HttpRequest → R)
      → ℕ
      → HttpRequest
      → FixedWindowRateLimiter
      → Dispatched R × FixedWindowRateLimiter
  unfolding is_exempt limit_of scope_key answer_with
  dispatch settings call_next time request l =
      let (result, next) =
        consume (number (scope_key request)) (limit_of settings request) time l in
      if is_exempt settings request
      then (passed_on (call_next request), l)
      else (answer_with result (call_next request), next)

  -- requests one after another, each with the reading of the clock
  unfoldable pub dispatch_all :
      LimitSettings
      → (HttpRequest → R)
      → List (ℕ × HttpRequest)
      → FixedWindowRateLimiter
      → List (Dispatched R)
  unfolding dispatch
  dispatch_all settings call_next [] l = []
  dispatch_all settings call_next ((time, request) ∷ rest) l =
      let (response, next) = dispatch settings call_next time request l in
      response ∷ dispatch_all settings call_next rest next

  abbrev is_passed_on : Dispatched R → Bool
  is_passed_on (passed_on response) = true
  is_passed_on (turned_away response) = false

  -- the requests of a key, but for the exempt ones, that reach the application
  unfoldable pub passed_for : LimitSettings → ℕ → List (ℕ × HttpRequest) → List (Dispatched R) → ℕ
  passed_for settings key [] responses = 0
  passed_for settings key (a ∷ rest) [] = 0
  passed_for settings key ((time, request) ∷ rest) (response ∷ responses) =
      (if not (is_exempt settings request)
          && (number (scope_key request) == key && is_passed_on response)
        then 1
        else 0)
      + passed_for settings key rest responses

  -- what the limiter is asked
  unfoldable pub arrivals : LimitSettings → List (ℕ × HttpRequest) → List Arrival
  arrivals settings [] = []
  arrivals settings ((time, request) ∷ rest) =
      let later = arrivals settings rest in
      if is_exempt settings request
      then later
      else record {
        key = number (scope_key request);
        limit = limit_of settings request;
        time = time;
      }
        ∷ later

  passed_on-allowed :
      (result : RateLimitResult) (response : R)
      → is_passed_on (answer_with result response) ≡ result.allowed
  unfolding answer_with
  passed_on-allowed result response = elim (Bool-cases result.allowed) [
    | inl let_in ↦ rw let_in refl
    | inr shut_out ↦ rw shut_out refl
  ]

  passed_for-allowed_for :
      (settings : LimitSettings) (call_next : HttpRequest → R) (key : ℕ)
      (requests : List (ℕ × HttpRequest)) (l : FixedWindowRateLimiter)
      → passed_for settings key requests (dispatch_all settings call_next requests l)
        ≡ allowed_for key (arrivals settings requests) (answers (arrivals settings requests) l)
  unfolding passed_for dispatch_all dispatch arrivals allowed_for answers
  passed_for-allowed_for settings call_next key [] l = refl
  passed_for-allowed_for settings call_next key ((time, request) ∷ rest) l =
      elim (Bool-cases (is_exempt settings request)) [
        | inl exempt ↦
            rw (exempt, passed_for-allowed_for settings call_next key rest l) (omega arith)
        | inr limited ↦
            let (result, next) =
              consume (number (scope_key request)) (limit_of settings request) time l in
            rw
              (
                limited,
                passed_on-allowed result (call_next request),
                passed_for-allowed_for settings call_next key rest next,
              )
              refl
      ]

-- The application sees no more than the limit: in a run of requests, in the order of the clock and all
-- before the end of a key's window, from windows with different keys, no more requests of the key
-- are passed on than are left of its limit, however many of other clients and exempt ones come
-- between them.
pub dispatch_all-passed_for :
    {R : Type 0} (json_response : ℕ → String → List (String × String) → R)
    (set_header : String → String → R → R) (number : String → ℕ) (settings : LimitSettings)
    (call_next : HttpRequest → R) (requests : List (ℕ × HttpRequest)) (l : FixedWindowRateLimiter)
    (time key limit : ℕ) (w : Window)
    → HasUniqueKeys l.windows
    → IsOrdered time (arrivals json_response set_header number settings requests)
    → get key l.windows ≡ some w
    → IsWithin
        (w.started_at + l.window_seconds)
        key
        limit
        (arrivals json_response set_header number settings requests)
    → passed_for json_response set_header number settings key requests
        (dispatch_all json_response set_header number settings call_next requests l)
      ≤ limit - w.requests
dispatch_all-passed_for json_response set_header number settings call_next requests l time key limit
      w unique ordered found within =
    rw (passed_for-allowed_for json_response set_header number settings call_next key requests l) (
      answers-allowed (arrivals json_response set_header number settings requests) l time key limit
        w unique ordered found within)
