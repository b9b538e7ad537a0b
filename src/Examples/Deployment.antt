-- ===== src/Examples/Deployment.antt =====
-- The theorems on settings, storage policies and the middleware.
use text.Mathlib.Text.{◌==◌ as str_eq}
use test_exchange_backend.Base.{
  ℕ, ◌-◌, ◌≤◌, String, true, some, List, [], ◌∷◌, ◌≡◌, refl, arith, if◌then◌else◌, any, all, not,
  ◌&&◌, none, ◌++◌, ◌==◌, count_if, reverse,
}
use test_exchange_backend.Workflow.StorageKey.{codes, codes_eq, starts_with, contains}
use test_exchange_backend.Quality.Texts.{strip, lstrip}
use test_exchange_backend.Config.{
  AppSettings, accepted, validate_production_safety, problems, is_missing, is_local, is_postgres,
  is_deployed, accept_without, is_empty, normalize_database_url,
}
use test_exchange_backend.Config.Urls.{validate-psycopg}
use test_exchange_backend.Application.{request_id-IsLabelled, request_id, IsLabelled}
use test_exchange_backend.Waitlist.Addresses.{
  validate_email, validate_email-parts, is_address, is_domain, rpartition,
}
use test_exchange_backend.RateLimit.{FixedWindowRateLimiter, get}
use test_exchange_backend.RateLimit.Cleaning.{HasUniqueKeys, with_key}
use test_exchange_backend.RateLimit.Middleware.{
  LimitSettings, HttpRequest, is_exempt, limit_of, scope_key, is_write, request_identity, arrivals,
  dispatch_all, passed_for, dispatch_all-passed_for,
}
use test_exchange_backend.Examples.Databases.{is_blank_char, same_text}

abbrev production : AppSettings
production = record {
  app_env = codes "production";
  database_url = codes "postgres://db/app";
  supabase_url = some (codes "https://example.org");
  cors_origins = codes "https://example.org" ∷ [];
  moderator_user_ids = 9 ∷ [];
  sentry_dsn = some (codes "https://sentry.example.org");
}

is_safe : validate_production_safety same_text production ≡ accepted production
unfolding validate_production_safety problems is_missing is_local is_postgres is_deployed
    accept_without is_empty codes_eq starts_with contains any
is_safe = refl

deployed : is_deployed same_text production ≡ true
unfolding is_deployed codes_eq
deployed = refl

validate-psycopg_example :
    starts_with (normalize_database_url production.database_url) (codes "postgresql+psycopg://")
    ≡ true
validate-psycopg_example = validate-psycopg same_text production production is_safe deployed

abbrev limiter : FixedWindowRateLimiter
limiter = record {
  window_seconds = 60;
  windows = (1, record { started_at = 90; requests = 1 }) ∷ [];
  requests_since_cleanup = 0;
}

limiter-HasUniqueKeys : HasUniqueKeys limiter.windows
unfolding with_key count_if
limiter-HasUniqueKeys key = ground arith

abbrev limits : LimitSettings
limits = record {
  rate_limit_enabled = true;
  rate_limit_read_requests = 3;
  rate_limit_write_requests = 2;
}

-- a status code stands for a response, and key 1 for the writes of one host
abbrev json : ℕ → String → List (String × String) → ℕ
json code detail headers = code

abbrev same_response : String → String → ℕ → ℕ
same_response name value response = response

abbrev number : String → ℕ
number key = if str_eq key "ip:10.0.0.1:write" then 1 else 2

abbrev post : HttpRequest
post = record { method = "POST"; path = "/api/v1/campaigns"; client_host = some "10.0.0.1" }

abbrev health : HttpRequest
health = record { method = "GET"; path = "/health"; client_host = some "10.0.0.1" }

abbrev requests : List (ℕ × HttpRequest)
requests = (100, post) ∷ (101, health) ∷ (102, post) ∷ []

asked :
    arrivals json same_response number limits requests
    ≡ record { key = 1; limit = 2; time = 100 } ∷ record { key = 1; limit = 2; time = 102 } ∷ []
unfolding arrivals is_exempt limit_of scope_key is_write request_identity any
asked = refl

found : get 1 limiter.windows ≡ some (record { started_at = 90; requests = 1 })
unfolding get
found = refl

dispatch_all-passed_for_example :
    passed_for json same_response number limits 1 requests
      (dispatch_all json same_response number limits (λ request. 200) requests limiter)
    ≤ 2 - 1
dispatch_all-passed_for_example =
    dispatch_all-passed_for json same_response number limits (λ request. 200) requests limiter 100 1
      2 (record { started_at = 90; requests = 1 }) limiter-HasUniqueKeys
      (rw asked (omega arith, (omega arith, tt))) found
      (rw asked (omega arith, λ _. refl, (omega arith, λ _. refl, tt)))

-- a response as the identifier in its header
abbrev kept_header : String → List ℕ → List ℕ → List ℕ
kept_header name value response = value

request_id-IsLabelled_example :
    IsLabelled kept_header some
      (request_id kept_header is_blank_char (some (codes " req-7 ")) (codes "f0") "/health" some)
request_id-IsLabelled_example =
    request_id-IsLabelled is_blank_char kept_header (some (codes " req-7 ")) (codes "f0") "/health"
      some (omega arith, omega arith)

stripped_address :
    same_text (strip is_blank_char (codes " ada@x.org ")) ≡ codes "ada" ++ b'@' ∷ codes "x.org"
unfolding strip lstrip reverse
stripped_address = refl

one_at : all (λ c. not (c == b'@')) (codes "x.org") ≡ true
unfolding all
one_at = refl

validate_email-parts_example : validate_email is_blank_char same_text (codes " ada@x.org ") ≡ (
    if not (is_empty (codes "ada"))
      && (any (λ c. c == b'.') (codes "x.org") && not (starts_with (codes "x.org") (b'.' ∷ [])))
    then some (codes "ada" ++ b'@' ∷ codes "x.org")
    else none)
validate_email-parts_example =
    validate_email-parts is_blank_char same_text (codes " ada@x.org ") (codes "ada") (codes "x.org")
      stripped_address one_at

refuses_two_dots : validate_email is_blank_char same_text (codes "ada@.org") ≡ none
unfolding validate_email is_address is_domain rpartition strip lstrip reverse is_empty starts_with
    any
refuses_two_dots = refl
