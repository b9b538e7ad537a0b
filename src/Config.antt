-- ===== src/Config.antt =====
-- app/core/config.py, and `normalize_database_url` of app/db/session.py. A text is walked as its code
-- points. What is white space and what lower case makes of a text come from Python's Unicode tables
-- and are parameters.
pub mod Urls
use test_exchange_backend.Base.{
  ℕ, zero, suc, String, Bool, true, false, not, ◌&&◌, ◌||◌, Option, none, some, List, [], ◌∷◌, ◌++◌,
  ◌==◌, if◌then◌else◌, any, length,
}
use test_exchange_backend.Workflow.StorageKey.{codes, codes_eq, starts_with, contains}
use test_exchange_backend.EvidenceLinks.Quoting.{rstrip_slash}

-- the fields of the settings that the code tests or makes addresses of
pub record AppSettings : Type 0 where
  pub app_env : List ℕ
  pub database_url : List ℕ
  pub supabase_url : Option (List ℕ)
  pub cors_origins : List (List ℕ)
  pub moderator_user_ids : List ℕ
  pub sentry_dsn : Option (List ℕ)

unfoldable pub is_empty : List ℕ → Bool
is_empty [] = true
is_empty (c ∷ text) = false

-- `not value`, of a text that may be None
unfoldable pub is_missing : Option (List ℕ) → Bool
unfolding is_empty
is_missing none = true
is_missing (some text) = is_empty text

unfoldable pub is_local : List ℕ → Bool
is_local origin = contains (codes "localhost") origin || contains (codes "127.0.0.1") origin

-- `database_url.startswith(("postgres://", "postgresql://"))`
unfoldable pub is_postgres : List ℕ → Bool
is_postgres url = starts_with url (codes "postgres://") || starts_with url (codes "postgresql://")

-- `if condition: problems.append(text)`
abbrev problem_if : Bool → String → List String → List String
problem_if b text rest = if b then text ∷ rest else rest

unfoldable pub problems : AppSettings → List String
unfolding is_missing is_local is_postgres
problems s = problem_if (not (is_postgres s.database_url)) "DATABASE_URL must use PostgreSQL" (
    problem_if (is_missing s.supabase_url) "SUPABASE_URL is required" (
      problem_if (any is_local s.cors_origins) "CORS_ORIGINS cannot contain localhost" (
        problem_if (length s.moderator_user_ids == 0)
          "MODERATOR_USER_IDS must contain at least one moderator"
          (problem_if (is_missing s.sentry_dsn) "SENTRY_DSN is required" []))))

-- `self.app_env.lower() in {"production", "staging"}`
unfoldable pub is_deployed : (List ℕ → List ℕ) → AppSettings → Bool
is_deployed lower s =
    codes_eq (lower s.app_env) (codes "production") || codes_eq (lower s.app_env) (codes "staging")

-- the validator's answer: the settings, or the problems of the ValueError
pub data Checked : Type 0 where
  accepted : AppSettings → Checked
  refused : List String → Checked

unfoldable pub accept_without : AppSettings → List String → Checked
accept_without s [] = accepted s
accept_without s (problem ∷ rest) = refused (problem ∷ rest)

unfoldable pub validate_production_safety : (List ℕ → List ℕ) → AppSettings → Checked
unfolding problems is_deployed accept_without
validate_production_safety lower s =
    if not (is_deployed lower s) then accepted s else accept_without s (problems s)

-- none is the ValueError
unfoldable pub supabase_issuer : AppSettings → Option (List ℕ)
unfolding is_missing
supabase_issuer s = elim s.supabase_url [
  | none ↦ none
  | some url ↦ if is_missing (some url) then none else some (rstrip_slash url ++ codes "/auth/v1")
]

abbrev with_suffix : Option (List ℕ) → List ℕ → Option (List ℕ)
with_suffix none suffix = none
with_suffix (some text) suffix = some (text ++ suffix)

unfoldable pub supabase_jwks_url : AppSettings → Option (List ℕ)
supabase_jwks_url s = with_suffix (supabase_issuer s) (codes "/.well-known/jwks.json")

unfoldable pub drop : ℕ → List ℕ → List ℕ
drop zero text = text
drop (suc n) [] = []
drop (suc n) (c ∷ text) = drop n text

-- `text.replace(old, new, 1)`
unfoldable pub replace_first : List ℕ → List ℕ → List ℕ → List ℕ
unfolding drop
replace_first old new [] = if starts_with [] old then new else []
replace_first old new (c ∷ text) =
    let later = replace_first old new text in
    if starts_with (c ∷ text) old then new ++ drop (length old) (c ∷ text) else c ∷ later

-- `text.split(part, 1)[0]`
unfoldable pub before : List ℕ → List ℕ → List ℕ
before part [] = []
before part (c ∷ text) =
    let rest = before part text in if starts_with (c ∷ text) part then [] else c ∷ rest

unfoldable pub normalize_database_url : List ℕ → List ℕ
unfolding replace_first before
normalize_database_url url =
    if starts_with url (codes "postgres://")
    then replace_first (codes "postgres://") (codes "postgresql+psycopg://") url
    else if starts_with url (codes "postgresql://")
        && not (contains (codes "+") (before (codes "://") url))
    then replace_first (codes "postgresql://") (codes "postgresql+psycopg://") url
    else url
