-- ===== src/Config/Urls.antt =====
-- The address of the database.
use test_exchange_backend.Base.{
  ℕ, String, ◌⊎◌, sym, Bool, true, false, not, ◌&&◌, ◌||◌, List, [], ◌∷◌, ◌++◌, ◌≡◌, refl, inl, inr,
  ◌==◌, ==_iff, if◌then◌else◌,
}
use mathlib.Core.Path.{subst}
use test_exchange_backend.Workflow.StorageKey.{codes, starts_with, contains}
use test_exchange_backend.Config.{
  AppSettings, accepted, problems, accept_without, is_deployed, is_postgres,
  validate_production_safety, normalize_database_url, replace_first, before, drop,
}

both : (a b : Bool) → (a && b) ≡ true → (a ≡ true) × (b ≡ true)
both true b h = (refl, h)
both false b h = cc

either : (a b : Bool) → (a || b) ≡ true → (a ≡ true) ⊎ (b ≡ true)
either true b h = inl refl
either false b h = inr h

chosen : {A : Type 0} (b : Bool) (x y z : A) → b ≡ true → (if not b then x else y) ≡ z → y ≡ z
chosen true x y z e h = h
chosen false x y z e h = cc

unproblematic :
    (b : Bool) (text : String) (rest : List String)
    → (if not b then text ∷ rest else rest) ≡ []
    → b ≡ true
unproblematic true text rest h = refl
unproblematic false text rest h = cc

starts_with-split :
    (text prefix : List ℕ)
    → starts_with text prefix ≡ true
    → (rest : List ℕ) × (text ≡ prefix ++ rest)
unfolding starts_with
starts_with-split text [] h = (text, refl)
starts_with-split [] (b ∷ prefix) h = cc
starts_with-split (a ∷ text) (b ∷ prefix) h =
    let (same, later) = both (a == b) (starts_with text prefix) h in
    let (rest, e) = starts_with-split text prefix later in (rest, rw (e, (==_iff a b).0 same) refl)

short_scheme :
    (rest : List ℕ)
    → starts_with
        (normalize_database_url (codes "postgres://" ++ rest))
        (codes "postgresql+psycopg://")
      ≡ true
unfolding normalize_database_url replace_first starts_with drop
short_scheme [] = refl
short_scheme (c ∷ rest) = refl

long_scheme :
    (rest : List ℕ)
    → starts_with
        (normalize_database_url (codes "postgresql://" ++ rest))
        (codes "postgresql+psycopg://")
      ≡ true
unfolding normalize_database_url replace_first starts_with contains before drop
long_scheme [] = refl
long_scheme (c ∷ rest) = refl

postgres_scheme :
    (url : List ℕ)
    → is_postgres url ≡ true
    → starts_with (normalize_database_url url) (codes "postgresql+psycopg://") ≡ true
unfolding is_postgres
postgres_scheme url h = elim (either _ _ h) [
  | inl short ↦
      let (rest, e) = starts_with-split url (codes "postgres://") short in
      subst (λ u. starts_with (normalize_database_url u) (codes "postgresql+psycopg://") ≡ true)
        (sym e) (short_scheme rest)
  | inr long ↦
      let (rest, e) = starts_with-split url (codes "postgresql://") long in
      subst (λ u. starts_with (normalize_database_url u) (codes "postgresql+psycopg://") ≡ true)
        (sym e) (long_scheme rest)
]

accepted-same :
    (s s' : AppSettings) (found : List String)
    → accept_without s found ≡ accepted s'
    → (s ≡ s') × (found ≡ [])
unfolding accept_without
accepted-same s s' [] h = (cc, refl)
accepted-same s s' (p ∷ rest) h = cc

no_problem-postgres : (s : AppSettings) → problems s ≡ [] → is_postgres s.database_url ≡ true
unfolding problems
no_problem-postgres s h = unproblematic (is_postgres s.database_url) _ _ h

-- Settings that are accepted for production or staging make the engine use PostgreSQL by psycopg:
-- the normalised address of their database begins with its scheme.
pub validate-psycopg :
    (lower : List ℕ → List ℕ) (s s' : AppSettings)
    → validate_production_safety lower s ≡ accepted s'
    → is_deployed lower s ≡ true
    → starts_with (normalize_database_url s'.database_url) (codes "postgresql+psycopg://") ≡ true
unfolding validate_production_safety
validate-psycopg lower s s' h deployed =
    let checked : accept_without s (problems s) ≡ accepted s' =
      chosen (is_deployed lower s) _ _ _ deployed h in
    let (same, clean) = accepted-same s s' (problems s) checked in
    subst
      (λ t.
        starts_with (normalize_database_url t.database_url) (codes "postgresql+psycopg://") ≡ true)
      same (postgres_scheme s.database_url (no_problem-postgres s clean))
