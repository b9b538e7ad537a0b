-- ===== src/Session/Reads.antt =====
-- Operations that only read: where one returns, the session is as it was.
use mathlib.Core.Path.{subst}
use test_exchange_backend.Base.{
  String, ℕ, Bool, true, false, Option, none, some, ◌≡◌, refl, sym, if◌then◌else◌,
}
use test_exchange_backend.Session.Defs.{
  Session, Error, Result, ok, err, M, pure, throw, gets, or_raise, raise_if, require_valid,
  continue, ◌>>=◌,
}
use test_exchange_backend.Session.Keeps.{Keeps, After}
use test_exchange_backend.Session.Inversion.{bind-ok}

pub record Reads {A : Type 0} (m : M A) : Type 0 where
  pub at : (s : Session) → After (λ s'. s ≡ s') (m s)

module _ {A : Type 0} where
  pub Reads-pure : (a : A) → Reads (pure a)
  unfolding pure
  Reads-pure a = record { at = λ s. refl }

  pub Reads-throw : (e : Error) → Reads (throw {A = A} e)
  unfolding throw
  Reads-throw e = record { at = λ s. tt }

  pub Reads-gets : (f : Session → A) → Reads (gets f)
  unfolding gets
  Reads-gets f = record { at = λ s. refl }

  pub Reads-or_raise : (o : Option A) (detail : String) (code : ℕ) → Reads (or_raise o detail code)
  unfolding or_raise
  Reads-or_raise none detail code = record { at = λ s. tt }
  Reads-or_raise (some a) detail code = record { at = λ s. refl }

  pub Reads-if : (b : Bool) (m n : M A) → Reads m → Reads n → Reads (if b then m else n)
  Reads-if true m n km kn = km
  Reads-if false m n km kn = kn

pub Reads-raise_if : (b : Bool) (detail : String) (code : ℕ) → Reads (raise_if b detail code)
unfolding raise_if
Reads-raise_if true detail code = record { at = λ s. tt }
Reads-raise_if false detail code = record { at = λ s. refl }

pub Reads-require_valid : (b : Bool) → Reads (require_valid b)
unfolding require_valid
Reads-require_valid true = record { at = λ s. refl }
Reads-require_valid false = record { at = λ s. tt }

module _ {A B : Type 0} where
  After-read :
      (f : A → M B) (s : Session) (r : Result (A × Session))
      → ((a : A) → Reads (f a))
      → After (λ s'. s ≡ s') r
      → After (λ s'. s ≡ s') (continue f r)
  After-read f s (ok (a, s')) kf h = subst (λ t. After (λ s''. s ≡ s'') (f a t)) h ((kf a).at s)
  After-read f s (err e) kf h = tt

  pub Reads-bind : (m : M A) (f : A → M B) → Reads m → ((a : A) → Reads (f a)) → Reads (m >>= f)
  unfolding ◌>>=◌
  Reads-bind m f km kf = record { at = λ s. After-read f s (m s) kf (km.at s) }

pub ruleset reads_rules = (
  Reads-pure, Reads-throw, Reads-gets, Reads-or_raise, Reads-if, Reads-raise_if,
  Reads-require_valid, Reads-bind,
)

module _ {A : Type 0} where
  After-same :
      (P : Session → Type 0) (s : Session) (r : Result (A × Session))
      → P s
      → After (λ s'. s ≡ s') r
      → After P r
  After-same P s (ok (a, s')) h same = subst P same h
  After-same P s (err e) h same = tt

module _ {A : Type 0} {P : Session → Type 0} where
  -- what only reads keeps everything
  pub Keeps-Reads : (m : M A) → Reads m → Keeps P m
  Keeps-Reads m reads = record { at = λ s h. After-same P s (m s) h (reads.at s) }

module _ {A : Type 0} where
  After-ok :
      (P : Session → Type 0) (call : Result (A × Session)) (a : A) (s' : Session)
      → call ≡ ok (a, s')
      → After P call
      → P s'
  After-ok P call a s' h after = subst (λ (r : Result (A × Session)). After P r) h after

module _ {A B : Type 0} where
  -- a reading call that returns, and what comes after it, from the same session
  pub read-ok :
      (m : M A) (f : A → M B) (s : Session) (r : B × Session)
      → Reads m
      → (m >>= f) s ≡ ok r
      → (a : A) × ((m s ≡ ok (a, s)) × (f a s ≡ ok r))
  read-ok m f s r reads h =
      let (a, (s', (h1, h2))) = bind-ok m f s r h in
      let same : s' ≡ s = sym (After-ok (λ s'. s ≡ s') (m s) a s' h1 (reads.at s)) in
      (
        a,
        (
          subst (λ (t : Session). m s ≡ ok (a, t)) same h1,
          subst (λ (t : Session). f a t ≡ ok r) same h2,
        ),
      )
