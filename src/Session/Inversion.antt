-- ===== src/Session/Inversion.antt =====
-- What a call that returns tells about its guards.
use test_exchange_backend.Base.{ℕ, String, Bool, true, false, Option, none, some, ◌≡◌, refl, ap}
use test_exchange_backend.Session.Defs.{
  Session, M, Result, ok, err, continue, gets, or_raise, raise_if, ◌>>=◌, ◌>>◌,
}

module _ {A B : Type 0} where
  pub or_raise-ok :
      (o : Option A) (detail : String) (code : ℕ) (f : A → M B) (s : Session) (r : B × Session)
      → (or_raise o detail code >>= f) s ≡ ok r
      → (a : A) × ((o ≡ some a) × (f a s ≡ ok r))
  unfolding or_raise ◌>>=◌
  or_raise-ok none detail code f s r h = cc
  or_raise-ok (some a) detail code f s r h = (a, (refl, h))

  pub gets-ok :
      (g : Session → A) (f : A → M B) (s : Session) (r : B × Session)
      → (gets g >>= f) s ≡ ok r
      → f (g s) s ≡ ok r
  unfolding gets ◌>>=◌
  gets-ok g f s r h = h

  pub continue-ok :
      (f : A → M B) (call : Result (A × Session)) (r : B × Session)
      → continue f call ≡ ok r
      → (a : A) × ((s : Session) × ((call ≡ ok (a, s)) × (f a s ≡ ok r)))
  continue-ok f (ok (a, s)) r h = (a, (s, (refl, h)))
  continue-ok f (err e) r h = cc

  -- a call, and what comes after it
  pub bind-ok :
      (m : M A) (f : A → M B) (s : Session) (r : B × Session)
      → (m >>= f) s ≡ ok r
      → (a : A) × ((s' : Session) × ((m s ≡ ok (a, s')) × (f a s' ≡ ok r)))
  unfolding ◌>>=◌
  bind-ok m f s r h = continue-ok f (m s) r h

module _ {A : Type 0} where
  abbrev value_or : A → Result (A × Session) → A
  value_or default (ok (a, s)) = a
  value_or default (err e) = default

  pub ok-value :
      (a b : A) (s s' : Session) → ◌≡◌ {A = Result (A × Session)} (ok (a, s)) (ok (b, s')) → a ≡ b
  ok-value a b s s' h = ap (value_or a) h

module _ {B : Type 0} where
  pub raise_if-ok :
      (b : Bool) (detail : String) (code : ℕ) (m : M B) (s : Session) (r : B × Session)
      → (raise_if b detail code >> m) s ≡ ok r
      → (b ≡ false) × (m s ≡ ok r)
  unfolding raise_if ◌>>=◌
  raise_if-ok true detail code m s r h = cc
  raise_if-ok false detail code m s r h = (refl, h)
