-- ===== src/Session/Wp.antt =====
-- What holds after a call, step by step from the state it starts in: the facts that the reads and the
-- guards establish are at hand for the rest.
use test_exchange_backend.Base.{ℕ, ◌+◌, String, Bool, true, false, Option, none, some, ◌≡◌, refl}
use test_exchange_backend.Session.Defs.{
  Session, Result, ok, err, continue, M, gets, or_raise, raise_if, uuid4, now, ◌>>=◌,
}
use test_exchange_backend.Session.Keeps.{After, Keeps}

-- `Q` holds where the call returns from `s`.
pub record Post {A : Type 0} (Q : Session → Type 0) (m : M A) (s : Session) : Type 0 where
  pub at : After Q (m s)

module _ {A : Type 0} {Q : Session → Type 0} where
  pub Post-Keeps : (m : M A) (s : Session) → Q s → Keeps Q m → Post Q m s
  Post-Keeps m s h keep = record { at = keep.at s h }

module _ {A B : Type 0} {Q : Session → Type 0} where
  pub on_gets :
      (g : Session → A) (f : A → M B) (s : Session) → Post Q (f (g s)) s → Post Q (gets g >>= f) s
  unfolding gets ◌>>=◌
  on_gets g f s h = record { at = h.at }

  pub on_or_raise :
      (o : Option A) (detail : String) (code : ℕ) (f : A → M B) (s : Session)
      → ((a : A) → o ≡ some a → Post Q (f a) s)
      → Post Q (or_raise o detail code >>= f) s
  unfolding or_raise ◌>>=◌
  on_or_raise none detail code f s h = record { at = tt }
  on_or_raise (some a) detail code f s h = record { at = (h a refl).at }

  After-go :
      (f : A → M B) (r : Result (A × Session))
      → After Q r
      → ((a : A) → Keeps Q (f a))
      → After Q (continue f r)
  After-go f (ok (a, s)) h keep = (keep a).at s h
  After-go f (err e) h keep = tt

  -- a call after which `Q` holds, and the rest keeps it
  pub on_then :
      (m : M A) (f : A → M B) (s : Session)
      → Post Q m s
      → ((a : A) → Keeps Q (f a))
      → Post Q (m >>= f) s
  unfolding ◌>>=◌
  on_then m f s h keep = record { at = After-go f (m s) h.at keep }

module _ {B : Type 0} {Q : Session → Type 0} where
  pub on_raise_if :
      (b : Bool) (detail : String) (code : ℕ) (f : Unit {0} → M B) (s : Session)
      → (b ≡ false → Post Q (f tt) s)
      → Post Q (raise_if b detail code >>= f) s
  unfolding raise_if ◌>>=◌
  on_raise_if true detail code f s h = record { at = tt }
  on_raise_if false detail code f s h = record { at = (h refl).at }

  pub on_now :
      (f : ℕ → M B) (s : Session)
      → Post Q (f (s.clock s.ticks)) (record s { ticks = s.ticks + 1 })
      → Post Q (now >>= f) s
  unfolding now ◌>>=◌
  on_now f s h = record { at = h.at }

  pub on_uuid4 :
      (f : ℕ → M B) (s : Session)
      → Post Q (f (s.uuids s.drawn)) (record s { drawn = s.drawn + 1 })
      → Post Q (uuid4 >>= f) s
  unfolding uuid4 ◌>>=◌
  on_uuid4 f s h = record { at = h.at }

pub ruleset wp_rules = (on_gets, on_or_raise, on_raise_if, on_now, on_uuid4)
