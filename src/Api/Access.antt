-- ===== src/Api/Access.antt =====
-- Who can change anything: suspended users and users who are no moderators.
use test_exchange_backend.Base.{
  ℕ, String, inl, inr, ◌⊎◌, Bool, true, false, some, ◌≡◌, refl, find, any, ◌==◌,
}
use test_exchange_backend.Model.Entities.{Profile}
use test_exchange_backend.Session.{
  Session, M, Error, ok, err, ◌>>◌, domain_error, gets, raise_if, ◌>>=◌, Result,
}
use test_exchange_backend.Api.Requests.{
  CurrentUser, Settings, Request, Call, get_active_user, get_moderator, route, begin, is_suspended,
  commit_or_rollback, handle,
}

-- the requests that ask for a user
unfoldable pub asks_for_user : Request → Bool
asks_for_user (Request.waitlist normalize email) = false
asks_for_user _ = true

-- the requests of moderators
unfoldable pub asks_for_moderator : Request → Bool
asks_for_moderator (Request.evidence_url dispute_id evidence_id post) = true
asks_for_moderator (Request.claim dispute_id) = true
asks_for_moderator (Request.resolve dispute_id payload) = true
asks_for_moderator (Request.suspend participant_id reason) = true
asks_for_moderator (Request.restore participant_id) = true
asks_for_moderator _ = false

-- the call raises, whatever comes after it
abbrev pub Raises : {A : Type 0} → M A → Session → Type 0
Raises {A} m s = (e : Error) × (m s ≡ err e)

module _ {A B : Type 0} where
  pub Raises-bind : (m : M A) (f : A → M B) (s : Session) → Raises m s → Raises (m >>= f) s
  unfolding ◌>>=◌
  Raises-bind m f s (e, h) = (e, rw h refl)

refused :
    (user : CurrentUser) (s : Session) (p : Profile)
    → find (λ q. q.id == user.id) s.profiles ≡ some p
    → p.is_suspended ≡ true
    → Raises (get_active_user user) s
unfolding get_active_user gets raise_if is_suspended ◌>>=◌
refused user s p found suspended = (
  domain_error "This account is suspended. Contact support if you believe this is an error." 403,
  rw (found, suspended) refl,
)

raise_if-Raises :
    (b : Bool) (detail : String) (code : ℕ) (s : Session)
    → (raise_if b detail code s ≡ ok (tt, s)) ⊎ Raises (raise_if b detail code) s
unfolding raise_if
raise_if-Raises true detail code s = inr (domain_error detail code, refl)
raise_if-Raises false detail code s = inl refl

pub then-Raises :
    {B : Type 0} (m : M (Unit {0})) (n : M B) (s : Session)
    → (m s ≡ ok (tt, s)) ⊎ Raises m s
    → Raises n s
    → Raises (m >> n) s
unfolding ◌>>=◌
then-Raises m n s (inl passes) (e, h) = (e, rw (passes, h) refl)
then-Raises m n s (inr raises) h = Raises-bind m (λ _. n) s raises

pub get_active_user-Raises :
    (user : CurrentUser) (s : Session)
    → (get_active_user user s ≡ ok (tt, s)) ⊎ Raises (get_active_user user) s
unfolding get_active_user gets ◌>>=◌
get_active_user-Raises user s =
    raise_if-Raises (is_suspended (find (λ q. q.id == user.id) s.profiles))
      "This account is suspended. Contact support if you believe this is an error." 403 s

then-or_Raises :
    (m n : M (Unit {0})) (s : Session)
    → (m s ≡ ok (tt, s)) ⊎ Raises m s
    → (n s ≡ ok (tt, s)) ⊎ Raises n s
    → ((m >> n) s ≡ ok (tt, s)) ⊎ Raises (m >> n) s
unfolding ◌>>=◌
then-or_Raises m n s (inl passes) (inl h) = inl (rw (passes, h) refl)
then-or_Raises m n s (inl passes) (inr h) = inr (then-Raises m n s (inl passes) h)
then-or_Raises m n s (inr raises) h = inr (Raises-bind m (λ _. n) s raises)

pub get_moderator-Raises :
    (settings : Settings) (user : CurrentUser) (s : Session)
    → (get_moderator settings user s ≡ ok (tt, s)) ⊎ Raises (get_moderator settings user) s
unfolding get_moderator
get_moderator-Raises settings user s =
    then-or_Raises (get_active_user user) _ s (get_active_user-Raises user s)
      (raise_if-Raises _ _ _ s)

last_refused :
    (b : Bool) (detail : String) (code : ℕ) (s : Session)
    → b ≡ true
    → raise_if b detail code s ≡ err (domain_error detail code)
unfolding raise_if
last_refused true detail code s h = refl
last_refused false detail code s h = cc

pub no_moderator :
    (settings : Settings) (user : CurrentUser) (s : Session)
    → any (λ id. id == user.id) settings.moderator_user_ids ≡ false
    → Raises (get_moderator settings user) s
unfolding get_moderator
no_moderator settings user s absent =
    then-Raises (get_active_user user) _ s (get_active_user-Raises user s)
      (domain_error "Moderator access required" 403, last_refused _ _ _ s (rw absent refl))

suspended_route :
    (settings : Settings) (user : CurrentUser) (request : Request) (s : Session) (p : Profile)
    → asks_for_user request ≡ true
    → find (λ q. q.id == user.id) s.profiles ≡ some p
    → p.is_suspended ≡ true
    → Raises (route settings user request) s
unfolding route asks_for_user get_moderator
suspended_route settings user (Request.waitlist normalize email) s p asks found suspended = cc
suspended_route settings user (Request.claim dispute_id) s p asks found suspended =
    Raises-bind _ _ s (Raises-bind _ _ s (refused user s p found suspended))
suspended_route settings user (Request.evidence_url dispute_id evidence_id post) s p asks found
      suspended =
    Raises-bind _ _ s (Raises-bind _ _ s (refused user s p found suspended))
suspended_route settings user (Request.resolve dispute_id payload) s p asks found suspended =
    Raises-bind _ _ s (Raises-bind _ _ s (refused user s p found suspended))
suspended_route settings user (Request.suspend participant_id reason) s p asks found suspended =
    Raises-bind _ _ s (Raises-bind _ _ s (refused user s p found suspended))
suspended_route settings user (Request.restore participant_id) s p asks found suspended =
    Raises-bind _ _ s (Raises-bind _ _ s (refused user s p found suspended))
suspended_route settings user _ s p asks found suspended =
    Raises-bind _ _ s (refused user s p found suspended)

moderator_route :
    (settings : Settings) (user : CurrentUser) (request : Request) (s : Session)
    → asks_for_moderator request ≡ true
    → any (λ id. id == user.id) settings.moderator_user_ids ≡ false
    → Raises (route settings user request) s
unfolding route asks_for_moderator
moderator_route settings user (Request.claim dispute_id) s asks absent =
    Raises-bind _ _ s (no_moderator settings user s absent)
moderator_route settings user (Request.evidence_url dispute_id evidence_id post) s asks absent =
    Raises-bind _ _ s (no_moderator settings user s absent)
moderator_route settings user (Request.resolve dispute_id payload) s asks absent =
    Raises-bind _ _ s (no_moderator settings user s absent)
moderator_route settings user (Request.suspend participant_id reason) s asks absent =
    Raises-bind _ _ s (no_moderator settings user s absent)
moderator_route settings user (Request.restore participant_id) s asks absent =
    Raises-bind _ _ s (no_moderator settings user s absent)
moderator_route settings user _ s asks absent = cc

pub rolled_back :
    (s : Session) (r : Result (Unit {0} × Session)) (e : Error)
    → r ≡ err e
    → commit_or_rollback s r ≡ s
unfolding commit_or_rollback
rolled_back s r e h = rw h refl

-- A user whose profile is suspended changes nothing: whatever request of theirs comes, but for the
-- public waitlist, the database stays as it was.
pub handle-suspended :
    (settings : Settings) (s : Session) (c : Call) (p : Profile)
    → asks_for_user c.request ≡ true
    → find (λ q. q.id == c.user.id) s.profiles ≡ some p
    → p.is_suspended ≡ true
    → handle settings s c ≡ s
unfolding handle begin
handle-suspended settings s c p asks found suspended =
    let (e, h) =
      suspended_route settings c.user c.request (begin c.supply s) p asks found suspended in
    rolled_back s _ e h

-- A user who is not on the list of moderators claims no dispute, resolves none, suspends and restores
-- nobody, and gets no link to evidence: the database stays as it was.
pub handle-no_moderator :
    (settings : Settings) (s : Session) (c : Call)
    → asks_for_moderator c.request ≡ true
    → any (λ id. id == c.user.id) settings.moderator_user_ids ≡ false
    → handle settings s c ≡ s
unfolding handle begin
handle-no_moderator settings s c asks absent =
    let (e, h) = moderator_route settings c.user c.request (begin c.supply s) asks absent in
    rolled_back s _ e h
