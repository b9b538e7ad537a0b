-- ===== src/Profiles/Seats.antt =====
-- The seats of the beta in app/services/profiles.py: the counter and the cap on new profiles.
use test_exchange_backend.Base.{
  ℕ, ◌+◌, ◌≤◌, String, Bool, false, Option, none, some, List, [], ◌∷◌, ◌≡◌, refl, arith, ◌⊎◌, inl,
  inr, length, update_if, leb, is_some, Bool-cases, ap, ◌==◌,
}
use test_exchange_backend.Model.Entities.{Profile, BetaProgramState, AuditEvent}
use test_exchange_backend.Session.{
  Session, M, insert, insert_account, insert_entry, insert_audit_event, insert_profile,
  insert_beta_state, set_beta_state, set_profile, set_balance, uuid4, ◌>>=◌, gets, pure,
}
use test_exchange_backend.Session.Keeps.{Keeps, Keeps-insert, After, keeps_rules}
use test_exchange_backend.Session.Wp.{Post, Post-Keeps, on_gets, on_raise_if}
use test_exchange_backend.Common.{add_audit_event}
use test_exchange_backend.Stability.Basics.{IsCreditStable, stable_record, stable_ensure}
use test_exchange_backend.Stability.Frames.Posting.{posting_IsCreditStable}
use test_exchange_backend.Profiles.{
  ProfileUpsert, BetaSettings, or_seed, grant_signup, register, edit, edit_or_register,
  upsert_profile, seats_claimed, new_profile,
}

-- the counter counts every profile
abbrev pub HasSeats : Session → Type 0
HasSeats s = length s.profiles ≤ seats_claimed s.beta_state s.profiles

-- and there are no more profiles than before, or than the cap
abbrev pub IsCapped : ℕ → ℕ → Session → Type 0
IsCapped before cap s = HasSeats s × ((length s.profiles ≤ before) ⊎ (length s.profiles ≤ cap))

module _ (before cap : ℕ) where
  IsCapped-IsCreditStable : IsCreditStable (IsCapped before cap)
  unfolding insert_account insert_entry set_balance uuid4
  IsCapped-IsCreditStable =
      posting_IsCreditStable (λ row. Keeps-insert _ _ (λ s h _. h))
        (λ row. Keeps-insert _ _ (λ s h _. h)) (λ user_id b. Keeps-insert _ _ (λ s h _. h))
        (record { at = λ s h. h })

  Keeps-audit : (row : AuditEvent) → Keeps (IsCapped before cap) (insert_audit_event row)
  unfolding insert_audit_event
  Keeps-audit row = Keeps-insert _ _ (λ s h _. h)

  Keeps-id : Keeps (IsCapped before cap) uuid4
  unfolding uuid4
  Keeps-id = record { at = λ s h. h }

  ruleset seat_rules =
      (keeps_rules, Keeps-audit, Keeps-id, IsCapped-IsCreditStable, stable_record, stable_ensure)

  Keeps-grant : (user_id grant : ℕ) → Keeps (IsCapped before cap) (grant_signup user_id grant)
  unfolding grant_signup
  Keeps-grant user_id grant = search seat_rules depth 20

  Keeps-audit_event :
      (user_id : ℕ) (action : String) (subject : ℕ)
      → Keeps (IsCapped before cap) (add_audit_event user_id action "profile" subject [])
  unfolding add_audit_event
  Keeps-audit_event user_id action subject = search seat_rules depth 20

module _ {B : Type 0} {Q : Session → Type 0} where
  on_insert :
      (broken : Session → Bool) (change : Session → Session) (f : Unit {0} → M B) (s : Session)
      → Post Q (f tt) (change s)
      → Post Q (insert broken change >>= f) s
  unfolding insert ◌>>=◌
  on_insert broken change f s h = record {
    at = elim (Bool-cases (broken s)) [
      | inl refused ↦ rw refused tt
      | inr accepted ↦ rw accepted h.at
    ];
  }

  on_claim :
      (state : BetaProgramState) (f : Unit {0} → M B) (s : Session)
      → Post Q (f tt) (record s { beta_state = some state })
      → Post Q (set_beta_state state >>= f) s
  unfolding set_beta_state ◌>>=◌
  on_claim state f s h = record { at = h.at }

  -- the state that is found or made counts every profile
  on_seed :
      (found : Option BetaProgramState) (f : BetaProgramState → M B) (s : Session)
      → length s.profiles ≤ seats_claimed found s.profiles
      → ((state : BetaProgramState) (s' : Session)
          → s'.profiles ≡ s.profiles
          → length s.profiles ≤ state.claimed_seats
          → Post Q (f state) s')
      → Post Q (or_seed found >>= f) s
  unfolding or_seed seats_claimed gets insert_beta_state insert pure ◌>>=◌
  on_seed none f s h rest = record {
    at = elim (Bool-cases (is_some s.beta_state)) [
      | inl there ↦ rw there tt
      | inr absent ↦ rw absent (
          (rest (record { claimed_seats = length s.profiles })
            (record s { beta_state = some (record { claimed_seats = length s.profiles }) }) refl
            h).at)
    ];
  }
  on_seed (some state) f s h rest = record { at = (rest state s refl h).at }

-- a seat is claimed where one is left, and then there is one more profile
one_more :
    (row : Profile) (rows old : List Profile) (cap claimed : ℕ)
    → rows ≡ old
    → length old ≤ claimed
    → leb cap claimed ≡ false
    → (length (row ∷ rows) ≤ claimed + 1)
      × ((length (row ∷ rows) ≤ length old) ⊎ (length (row ∷ rows) ≤ cap))
one_more row rows old cap claimed same counted room =
    let e = ap length same in
    let below : claimed + 1 ≤ cap = ground arith in (omega arith, inr (omega arith))

seats_same :
    (state : Option BetaProgramState) (rows old : List Profile)
    → length rows ≡ length old
    → length old ≤ seats_claimed state old
    → length rows ≤ seats_claimed state rows
unfolding seats_claimed
seats_same none rows old e h = omega arith
seats_same (some state) rows old e h = omega arith

cap_same :
    (rows old : List Profile) (before cap : ℕ)
    → length rows ≡ length old
    → (length old ≤ before) ⊎ (length old ≤ cap)
    → (length rows ≤ before) ⊎ (length rows ≤ cap)
cap_same rows old before cap e (inl h) = inl (omega arith)
cap_same rows old before cap e (inr h) = inr (omega arith)

register-IsCapped :
    (user_id : ℕ) (email : Option String) (payload : ProfileUpsert) (settings : BetaSettings)
    (s : Session)
    → HasSeats s
    → Post
        (IsCapped (length s.profiles) settings.public_beta_max_users)
        (register user_id email payload settings)
        s
unfolding register insert_profile seats_claimed
register-IsCapped user_id email payload settings s h =
    let cap = settings.public_beta_max_users in
    on_raise_if _ _ _ _ s λ _. on_gets _ _ s (
      on_seed s.beta_state _ s h λ state s' same counted. on_raise_if _ _ _ _ s' λ room.
        on_claim _ _ s' (
          on_insert _ _ _ _ (
            Post-Keeps _ _
              (one_more (new_profile user_id email payload) _ _ cap state.claimed_seats same counted
                room)
              (search (seat_rules, Keeps-grant, Keeps-audit_event) depth 20))))

length-update_if :
    (p : Profile → Bool) (f : Profile → Profile) (rows : List Profile)
    → length (update_if p f rows) ≡ length rows
unfolding update_if
length-update_if p f [] = refl
length-update_if p f (x ∷ rest) = let e = length-update_if p f rest in omega arith

Keeps-set_seat :
    (before cap id : ℕ) (change : Profile → Profile)
    → Keeps (IsCapped before cap) (set_profile id change)
unfolding set_profile
Keeps-set_seat before cap id change = record {
  at = λ s (seats, capped).
      let e = length-update_if (λ row. row.id == id) change s.profiles in
      (seats_same s.beta_state _ s.profiles e seats, cap_same _ s.profiles before cap e capped);
}

Keeps-edit_seat :
    (before cap : ℕ) (profile : Profile) (user_id : ℕ) (email : Option String)
    (payload : ProfileUpsert)
    → Keeps (IsCapped before cap) (edit profile user_id email payload)
unfolding edit
Keeps-edit_seat before cap profile user_id email payload =
    search (seat_rules, Keeps-set_seat, Keeps-audit_event) depth 20

edit_or_register-IsCapped :
    (user_id : ℕ) (email : Option String) (payload : ProfileUpsert) (settings : BetaSettings)
    (found : Option Profile) (s : Session)
    → HasSeats s
    → Post
        (IsCapped (length s.profiles) settings.public_beta_max_users)
        (edit_or_register user_id email payload settings found)
        s
unfolding edit_or_register
edit_or_register-IsCapped user_id email payload settings none s h =
    register-IsCapped user_id email payload settings s h
edit_or_register-IsCapped user_id email payload settings (some profile) s h =
    Post-Keeps _ s (h, inl (omega arith)) (Keeps-edit_seat _ _ profile user_id email payload)

-- The beta takes no more users than its cap: from a session whose counter, if there is one, counts
-- every profile, where the profile of a user is saved, this is so afterwards, and there are no more
-- profiles than before or no more than the cap.
pub upsert_profile-IsCapped :
    (user_id : ℕ) (email : Option String) (payload : ProfileUpsert) (settings : BetaSettings)
    (s : Session)
    → HasSeats s
    → After
        (IsCapped (length s.profiles) settings.public_beta_max_users)
        (upsert_profile user_id email payload settings s)
unfolding upsert_profile
upsert_profile-IsCapped user_id email payload settings s h =
    let saved : Post (IsCapped (length s.profiles) settings.public_beta_max_users)
        (upsert_profile user_id email payload settings) s =
      on_gets _ _ s (
        on_raise_if _ _ _ _ s
          λ _. on_gets _ _ s (edit_or_register-IsCapped user_id email payload settings _ s h)) in
    saved.at
