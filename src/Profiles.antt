-- ===== src/Profiles.antt =====
-- app/services/profiles.py: registration under the public-beta cap, the waitlist, and suspension.
pub mod Seats
use text.Mathlib.Text.{◌==◌ as str_eq}
use test_exchange_backend.Base.{
  ℕ, ◌+◌, ◌-◌, String, Bool, true, false, not, ◌||◌, Option, none, some, List, [], ◌∷◌, ◌==◌, ltb,
  leb, if◌then◌else◌, find, length,
}
use test_exchange_backend.Base.Int.{pos}
use test_exchange_backend.Model.Enums.{CreditEntryType}
use test_exchange_backend.Model.Keys.{profile_signup_grant}
use test_exchange_backend.Model.Entities.{Profile, BetaProgramState, WaitlistEntry, Json}
use test_exchange_backend.Session.{
  Session, M, Result, ok, err, integrity_error, gets, or_raise, raise_if, now, uuid4,
  insert_profile, insert_beta_state, insert_waitlist_entry, set_profile, set_beta_state, pure,
  ◌>>=◌, ◌>>◌,
}
use test_exchange_backend.Common.{add_audit_event}
use test_exchange_backend.Credits.{ensure_credit_account, record_credit_entry}

-- `ProfileUpsert`
pub record ProfileUpsert : Type 0 where
  pub username : String
  pub display_name : String
  pub bio : Option String
  pub avatar_url : Option String

-- the settings that registration reads
pub record BetaSettings : Type 0 where
  pub signup_credit_grant : ℕ
  pub public_beta_enabled : Bool
  pub public_beta_max_users : ℕ

-- `username_owner is not None and username_owner.id != user_id`
unfoldable pub taken_by_other : ℕ → Option Profile → Bool
taken_by_other user_id none = false
taken_by_other user_id (some p) = not (p.id == user_id)

unfoldable pub new_profile : ℕ → Option String → ProfileUpsert → Profile
new_profile user_id email payload = record {
  id = user_id;
  email = email;
  username = payload.username;
  display_name = payload.display_name;
  bio = payload.bio;
  avatar_url = payload.avatar_url;
  is_suspended = false;
  suspended_at = none;
  suspension_reason = none;
}

-- the singleton, made from the number of profiles where it is missing
unfoldable pub or_seed : Option BetaProgramState → M BetaProgramState
or_seed (some state) = pure state
or_seed none = do
  claimed ← gets (λ s. length s.profiles)
  insert_beta_state (record { claimed_seats = claimed })
  pure (record { claimed_seats = claimed })

-- a grant of zero posts no entry
unfoldable pub grant_signup : ℕ → ℕ → M (Unit {0})
grant_signup user_id grant =
    if ltb 0 grant
    then (do
      record_credit_entry (record {
        user_id = user_id;
        delta = pos grant;
        entry_type = CreditEntryType.signup_grant;
        idempotency_key = profile_signup_grant user_id;
        reference_type = some "profile";
        reference_id = some user_id;
        note = some "Public beta starting credits";
        created_by = some user_id;
      })
      pure tt)
    else pure tt

-- the branch of `upsert_profile` for a user with no profile
unfoldable pub register : ℕ → Option String → ProfileUpsert → BetaSettings → M Profile
unfolding new_profile or_seed grant_signup
register user_id email payload settings = do
  raise_if (not settings.public_beta_enabled) "Public beta registration is temporarily paused" 403
  found ← gets (λ s. s.beta_state)
  state ← or_seed found
  raise_if (leb settings.public_beta_max_users state.claimed_seats)
      "The public beta is full; join the waitlist for the next opening" 409
  set_beta_state (record { claimed_seats = state.claimed_seats + 1 })
  insert_profile (new_profile user_id email payload)
  ensure_credit_account user_id
  grant_signup user_id settings.signup_credit_grant
  add_audit_event user_id "profile.created" "profile" user_id []
  pure (new_profile user_id email payload)

unfoldable pub edit : Profile → ℕ → Option String → ProfileUpsert → M Profile
edit profile user_id email payload = do
  let change = λ (p : Profile). record p {
    email = email;
    username = payload.username;
    display_name = payload.display_name;
    bio = payload.bio;
    avatar_url = payload.avatar_url;
  }
  set_profile user_id change
  add_audit_event user_id "profile.updated" "profile" user_id []
  pure (change profile)

unfoldable pub edit_or_register :
    ℕ → Option String → ProfileUpsert → BetaSettings → Option Profile → M Profile
edit_or_register user_id email payload settings none = register user_id email payload settings
edit_or_register user_id email payload settings (some profile) = edit profile user_id email payload

unfoldable pub upsert_profile : ℕ → Option String → ProfileUpsert → BetaSettings → M Profile
unfolding taken_by_other edit edit_or_register
upsert_profile user_id email payload settings = do
  username_owner ← gets (λ s. find (λ p. str_eq p.username payload.username) s.profiles)
  raise_if (taken_by_other user_id username_owner) "That username is already taken" 409
  profile ← gets (λ s. find (λ p. p.id == user_id) s.profiles)
  edit_or_register user_id email payload settings profile

unfoldable pub seats_claimed : Option BetaProgramState → List Profile → ℕ
seats_claimed none profiles = length profiles
seats_claimed (some state) profiles = state.claimed_seats

-- claimed seats, remaining seats, and whether the beta takes nobody
unfoldable pub beta_status : Bool → ℕ → Session → ℕ × ℕ × Bool
unfolding seats_claimed
beta_status enabled max_users s =
    let claimed = seats_claimed s.beta_state s.profiles in
    (claimed, (if enabled then max_users - claimed else 0), not enabled || leb max_users claimed)

-- the entry that another transaction has added meanwhile, or the exception once more
unfoldable pub existing_or_reraise :
    Session → Option WaitlistEntry → Result (WaitlistEntry × Session)
existing_or_reraise s none = err integrity_error
existing_or_reraise s (some existing) = ok (existing, s)

-- `except IntegrityError`: the savepoint is rolled back, and the entry is looked up once more
unfoldable pub retry :
    String → Session → Result (WaitlistEntry × Session) → Result (WaitlistEntry × Session)
unfolding existing_or_reraise
retry email s (ok r) = ok r
retry email s (err integrity_error) =
    existing_or_reraise s (find (λ w. str_eq w.email email) s.waitlist)
retry email s (err e) = err e

unfoldable pub add_entry : String → M WaitlistEntry
add_entry email = do
  entry_id ← uuid4
  insert_waitlist_entry (record { id = entry_id; email = email })
  pure (record { id = entry_id; email = email })

unfoldable pub existing_or_add : String → Option WaitlistEntry → M WaitlistEntry
existing_or_add email (some existing) s = ok (existing, s)
existing_or_add email none s = retry email s (add_entry email s)

unfoldable pub join_waitlist : String → M WaitlistEntry
unfolding retry add_entry existing_or_add
join_waitlist email = do
  existing ← gets (λ s. find (λ w. str_eq w.email email) s.waitlist)
  existing_or_add email existing

unfoldable pub get_participant : ℕ → M Profile
get_participant participant_id = do
  found ← gets (λ s. find (λ p. p.id == participant_id) s.profiles)
  or_raise found "Participant not found" 404

unfoldable pub suspend_participant : ℕ → ℕ → String → M Profile
unfolding get_participant
suspend_participant participant_id moderator_id reason = do
  raise_if (participant_id == moderator_id) "Moderators cannot suspend their own account" 409
  profile ← get_participant participant_id
  t ← now
  let change = λ (p : Profile). record p {
    is_suspended = true;
    suspended_at = some t;
    suspension_reason = some reason;
  }
  set_profile participant_id change
  add_audit_event moderator_id "profile.suspended" "profile" participant_id
      (("reason", Json.text reason) ∷ [])
  pure (change profile)

unfoldable pub restore_participant : ℕ → ℕ → M Profile
unfolding get_participant
restore_participant participant_id moderator_id = do
  profile ← get_participant participant_id
  let change = λ (p : Profile). record p {
    is_suspended = false;
    suspended_at = none;
    suspension_reason = none;
  }
  set_profile participant_id change
  add_audit_event moderator_id "profile.restored" "profile" participant_id []
  pure (change profile)
