-- ===== src/Stability/Profiles.antt =====
-- The services of app/services/profiles.py.
use test_exchange_backend.Base.{ℕ, String, Option, none, some, arith}
use test_exchange_backend.Model.Entities.{Profile, BetaProgramState, WaitlistEntry}
use test_exchange_backend.Session.{
  Session, Result, ok, err, domain_error, validation_error, integrity_error, unhandled_error,
}
use test_exchange_backend.Session.Keeps.{Keeps, After, IsQuiet}
use test_exchange_backend.Profiles.{
  ProfileUpsert, BetaSettings, or_seed, grant_signup, register, edit, edit_or_register,
  upsert_profile, existing_or_add, add_entry, retry, join_waitlist, suspend_participant,
  restore_participant,
}
use test_exchange_backend.Stability.Basics.{IsCreditStable, service_rules}

module _ {P : Session → Type 0} (st : IsQuiet P) (cr : IsCreditStable P) where
  Keeps-or_seed : (state : Option BetaProgramState) → Keeps P (or_seed state)
  unfolding or_seed
  Keeps-or_seed none = search (service_rules, arith) depth 40
  Keeps-or_seed (some state) = search (service_rules, arith) depth 40

  Keeps-grant_signup : (user_id grant : ℕ) → Keeps P (grant_signup user_id grant)
  unfolding grant_signup
  Keeps-grant_signup user_id grant = search (service_rules, arith) depth 40

  Keeps-register :
      (user_id : ℕ) (email : Option String) (payload : ProfileUpsert) (settings : BetaSettings)
      → Keeps P (register user_id email payload settings)
  unfolding register
  Keeps-register user_id email payload settings =
      search (service_rules, Keeps-or_seed, Keeps-grant_signup, arith) depth 40

  Keeps-edit :
      (profile : Profile) (user_id : ℕ) (email : Option String) (payload : ProfileUpsert)
      → Keeps P (edit profile user_id email payload)
  unfolding edit
  Keeps-edit profile user_id email payload = search (service_rules, arith) depth 40

  Keeps-edit_or_register :
      (user_id : ℕ) (email : Option String) (payload : ProfileUpsert) (settings : BetaSettings)
      (found : Option Profile)
      → Keeps P (edit_or_register user_id email payload settings found)
  unfolding edit_or_register
  Keeps-edit_or_register user_id email payload settings none =
      search (service_rules, Keeps-register, arith) depth 40
  Keeps-edit_or_register user_id email payload settings (some profile) =
      search (service_rules, Keeps-edit, arith) depth 40

  pub Keeps-upsert_profile :
      (user_id : ℕ) (email : Option String) (payload : ProfileUpsert) (settings : BetaSettings)
      → Keeps P (upsert_profile user_id email payload settings)
  unfolding upsert_profile
  Keeps-upsert_profile user_id email payload settings =
      search (service_rules, Keeps-edit_or_register, arith) depth 40

  Keeps-add_entry : (email : String) → Keeps P (add_entry email)
  unfolding add_entry
  Keeps-add_entry email = search (service_rules, arith) depth 40

  pub Keeps-suspend_participant :
      (participant_id moderator_id : ℕ) (reason : String)
      → Keeps P (suspend_participant participant_id moderator_id reason)
  unfolding suspend_participant
  Keeps-suspend_participant participant_id moderator_id reason =
      search (service_rules, arith) depth 40

  pub Keeps-restore_participant :
      (participant_id moderator_id : ℕ) → Keeps P (restore_participant participant_id moderator_id)
  unfolding restore_participant
  Keeps-restore_participant participant_id moderator_id = search (service_rules, arith) depth 40

  Keeps-retry :
      (email : String) (s : Session) (r : Result (WaitlistEntry × Session))
      → P s
      → After P r
      → After P (retry email s r)
  unfolding retry
  Keeps-retry email s (ok r) h k = k
  Keeps-retry email s (err (domain_error detail code)) h k = tt
  Keeps-retry email s (err validation_error) h k = tt
  Keeps-retry email s (err unhandled_error) h k = tt
  Keeps-retry email s (err integrity_error) h k = ground (arith, h)

  Keeps-existing_or_add :
      (email : String) (existing : Option WaitlistEntry) → Keeps P (existing_or_add email existing)
  unfolding existing_or_add
  Keeps-existing_or_add email none = record {
    at = λ s h. Keeps-retry email s (add_entry email s) h ((Keeps-add_entry email).at s h);
  }
  Keeps-existing_or_add email (some entry) = record { at = λ s h. h }

  pub Keeps-join_waitlist : (email : String) → Keeps P (join_waitlist email)
  unfolding join_waitlist
  Keeps-join_waitlist email = search (service_rules, Keeps-existing_or_add)
