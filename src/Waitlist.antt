-- ===== src/Waitlist.antt =====
-- Joining the waitlist of app/services/profiles.py twice.
pub mod Addresses
pub mod Requests
use mathlib.Core.Path.{subst}
use text.Mathlib.Text.{◌==◌ as str_eq}
use text.Mathlib.TextPositions.{eq_refl}
use test_exchange_backend.Base.{
  ℕ, ◌+◌, String, Bool, Option, none, some, List, ◌∷◌, ◌≡◌, refl, find, true, false,
}
use test_exchange_backend.Model.Entities.{WaitlistEntry}
use test_exchange_backend.Session.{
  Session, Result, ok, err, integrity_error, gets, ◌>>=◌, continue, uuid4, insert,
  insert_waitlist_entry, pure,
}
use test_exchange_backend.Profiles.{
  join_waitlist, existing_or_add, add_entry, retry, existing_or_reraise,
}

abbrev pub entry_for : String → List WaitlistEntry → Option WaitlistEntry
entry_for email rows = find (λ w. str_eq w.email email) rows

-- where the call returns an entry, the waitlist holds it for the address
abbrev IsFound : String → Result (WaitlistEntry × Session) → Type 0
IsFound email (ok (w, s)) = entry_for email s.waitlist ≡ some w
IsFound email (err e) = Unit

-- an entry that is there is the answer, and nothing changes
pub join_waitlist-found :
    (email : String) (s : Session) (w : WaitlistEntry)
    → entry_for email s.waitlist ≡ some w
    → join_waitlist email s ≡ ok (w, s)
unfolding join_waitlist existing_or_add gets ◌>>=◌
join_waitlist-found email s w found = rw found refl

new_entry-IsFound :
    (email : String) (id : ℕ) (rows : List WaitlistEntry)
    → entry_for email (record { id = id; email = email } ∷ rows)
      ≡ some (record { id = id; email = email })
unfolding find
new_entry-IsFound email id rows = rw (eq_refl email) refl

retry_absent :
    (email : String) (s : Session)
    → entry_for email s.waitlist ≡ none
    → err integrity_error ≡ retry email s (err integrity_error)
unfolding retry existing_or_reraise
retry_absent email s absent = rw absent refl

added-IsFound :
    (email : String) (s : Session) (s' : Session)
    → entry_for email s.waitlist ≡ none
    → s'.waitlist ≡ s.waitlist
    → (id : ℕ) (broken : Bool)
    → IsFound email (
        retry email s (
          continue
            (λ _. pure (record { id = id; email = email }))
            (insert
              (λ _. broken)
              (λ u. record u { waitlist = record { id = id; email = email } ∷ u.waitlist })
              s')))
unfolding retry insert pure
added-IsFound email s s' absent e id true =
    subst (λ (r : Result (WaitlistEntry × Session)). IsFound email r) (retry_absent email s absent)
      tt
added-IsFound email s s' absent e id false = new_entry-IsFound email id s'.waitlist

existing_or_add-IsFound :
    (email : String) (s : Session) (found : Option WaitlistEntry)
    → entry_for email s.waitlist ≡ found
    → IsFound email (existing_or_add email found s)
unfolding existing_or_add add_entry insert_waitlist_entry insert uuid4 ◌>>=◌
existing_or_add-IsFound email s (some w) found = found
existing_or_add-IsFound email s none found =
    added-IsFound email s (record s { drawn = s.drawn + 1 }) found refl (s.uuids s.drawn) _

join_waitlist-IsFound : (email : String) (s : Session) → IsFound email (join_waitlist email s)
unfolding join_waitlist gets ◌>>=◌
join_waitlist-IsFound email s = existing_or_add-IsFound email s (entry_for email s.waitlist) refl

-- Joining the waitlist is idempotent: where a call returns an entry, the entry is on the list for
-- the address, and another call with the address returns the same entry and changes nothing.
pub join_waitlist-again :
    (email : String) (s s' : Session) (w : WaitlistEntry)
    → join_waitlist email s ≡ ok (w, s')
    → (entry_for email s'.waitlist ≡ some w) × (join_waitlist email s' ≡ ok (w, s'))
join_waitlist-again email s s' w returned =
    let found : entry_for email s'.waitlist ≡ some w =
      subst (λ (r : Result (WaitlistEntry × Session)). IsFound email r) returned
        (join_waitlist-IsFound email s) in
    (found, join_waitlist-found email s' w found)
