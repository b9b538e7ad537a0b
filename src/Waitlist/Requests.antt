-- ===== src/Waitlist/Requests.antt =====
-- What one request to the route of the waitlist does to the table.
use text.Mathlib.Text.{◌==◌ as str_eq}
use test_exchange_backend.Base.{
  ℕ, ◌+◌, String, true, false, Option, none, some, List, [], ◌∷◌, ◌++◌, ◌≡◌, ◌⊎◌, any, ◌==◌,
}
use test_exchange_backend.Model.Entities.{WaitlistEntry}
use test_exchange_backend.Session.{Session}
use test_exchange_backend.Config.{is_empty}
use test_exchange_backend.Workflow.StorageKey.{codes, starts_with}
use test_exchange_backend.Waitlist.{entry_for}
use test_exchange_backend.Waitlist.Addresses.{waitlist_create_valid}
use test_exchange_backend.Routes.AccountRoutes.{waitlist}
use test_exchange_backend.Api.Requests.{CurrentUser, Request, Call, Supply}

with_entry : String → Session → Session
with_entry email s = record s {
  drawn = s.drawn + 1;
  waitlist = record { id = s.uuids s.drawn; email = email } ∷ s.waitlist;
}

-- A text is an address: a local part, the last @, and a domain with a dot that is not its first.
pub record IsAddress (text : List ℕ) : Type 0 where
  pub local : List ℕ
  pub domain : List ℕ
  pub cut : text ≡ local ++ b'@' ∷ domain
  pub has_local : is_empty local ≡ false
  pub has_dot : any (λ c. c == b'.') domain ≡ true
  pub no_first_dot : starts_with domain (b'.' ∷ []) ≡ false

abbrev Cuts : List ℕ → Option (List ℕ × List ℕ) → Type 0
Cuts text none = Unit
Cuts text (some (local, domain)) = text ≡ local ++ b'@' ∷ domain

abbrev pub asks : CurrentUser → Supply → (String → String) → String → Call
asks user supply normalize email = record {
  user = user;
  request = Request.waitlist normalize email;
  supply = supply;
}

-- The list after a request, against the list before it: the body is refused, or its address is on the
-- list, and the list stays; or the one new entry stands before the old ones.
abbrev pub Answers :
    (String → String) → String → ℕ → List WaitlistEntry → List WaitlistEntry → Type 0
Answers normalize email id old new =
    ((waitlist_create_valid normalize email ≡ false) × (new ≡ old))
    ⊎ (IsAddress (codes (normalize email))
        × (((w : WaitlistEntry) × ((entry_for (normalize email) old ≡ some w) × (new ≡ old)))
            ⊎ ((entry_for (normalize email) old ≡ none)
                × (new ≡ record { id = id; email = normalize email } ∷ old))))
