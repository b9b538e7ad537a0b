-- ===== src/Session/Defs.antt =====
-- The state of one session, the results, and the monad of the services.
use test_exchange_backend.Base.{
  ℕ, zero, suc, ◌+◌, ◌/◌, ◌%◌, ◌*◌, String, Bool, true, false, Option, none, some, List,
  if◌then◌else◌, ltb, ◌==◌,
}
use Prim.Native.String.{◌++◌ as append}
use test_exchange_backend.Model.Entities.{
  Profile, BetaProgramState, WaitlistEntry, Campaign, TestingContract, ContractTask, Assignment,
  TestingSession, EvidenceSubmission, EvidenceItem, Message, Notification, Review, CreditAccount,
  CreditLedgerEntry, Dispute, AuditEvent,
}

-- The tables, and what comes from outside: the n-th UUID that `uuid4` gives and the n-th reading of
-- the clock, with how many have been taken.
pub record Session : Type 0 where
  pub profiles : List Profile
  pub beta_state : Option BetaProgramState
  pub waitlist : List WaitlistEntry
  pub campaigns : List Campaign
  pub contracts : List TestingContract
  pub tasks : List ContractTask
  pub assignments : List Assignment
  pub sessions : List TestingSession
  pub submissions : List EvidenceSubmission
  pub items : List EvidenceItem
  pub messages : List Message
  pub notifications : List Notification
  pub reviews : List Review
  pub accounts : List CreditAccount
  pub ledger : List CreditLedgerEntry
  pub disputes : List Dispute
  pub audit : List AuditEvent
  pub uuids : ℕ → ℕ
  pub drawn : ℕ
  pub clock : ℕ → ℕ
  pub ticks : ℕ

-- `DomainError(detail, status_code)`, a body that pydantic refuses (status 422), the database's
-- IntegrityError, and any other exception
pub data Error : Type 0 where
  domain_error : String → ℕ → Error
  validation_error : Error
  integrity_error : Error
  unhandled_error : Error

pub data Result {ℓ} (A : Type ℓ) : Type ℓ where
  ok : A → Result A
  err : Error → Result A

-- An exception rolls the session back, so no state comes with an error.
abbrev pub M : Type 0 → Type 0
M A = Session → Result (A × Session)

module _ {A : Type 0} where
  unfoldable pub pure : A → M A
  pure a s = ok (a, s)

  unfoldable pub throw : Error → M A
  throw e s = err e

  unfoldable pub gets : (Session → A) → M A
  gets f s = ok (f s, s)

  -- a row that has to be there
  unfoldable pub or_raise : Option A → String → ℕ → M A
  or_raise none detail code s = err (domain_error detail code)
  or_raise (some a) detail code s = ok (a, s)

module _ {A B : Type 0} where
  abbrev pub continue : (A → M B) → Result (A × Session) → Result (B × Session)
  continue f (ok (a, s)) = f a s
  continue f (err e) = err e

  infixl 5 ◌>>=◌ ◌>>◌
  unfoldable pub ◌>>=◌ : M A → (A → M B) → M B
  ◌>>=◌ m f s = continue f (m s)

  abbrev pub ◌>>◌ : M A → M B → M B
  m >> k = m >>= λ _. k

-- `if condition: raise DomainError(detail, code)`
unfoldable pub raise_if : Bool → String → ℕ → M (Unit {0})
raise_if true detail code s = err (domain_error detail code)
raise_if false detail code s = ok (tt, s)

-- a body that has to be valid
unfoldable pub require_valid : Bool → M (Unit {0})
require_valid true s = ok (tt, s)
require_valid false s = err validation_error

-- `if condition:` with no other branch
abbrev pub when : Bool → M (Unit {0}) → M (Unit {0})
when b m = if b then m else pure tt

-- `uuid4()`
unfoldable pub uuid4 : M ℕ
uuid4 s = ok (s.uuids s.drawn, record s { drawn = s.drawn + 1 })

-- `datetime.now(UTC)`, and the server's `func.now()`
unfoldable pub now : M ℕ
now s = ok (s.clock s.ticks, record s { ticks = s.ticks + 1 })

-- `timedelta(days=n)`, `timedelta(hours=n)` and `.date()`, in microseconds and in days
abbrev pub days : ℕ → ℕ
days n = n * 86400000000

abbrev pub hours : ℕ → ℕ
hours n = n * 3600000000

abbrev pub date_of : ℕ → ℕ
date_of t = t / 86400000000

digit : ℕ → String
digit d =
    if d == 0
    then "0"
    else if d == 1
    then "1"
    else if d == 2
    then "2"
    else if d == 3
    then "3"
    else if d == 4
    then "4"
    else if d == 5
    then "5"
    else if d == 6
    then "6"
    else if d == 7
    then "7"
    else if d == 8
    then "8"
    else "9"

decimal_fuel : ℕ → ℕ → String
decimal_fuel zero n = ""
decimal_fuel (suc fuel) n =
    let higher = decimal_fuel fuel (n / 10) in
    if ltb n 10 then digit n else append higher (digit (n % 10))

-- `str(n)` of an int that is not negative
unfoldable pub decimal : ℕ → String
unfolding decimal_fuel digit
decimal n = decimal_fuel (n + 1) n
