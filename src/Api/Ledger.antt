-- ===== src/Api/Ledger.antt =====
-- What holds of the credit tables after any run of requests, failed ones included.
use test_exchange_backend.Base.{ℕ, ◌≤◌, List, [], ◌++◌, ◌≡◌, refl}
use test_exchange_backend.Model.Enums.{CreditEntryType}
use test_exchange_backend.Model.Entities.{CreditAccount, CreditLedgerEntry}
use test_exchange_backend.Session.{Session}
use test_exchange_backend.Credits.Balance.{IsBalanced, balance_of, ledger_sum}
use test_exchange_backend.Credits.Purposes.{posted_for}
use test_exchange_backend.Credits.Steps.{
  IsCreditInvariant, IsCreditInvariant-record, IsCreditInvariant-ensure,
}
use test_exchange_backend.Credits.Ledger.{
  IsBalanced-invariant, Extends-invariant, IsOrderly, IsOrderly-invariant, IsOrderly-once,
}
use test_exchange_backend.Stability.Basics.{IsCreditStable}
use test_exchange_backend.Stability.Frames.Credits.{credits_IsStable}
use test_exchange_backend.Api.Requests.{Settings, Call, begin, serve}
use test_exchange_backend.Api.Invariants.{serve_keeps}

module _ {Q : List CreditAccount → List CreditLedgerEntry → Type 0}
    (inv : IsCreditInvariant Q) where
  invariant-IsCreditStable : IsCreditStable (λ s. Q s.accounts s.ledger)
  invariant-IsCreditStable = record {
    at_record = IsCreditInvariant-record inv;
    at_ensure = IsCreditInvariant-ensure inv;
  }

  serve-invariant :
      (settings : Settings) (s : Session) (calls : List Call)
      → Q s.accounts s.ledger
      → Q (serve settings s calls).accounts (serve settings s calls).ledger
  unfolding begin
  serve-invariant settings s calls h =
      serve_keeps (credits_IsStable Q) invariant-IsCreditStable (λ w s' k. k) settings s calls h

-- From accounts that agree with the ledger, whatever requests come and whichever of them fail, every
-- user's balance is the sum of that user's ledger entries (a user with no account counts as 0).
pub serve-IsBalanced :
    (settings : Settings) (s : Session) (calls : List Call)
    → IsBalanced s.accounts s.ledger
    → (user_id : ℕ)
    → balance_of user_id (serve settings s calls).accounts
      ≡ ledger_sum user_id (serve settings s calls).ledger
serve-IsBalanced = serve-invariant IsBalanced-invariant

-- The ledger is append-only: after any run of requests it is the old ledger with new entries before
-- it, so that no entry has changed or gone.
pub serve-append_only :
    (settings : Settings) (s : Session) (calls : List Call)
    → (new : List CreditLedgerEntry) × ((serve settings s calls).ledger ≡ new ++ s.ledger)
serve-append_only settings s calls =
    serve-invariant (Extends-invariant s.ledger) settings s calls ([], refl)

-- From a ledger whose entries each have the key of the row that they refer to, and no two the same
-- key, every run of requests, failed ones included, leaves a ledger that has one entry of each type
-- at most for one row: one reward for an assignment, one posting charge for a campaign, and one
-- signup grant for a profile.
pub serve-posts_once :
    (settings : Settings) (s : Session) (calls : List Call)
    → IsOrderly s.ledger
    → (t : CreditEntryType) (id : ℕ) → posted_for t id (serve settings s calls).ledger ≤ 1
serve-posts_once settings s calls h t id =
    IsOrderly-once t id (serve settings s calls).ledger
      (serve-invariant IsOrderly-invariant settings s calls h)
