-- ===== src/Session/Rows.antt =====
-- INSERT and UPDATE of each table, with the unique and check constraints of app/models/entities.py.
-- A broken constraint is an IntegrityError. Foreign keys are not modelled.
use text.Mathlib.Text.{◌==◌ as str_eq}
use test_exchange_backend.Base.{
  ℕ, Bool, false, not, ◌&&◌, ◌||◌, some, ◌∷◌, ◌==◌, ltb, is_none, is_some, if◌then◌else◌, any,
  select, update_if,
}
use test_exchange_backend.Base.Int.{ℤ, pos, ltb_ℤ}
use test_exchange_backend.Model.Keys.{credit_key_eq, notification_key_eq}
use test_exchange_backend.Model.Entities.{
  Profile, BetaProgramState, WaitlistEntry, Campaign, TestingContract, ContractTask, Assignment,
  TestingSession, EvidenceSubmission, EvidenceItem, Message, Notification, Review, CreditAccount,
  CreditLedgerEntry, Dispute, AuditEvent,
}
use test_exchange_backend.Session.Defs.{Session, M, ok, err, integrity_error}

-- A write is refused where it breaks a constraint.
unfoldable pub insert : (Session → Bool) → (Session → Session) → M (Unit {0})
insert broken f s = if broken s then err integrity_error else ok (tt, f s)

-- `delta == 0`
unfoldable pub is_zero : ℤ → Bool
is_zero (pos n) = n == 0
is_zero _ = false

unfoldable pub insert_profile : Profile → M (Unit {0})
insert_profile row =
    insert (λ s. any (λ p. p.id == row.id || str_eq p.username row.username) s.profiles)
      (λ s. record s { profiles = row ∷ s.profiles })

unfoldable pub insert_waitlist_entry : WaitlistEntry → M (Unit {0})
insert_waitlist_entry row =
    insert (λ s. any (λ w. w.id == row.id || str_eq w.email row.email) s.waitlist)
      (λ s. record s { waitlist = row ∷ s.waitlist })

unfoldable pub insert_campaign : Campaign → M (Unit {0})
insert_campaign row =
    insert
      (λ s.
        any (λ c. c.id == row.id || str_eq c.slug row.slug) s.campaigns
        || not (ltb 0 row.target_testers && ltb 0 row.reward_credits))
      (λ s. record s { campaigns = row ∷ s.campaigns })

unfoldable pub insert_contract : TestingContract → M (Unit {0})
insert_contract row =
    insert (λ s. any (λ c. c.id == row.id || c.campaign_id == row.campaign_id) s.contracts)
      (λ s. record s { contracts = row ∷ s.contracts })

unfoldable pub insert_task : ContractTask → M (Unit {0})
insert_task row =
    insert
      (λ s.
        any (λ t. t.id == row.id || t.contract_id == row.contract_id && t.position == row.position)
          s.tasks)
      (λ s. record s { tasks = row ∷ s.tasks })

unfoldable pub insert_assignment : Assignment → M (Unit {0})
insert_assignment row =
    insert
      (λ s.
        any
          (λ a. a.id == row.id || a.campaign_id == row.campaign_id && a.tester_id == row.tester_id)
          s.assignments)
      (λ s. record s { assignments = row ∷ s.assignments })

unfoldable pub insert_testing_session : TestingSession → M (Unit {0})
insert_testing_session row =
    insert
      (λ s.
        any
          (λ t.
            t.id == row.id
            || t.assignment_id == row.assignment_id && t.session_date == row.session_date)
          s.sessions)
      (λ s. record s { sessions = row ∷ s.sessions })

unfoldable pub insert_submission : EvidenceSubmission → M (Unit {0})
insert_submission row =
    insert
      (λ s.
        any
          (λ e. e.id == row.id || e.assignment_id == row.assignment_id && e.version == row.version)
          s.submissions
        || not (ltb 0 row.version))
      (λ s. record s { submissions = row ∷ s.submissions })

unfoldable pub insert_item : EvidenceItem → M (Unit {0})
insert_item row =
    insert
      (λ s.
        any (λ e. e.id == row.id) s.items
        || not (is_some row.storage_key || is_some row.external_url || is_some row.note))
      (λ s. record s { items = row ∷ s.items })

unfoldable pub insert_message : Message → M (Unit {0})
insert_message row =
    insert (λ s. any (λ m. m.id == row.id) s.messages)
      (λ s. record s { messages = row ∷ s.messages })

unfoldable pub insert_notification : Notification → M (Unit {0})
insert_notification row =
    insert
      (λ s.
        any (λ n. n.id == row.id || notification_key_eq n.idempotency_key row.idempotency_key)
          s.notifications)
      (λ s. record s { notifications = row ∷ s.notifications })

unfoldable pub insert_review : Review → M (Unit {0})
insert_review row =
    insert (λ s. any (λ r. r.id == row.id || r.submission_id == row.submission_id) s.reviews)
      (λ s. record s { reviews = row ∷ s.reviews })

unfoldable pub insert_account : CreditAccount → M (Unit {0})
insert_account row =
    insert (λ s. any (λ a. a.user_id == row.user_id) s.accounts || ltb_ℤ row.balance (pos 0))
      (λ s. record s { accounts = row ∷ s.accounts })

unfoldable pub insert_entry : CreditLedgerEntry → M (Unit {0})
insert_entry row =
    insert
      (λ s.
        any (λ e. e.id == row.id || credit_key_eq e.idempotency_key row.idempotency_key) s.ledger
        || is_zero row.delta)
      (λ s. record s { ledger = row ∷ s.ledger })

unfoldable pub insert_dispute : Dispute → M (Unit {0})
insert_dispute row =
    insert (λ s. any (λ d. d.id == row.id) s.disputes)
      (λ s. record s { disputes = row ∷ s.disputes })

unfoldable pub insert_audit_event : AuditEvent → M (Unit {0})
insert_audit_event row =
    insert (λ s. any (λ e. e.id == row.id) s.audit) (λ s. record s { audit = row ∷ s.audit })

unfoldable pub insert_beta_state : BetaProgramState → M (Unit {0})
insert_beta_state row = insert (λ s. is_some s.beta_state) (λ s. record s { beta_state = some row })

unfoldable pub set_profile : ℕ → (Profile → Profile) → M (Unit {0})
set_profile id change s =
    ok (tt, record s { profiles = update_if (λ row. row.id == id) change s.profiles })

unfoldable pub set_campaign : ℕ → (Campaign → Campaign) → M (Unit {0})
set_campaign id change s =
    ok (tt, record s { campaigns = update_if (λ row. row.id == id) change s.campaigns })

unfoldable pub set_contract : ℕ → (TestingContract → TestingContract) → M (Unit {0})
set_contract id change s =
    ok (tt, record s { contracts = update_if (λ row. row.id == id) change s.contracts })

unfoldable pub set_assignment : ℕ → (Assignment → Assignment) → M (Unit {0})
set_assignment id change s =
    ok (tt, record s { assignments = update_if (λ row. row.id == id) change s.assignments })

unfoldable pub set_submission : ℕ → (EvidenceSubmission → EvidenceSubmission) → M (Unit {0})
set_submission id change s =
    ok (tt, record s { submissions = update_if (λ row. row.id == id) change s.submissions })

unfoldable pub set_dispute : ℕ → (Dispute → Dispute) → M (Unit {0})
set_dispute id change s =
    ok (tt, record s { disputes = update_if (λ row. row.id == id) change s.disputes })

unfoldable pub set_notification : ℕ → (Notification → Notification) → M (Unit {0})
set_notification id change s =
    ok (tt, record s { notifications = update_if (λ row. row.id == id) change s.notifications })

-- the balance of one account, under `ck_credit_balance_nonnegative`
unfoldable pub set_balance : ℕ → ℤ → M (Unit {0})
set_balance user_id balance =
    insert (λ s. ltb_ℤ balance (pos 0))
      (λ s. record s {
        accounts =
            update_if (λ a. a.user_id == user_id) (λ a. record a { balance = balance }) s.accounts;
      })

unfoldable pub set_beta_state : BetaProgramState → M (Unit {0})
set_beta_state row s = ok (tt, record s { beta_state = some row })

-- `delete(ContractTask).where(ContractTask.contract_id == ...)`
unfoldable pub delete_tasks : ℕ → M (Unit {0})
delete_tasks contract_id s =
    ok (tt, record s { tasks = select (λ t. not (t.contract_id == contract_id)) s.tasks })

-- `UPDATE notifications SET read_at = ... WHERE user_id = ... AND read_at IS NULL`
unfoldable pub mark_all_read : ℕ → ℕ → M (Unit {0})
mark_all_read user_id t s = ok (
  tt,
  record s {
    notifications =
        update_if (λ n. n.user_id == user_id && is_none n.read_at)
          (λ n. record n { read_at = some t }) s.notifications;
  },
)
