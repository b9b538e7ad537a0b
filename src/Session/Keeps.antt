-- ===== src/Session/Keeps.antt =====
-- Predicates on the session that the operations keep: one rule for each way to build an operation,
-- and what a predicate has to satisfy for the operations on single rows to keep it.
use test_exchange_backend.Base.{
  ℕ, String, Bool, true, false, Option, none, some, ◌≡◌, if◌then◌else◌, arith,
}
use test_exchange_backend.Model.Entities.{
  Profile, BetaProgramState, WaitlistEntry, Campaign, TestingContract, ContractTask, Assignment,
  TestingSession, EvidenceSubmission, EvidenceItem, Message, Notification, Review, Dispute,
  AuditEvent,
}
use test_exchange_backend.Session.Defs.{
  Session, Error, Result, ok, err, M, pure, throw, gets, or_raise, raise_if, require_valid, uuid4,
  now, continue, ◌>>=◌,
}
use test_exchange_backend.Session.Rows.{
  insert, insert_profile, insert_waitlist_entry, insert_campaign, insert_contract, insert_task,
  insert_assignment, insert_testing_session, insert_submission, insert_item, insert_message,
  insert_notification, insert_review, insert_dispute, insert_audit_event, insert_beta_state,
  set_profile, set_campaign, set_contract, set_assignment, set_submission, set_dispute,
  set_notification, set_beta_state, delete_tasks, mark_all_read,
}

-- the predicate holds where a call returns; an exception leaves no state
abbrev pub After : {A : Type 0} → (Session → Type 0) → Result (A × Session) → Type 0
After P (ok (a, s)) = P s
After P (err e) = Unit

pub record Keeps {A : Type 0} (P : Session → Type 0) (m : M A) : Type 0 where
  pub at : (s : Session) → P s → After P (m s)

module _ {A : Type 0} {P : Session → Type 0} where
  pub Keeps-pure : (a : A) → Keeps P (pure a)
  unfolding pure
  Keeps-pure a = record { at = λ s h. h }

  pub Keeps-throw : (e : Error) → Keeps P (throw {A = A} e)
  unfolding throw
  Keeps-throw e = record { at = λ s h. tt }

  pub Keeps-gets : (f : Session → A) → Keeps P (gets f)
  unfolding gets
  Keeps-gets f = record { at = λ s h. h }

  pub Keeps-or_raise :
      (o : Option A) (detail : String) (code : ℕ) → Keeps P (or_raise o detail code)
  unfolding or_raise
  Keeps-or_raise none detail code = record { at = λ s h. tt }
  Keeps-or_raise (some a) detail code = record { at = λ s h. h }

  pub Keeps-if : (b : Bool) (m n : M A) → Keeps P m → Keeps P n → Keeps P (if b then m else n)
  Keeps-if true m n km kn = km
  Keeps-if false m n km kn = kn

module _ {P : Session → Type 0} where
  pub Keeps-raise_if : (b : Bool) (detail : String) (code : ℕ) → Keeps P (raise_if b detail code)
  unfolding raise_if
  Keeps-raise_if true detail code = record { at = λ s h. tt }
  Keeps-raise_if false detail code = record { at = λ s h. h }

  pub Keeps-require_valid : (b : Bool) → Keeps P (require_valid b)
  unfolding require_valid
  Keeps-require_valid true = record { at = λ s h. h }
  Keeps-require_valid false = record { at = λ s h. tt }

  -- what an INSERT has to show
  pub Keeps-insert :
      (broken : Session → Bool) (f : Session → Session)
      → ((s : Session) → P s → broken s ≡ false → P (f s))
      → Keeps P (insert broken f)
  unfolding insert
  Keeps-insert broken f keep = record { at = λ s h. ground (arith, keep s h) }

module _ {A B : Type 0} {P : Session → Type 0} where
  After-continue :
      (f : A → M B) (r : Result (A × Session))
      → ((a : A) → Keeps P (f a))
      → After P r
      → After P (continue f r)
  After-continue f (ok (a, s)) kf h = (kf a).at s h
  After-continue f (err e) kf h = tt

  pub Keeps-bind :
      (m : M A) (f : A → M B) → Keeps P m → ((a : A) → Keeps P (f a)) → Keeps P (m >>= f)
  unfolding ◌>>=◌
  Keeps-bind m f km kf = record { at = λ s h. After-continue f (m s) kf (km.at s h) }

pub ruleset keeps_rules = (
  Keeps-pure, Keeps-throw, Keeps-gets, Keeps-or_raise, Keeps-if, Keeps-raise_if,
  Keeps-require_valid, Keeps-bind,
)

-- The updates change no key of a row.
abbrev pub KeepsProfileKeys : (Profile → Profile) → Type 0
KeepsProfileKeys change = (row : Profile) → ((change row).id ≡ row.id)

abbrev pub KeepsCampaignKeys : (Campaign → Campaign) → Type 0
KeepsCampaignKeys change =
    (row : Campaign) → ((change row).id ≡ row.id) × ((change row).owner_id ≡ row.owner_id)

abbrev pub KeepsTestingContractKeys : (TestingContract → TestingContract) → Type 0
KeepsTestingContractKeys change =
    (row : TestingContract)
    → ((change row).id ≡ row.id) × ((change row).campaign_id ≡ row.campaign_id)

abbrev pub KeepsAssignmentKeys : (Assignment → Assignment) → Type 0
KeepsAssignmentKeys change =
    (row : Assignment)
    → ((change row).id ≡ row.id)
      × ((change row).campaign_id ≡ row.campaign_id)
      × ((change row).tester_id ≡ row.tester_id)

abbrev pub KeepsEvidenceSubmissionKeys : (EvidenceSubmission → EvidenceSubmission) → Type 0
KeepsEvidenceSubmissionKeys change =
    (row : EvidenceSubmission)
    → ((change row).id ≡ row.id)
      × ((change row).assignment_id ≡ row.assignment_id)
      × ((change row).version ≡ row.version)

abbrev pub KeepsDisputeKeys : (Dispute → Dispute) → Type 0
KeepsDisputeKeys change =
    (row : Dispute) → ((change row).id ≡ row.id) × ((change row).assignment_id ≡ row.assignment_id)

abbrev pub KeepsNotificationKeys : (Notification → Notification) → Type 0
KeepsNotificationKeys change =
    (row : Notification) → ((change row).id ≡ row.id) × ((change row).user_id ≡ row.user_id)

-- What is left to show of a predicate: that the operations on single rows keep it. The two tables of
-- app/services/credits.py are not among them, nor are those on an
-- assignment.
pub record IsQuiet (P : Session → Type 0) : Type 0 where
  pub at_uuid4 : Keeps P uuid4
  pub at_now : Keeps P now
  pub at_insert_profile : (row : Profile) → Keeps P (insert_profile row)
  pub at_insert_waitlist_entry : (row : WaitlistEntry) → Keeps P (insert_waitlist_entry row)
  pub at_insert_campaign : (row : Campaign) → Keeps P (insert_campaign row)
  pub at_insert_contract : (row : TestingContract) → Keeps P (insert_contract row)
  pub at_insert_task : (row : ContractTask) → Keeps P (insert_task row)
  pub at_insert_testing_session : (row : TestingSession) → Keeps P (insert_testing_session row)
  pub at_insert_submission : (row : EvidenceSubmission) → Keeps P (insert_submission row)
  pub at_insert_item : (row : EvidenceItem) → Keeps P (insert_item row)
  pub at_insert_message : (row : Message) → Keeps P (insert_message row)
  pub at_insert_notification : (row : Notification) → Keeps P (insert_notification row)
  pub at_insert_review : (row : Review) → Keeps P (insert_review row)
  pub at_insert_dispute : (row : Dispute) → Keeps P (insert_dispute row)
  pub at_insert_audit_event : (row : AuditEvent) → Keeps P (insert_audit_event row)
  pub at_insert_beta_state : (row : BetaProgramState) → Keeps P (insert_beta_state row)
  pub at_set_beta_state : (row : BetaProgramState) → Keeps P (set_beta_state row)
  pub at_set_profile :
      (id : ℕ) (change : Profile → Profile)
      → KeepsProfileKeys change
      → Keeps P (set_profile id change)
  pub at_set_campaign :
      (id : ℕ) (change : Campaign → Campaign)
      → KeepsCampaignKeys change
      → Keeps P (set_campaign id change)
  pub at_set_contract :
      (id : ℕ) (change : TestingContract → TestingContract)
      → KeepsTestingContractKeys change
      → Keeps P (set_contract id change)
  pub at_set_submission :
      (id : ℕ) (change : EvidenceSubmission → EvidenceSubmission)
      → KeepsEvidenceSubmissionKeys change
      → Keeps P (set_submission id change)
  pub at_set_dispute :
      (id : ℕ) (change : Dispute → Dispute)
      → KeepsDisputeKeys change
      → Keeps P (set_dispute id change)
  pub at_set_notification :
      (id : ℕ) (change : Notification → Notification)
      → KeepsNotificationKeys change
      → Keeps P (set_notification id change)
  pub at_delete_tasks : (contract_id : ℕ) → Keeps P (delete_tasks contract_id)
  pub at_read_all : (user_id t : ℕ) → Keeps P (mark_all_read user_id t)

-- The same with the operations on an assignment.
pub record IsStable (P : Session → Type 0) : Type 0 where
  pub quiet : IsQuiet P
  pub at_insert_assignment : (row : Assignment) → Keeps P (insert_assignment row)
  pub at_set_assignment :
      (id : ℕ) (change : Assignment → Assignment)
      → KeepsAssignmentKeys change
      → Keeps P (set_assignment id change)

module _ {P : Session → Type 0} where
  pub stable_uuid4 : IsQuiet P → Keeps P uuid4
  stable_uuid4 st = st.at_uuid4

  pub stable_now : IsQuiet P → Keeps P now
  stable_now st = st.at_now

  pub stable_insert_profile : IsQuiet P → (row : Profile) → Keeps P (insert_profile row)
  stable_insert_profile st = st.at_insert_profile

  pub stable_insert_waitlist_entry :
      IsQuiet P → (row : WaitlistEntry) → Keeps P (insert_waitlist_entry row)
  stable_insert_waitlist_entry st = st.at_insert_waitlist_entry

  pub stable_insert_campaign : IsQuiet P → (row : Campaign) → Keeps P (insert_campaign row)
  stable_insert_campaign st = st.at_insert_campaign

  pub stable_insert_contract : IsQuiet P → (row : TestingContract) → Keeps P (insert_contract row)
  stable_insert_contract st = st.at_insert_contract

  pub stable_insert_task : IsQuiet P → (row : ContractTask) → Keeps P (insert_task row)
  stable_insert_task st = st.at_insert_task

  pub stable_insert_testing_session :
      IsQuiet P → (row : TestingSession) → Keeps P (insert_testing_session row)
  stable_insert_testing_session st = st.at_insert_testing_session

  pub stable_insert_submission :
      IsQuiet P → (row : EvidenceSubmission) → Keeps P (insert_submission row)
  stable_insert_submission st = st.at_insert_submission

  pub stable_insert_item : IsQuiet P → (row : EvidenceItem) → Keeps P (insert_item row)
  stable_insert_item st = st.at_insert_item

  pub stable_insert_message : IsQuiet P → (row : Message) → Keeps P (insert_message row)
  stable_insert_message st = st.at_insert_message

  pub stable_insert_notification :
      IsQuiet P → (row : Notification) → Keeps P (insert_notification row)
  stable_insert_notification st = st.at_insert_notification

  pub stable_insert_review : IsQuiet P → (row : Review) → Keeps P (insert_review row)
  stable_insert_review st = st.at_insert_review

  pub stable_insert_dispute : IsQuiet P → (row : Dispute) → Keeps P (insert_dispute row)
  stable_insert_dispute st = st.at_insert_dispute

  pub stable_insert_audit_event : IsQuiet P → (row : AuditEvent) → Keeps P (insert_audit_event row)
  stable_insert_audit_event st = st.at_insert_audit_event

  pub stable_insert_beta_state :
      IsQuiet P → (row : BetaProgramState) → Keeps P (insert_beta_state row)
  stable_insert_beta_state st = st.at_insert_beta_state

  pub stable_set_beta_state : IsQuiet P → (row : BetaProgramState) → Keeps P (set_beta_state row)
  stable_set_beta_state st = st.at_set_beta_state

  pub stable_set_profile :
      IsQuiet P
      → (id : ℕ) (change : Profile → Profile) → KeepsProfileKeys change
      → Keeps P (set_profile id change)
  stable_set_profile st = st.at_set_profile

  pub stable_set_campaign :
      IsQuiet P
      → (id : ℕ) (change : Campaign → Campaign) → KeepsCampaignKeys change
      → Keeps P (set_campaign id change)
  stable_set_campaign st = st.at_set_campaign

  pub stable_set_contract :
      IsQuiet P
      → (id : ℕ) (change : TestingContract → TestingContract) → KeepsTestingContractKeys change
      → Keeps P (set_contract id change)
  stable_set_contract st = st.at_set_contract

  pub stable_set_submission :
      IsQuiet P
      → (id : ℕ) (change : EvidenceSubmission → EvidenceSubmission)
      → KeepsEvidenceSubmissionKeys change
      → Keeps P (set_submission id change)
  stable_set_submission st = st.at_set_submission

  pub stable_set_dispute :
      IsQuiet P
      → (id : ℕ) (change : Dispute → Dispute) → KeepsDisputeKeys change
      → Keeps P (set_dispute id change)
  stable_set_dispute st = st.at_set_dispute

  pub stable_set_notification :
      IsQuiet P
      → (id : ℕ) (change : Notification → Notification) → KeepsNotificationKeys change
      → Keeps P (set_notification id change)
  stable_set_notification st = st.at_set_notification

  pub stable_delete_tasks : IsQuiet P → (contract_id : ℕ) → Keeps P (delete_tasks contract_id)
  stable_delete_tasks st = st.at_delete_tasks

  pub stable_read_all : IsQuiet P → (user_id t : ℕ) → Keeps P (mark_all_read user_id t)
  stable_read_all st = st.at_read_all

  pub stable_quiet : IsStable P → IsQuiet P
  stable_quiet st = st.quiet

  pub stable_insert_assignment : IsStable P → (row : Assignment) → Keeps P (insert_assignment row)
  stable_insert_assignment st = st.at_insert_assignment

  pub stable_set_assignment :
      IsStable P
      → (id : ℕ) (change : Assignment → Assignment) → KeepsAssignmentKeys change
      → Keeps P (set_assignment id change)
  stable_set_assignment st = st.at_set_assignment

pub ruleset stable_rules = (
  stable_quiet, keeps_rules, stable_uuid4, stable_now, stable_insert_profile,
  stable_insert_waitlist_entry, stable_insert_campaign, stable_insert_contract, stable_insert_task,
  stable_insert_assignment, stable_insert_testing_session, stable_insert_submission,
  stable_insert_item, stable_insert_message, stable_insert_notification, stable_insert_review,
  stable_insert_dispute, stable_insert_audit_event, stable_insert_beta_state, stable_set_beta_state,
  stable_set_profile, stable_set_campaign, stable_set_contract, stable_set_assignment,
  stable_set_submission, stable_set_dispute, stable_set_notification, stable_delete_tasks,
  stable_read_all,
)

-- The same with the value that a call returns.
abbrev pub Returns : {A : Type 0} → (A → Session → Type 0) → Result (A × Session) → Type 0
Returns Q (ok (a, s)) = Q a s
Returns Q (err e) = Unit

module _ {A B : Type 0} where
  Returns-continue :
      (Mid : A → Session → Type 0) (Q : B → Session → Type 0) (f : A → M B)
      (r : Result (A × Session))
      → Returns Mid r
      → ((a : A) (s : Session) → Mid a s → Returns Q (f a s))
      → Returns Q (continue f r)
  Returns-continue Mid Q f (ok (a, s)) h k = k a s h
  Returns-continue Mid Q f (err e) h k = tt

  -- the rule for `>>=`
  pub Returns-bind :
      (Mid : A → Session → Type 0) (Q : B → Session → Type 0) (m : M A) (f : A → M B) (s : Session)
      → Returns Mid (m s)
      → ((a : A) (s' : Session) → Mid a s' → Returns Q (f a s'))
      → Returns Q ((m >>= f) s)
  unfolding ◌>>=◌
  Returns-bind Mid Q m f s h k = Returns-continue Mid Q f (m s) h k

module _ {A : Type 0} {P : Session → Type 0} where
  pub Returns-After :
      (Q : A → Session → Type 0) (r : Result (A × Session))
      → ((a : A) (s : Session) → Q a s → P s)
      → Returns Q r
      → After P r
  Returns-After Q (ok (a, s)) weaken h = weaken a s h
  Returns-After Q (err e) weaken h = tt
