-- ===== src/Stability/Workflow.antt =====
-- The services of app/services/workflow.py.
use test_exchange_backend.Base.{ℕ, String, Option, none, some, List, [], ◌∷◌, arith}
use test_exchange_backend.Model.Enums.{SubmissionStatus, ReviewDecision}
use test_exchange_backend.Model.Entities.{Profile, Campaign, Assignment, EvidenceSubmission}
use test_exchange_backend.Session.{Session, ◌>>=◌}
use test_exchange_backend.Session.Keeps.{Keeps, KeepsAssignmentKeys, IsQuiet, IsStable}
use test_exchange_backend.Workflow.StorageKey.{validate_storage_key}
use test_exchange_backend.Workflow.{
  SubmissionCreate, EvidenceItemCreate, display_name_of, tester_name, apply_to_campaign,
  accept_assignment, decline_assignment, withdraw_assignment, start_assignment,
  contract_for_assignment, record_testing_session, check_key, check_items, insert_items,
  started_time, check_submission, create_submission, set_outcome, pay_reward, decide, or_crash,
  create_review, add_message, check_escalation, submission_of, open_dispute,
}
use test_exchange_backend.Stability.Basics.{IsCreditStable, service_rules}
use test_exchange_backend.Stability.Campaigns.{Keeps-maybe_complete_campaign}

module _ {P : Session → Type 0} {A : Type 0} where
  pub Keeps-or_crash : (o : Option A) → Keeps P (or_crash o)
  unfolding or_crash
  Keeps-or_crash none = search service_rules
  Keeps-or_crash (some a) = search service_rules

module _ {P : Session → Type 0} (st : IsQuiet P) (cr : IsCreditStable P) where
  Keeps-display_name_of : (p : Option Profile) → Keeps P (display_name_of p)
  unfolding display_name_of
  Keeps-display_name_of none = search (service_rules, arith) depth 40
  Keeps-display_name_of (some p) = search (service_rules, arith) depth 40

  pub Keeps-tester_name : (tester_id : ℕ) → Keeps P (tester_name tester_id)
  unfolding tester_name
  Keeps-tester_name tester_id = search (service_rules, Keeps-display_name_of, arith) depth 40

  pub Keeps-contract_for_assignment :
      (assignment : Assignment) → Keeps P (contract_for_assignment assignment)
  unfolding contract_for_assignment
  Keeps-contract_for_assignment assignment = search (service_rules, arith) depth 40

  pub Keeps-record_testing_session :
      (assignment_id tester_id : ℕ) (text : Option String)
      → Keeps P (record_testing_session assignment_id tester_id text)
  unfolding record_testing_session
  Keeps-record_testing_session assignment_id tester_id text = search (service_rules, arith) depth 40

  pub Keeps-validate_storage_key :
      (assignment_id : ℕ) (storage_key : String)
      → Keeps P (validate_storage_key assignment_id storage_key)
  unfolding validate_storage_key
  Keeps-validate_storage_key assignment_id storage_key = search (service_rules, arith) depth 40

  Keeps-check_key :
      (assignment_id : ℕ) (key : Option String) → Keeps P (check_key assignment_id key)
  unfolding check_key
  Keeps-check_key assignment_id none = search (service_rules, arith) depth 40
  Keeps-check_key assignment_id (some key) =
      search (service_rules, Keeps-validate_storage_key, arith) depth 40

  pub Keeps-check_items :
      (assignment_id : ℕ) (items : List EvidenceItemCreate)
      → Keeps P (check_items assignment_id items)
  unfolding check_items
  Keeps-check_items assignment_id [] = search (service_rules, arith) depth 40
  Keeps-check_items assignment_id (i ∷ rest) =
      search (service_rules, Keeps-check_key, Keeps-check_items assignment_id rest, arith) depth 40

  pub Keeps-insert_items :
      (submission_id : ℕ) (items : List EvidenceItemCreate)
      → Keeps P (insert_items submission_id items)
  unfolding insert_items ◌>>=◌
  Keeps-insert_items submission_id [] = search (service_rules, arith) depth 40
  Keeps-insert_items submission_id (i ∷ rest) =
      search (service_rules, Keeps-insert_items submission_id rest, arith) depth 40

  pub Keeps-check_submission :
      (assignment : Assignment) (tester_id : ℕ) (payload : SubmissionCreate)
      → Keeps P (check_submission assignment tester_id payload)
  unfolding check_submission started_time
  Keeps-check_submission assignment tester_id payload =
      search (service_rules, Keeps-contract_for_assignment, Keeps-check_items, arith) depth 40

  pub Keeps-pay_reward :
      (assignment : Assignment) (campaign : Campaign) (actor_id : ℕ) (note : String)
      → Keeps P (pay_reward assignment campaign actor_id note)
  unfolding pay_reward
  Keeps-pay_reward assignment campaign actor_id note = search (service_rules, arith) depth 40

  pub Keeps-add_message :
      (assignment_id sender_id : ℕ) (body : String)
      → Keeps P (add_message assignment_id sender_id body)
  unfolding add_message
  Keeps-add_message assignment_id sender_id body = search (service_rules, arith) depth 40

  Keeps-check_escalation :
      (assignment : Assignment) (submission : EvidenceSubmission)
      → Keeps P (check_escalation assignment submission)
  unfolding check_escalation
  Keeps-check_escalation assignment submission =
      search (service_rules, Keeps-contract_for_assignment, arith) depth 40

  pub Keeps-submission_of :
      (assignment_id : ℕ) (found : Option EvidenceSubmission) (detail : String) (code : ℕ)
      → Keeps P (submission_of assignment_id found detail code)
  unfolding submission_of
  Keeps-submission_of assignment_id found detail code = search (service_rules, arith) depth 40

  pub Keeps-open_dispute :
      (assignment_id opened_by : ℕ) (submission_id : Option ℕ) (reason : String)
      → Keeps P (open_dispute assignment_id opened_by submission_id reason)
  unfolding open_dispute
  Keeps-open_dispute assignment_id opened_by submission_id reason =
      search (service_rules, Keeps-check_escalation, Keeps-submission_of, arith) depth 40

module _ {P : Session → Type 0} (st : IsStable P) (cr : IsCreditStable P) where
  pub Keeps-apply_to_campaign :
      (campaign_id tester_id : ℕ) (text : Option String)
      → Keeps P (apply_to_campaign campaign_id tester_id text)
  unfolding apply_to_campaign
  Keeps-apply_to_campaign campaign_id tester_id text =
      search (service_rules, Keeps-tester_name, arith) depth 40

  pub Keeps-accept_assignment :
      (assignment_id owner_id : ℕ) → Keeps P (accept_assignment assignment_id owner_id)
  unfolding accept_assignment
  Keeps-accept_assignment assignment_id owner_id = search (service_rules, arith) depth 40

  pub Keeps-decline_assignment :
      (assignment_id owner_id : ℕ) → Keeps P (decline_assignment assignment_id owner_id)
  unfolding decline_assignment
  Keeps-decline_assignment assignment_id owner_id = search (service_rules, arith) depth 40

  pub Keeps-withdraw_assignment :
      (assignment_id tester_id : ℕ) → Keeps P (withdraw_assignment assignment_id tester_id)
  unfolding withdraw_assignment
  Keeps-withdraw_assignment assignment_id tester_id =
      search (service_rules, Keeps-tester_name, Keeps-maybe_complete_campaign, arith) depth 40

  pub Keeps-start_assignment :
      (assignment_id tester_id : ℕ) → Keeps P (start_assignment assignment_id tester_id)
  unfolding start_assignment
  Keeps-start_assignment assignment_id tester_id = search (service_rules, arith) depth 40

  pub Keeps-create_submission :
      (assignment_id tester_id : ℕ) (payload : SubmissionCreate)
      → Keeps P (create_submission assignment_id tester_id payload)
  unfolding create_submission
  Keeps-create_submission assignment_id tester_id payload =
      search (service_rules, Keeps-check_submission, Keeps-insert_items, Keeps-tester_name, arith)
        depth 40

  pub Keeps-set_outcome :
      (submission_id : ℕ) (status : SubmissionStatus) (assignment_id : ℕ)
      (change : Assignment → Assignment)
      → KeepsAssignmentKeys change
      → Keeps P (set_outcome submission_id status assignment_id change)
  unfolding set_outcome
  Keeps-set_outcome submission_id status assignment_id change h =
      search (service_rules, arith) depth 40

  Keeps-decide :
      (decision : ReviewDecision) (assignment : Assignment) (submission_id : ℕ)
      (campaign : Campaign) (reviewer_id : ℕ)
      → Keeps P (decide decision assignment submission_id campaign reviewer_id)
  unfolding decide
  Keeps-decide ReviewDecision.approved assignment submission_id campaign reviewer_id =
      search
        (service_rules, Keeps-set_outcome, Keeps-pay_reward, Keeps-maybe_complete_campaign, arith)
        depth 40
  Keeps-decide ReviewDecision.changes_requested assignment submission_id campaign reviewer_id =
      search (service_rules, Keeps-set_outcome, arith) depth 40
  Keeps-decide ReviewDecision.rejected assignment submission_id campaign reviewer_id =
      search (service_rules, Keeps-set_outcome, arith) depth 40

  pub Keeps-create_review :
      (submission_id reviewer_id : ℕ) (decision : ReviewDecision) (notes : String)
      → Keeps P (create_review submission_id reviewer_id decision notes)
  unfolding create_review
  Keeps-create_review submission_id reviewer_id decision notes =
      search (service_rules, Keeps-or_crash, Keeps-decide, arith) depth 40
