-- ===== src/Workflow/Submissions.antt =====
-- Evidence for review: the checks of a submission against its contract, and its versions.
use Prim.Native.String.{◌++◌ as append}
use test_exchange_backend.Base.{
  ℕ, ◌+◌, String, Bool, true, false, not, ◌&&◌, ◌||◌, Option, none, some, List, [], ◌∷◌, ◌==◌, ltb,
  is_none, if◌then◌else◌, any, all, count_if,
}
use Prim.Native.Nat.{max}
use test_exchange_backend.Model.Enums.{
  AssignmentStatus, SubmissionStatus, EvidenceKind, assignment_is,
}
use test_exchange_backend.Model.Keys.{submission_owner}
use test_exchange_backend.Model.Entities.{Assignment, ContractTask, EvidenceSubmission, Json}
use test_exchange_backend.Session.{
  M, gets, or_raise, raise_if, now, uuid4, days, decimal, insert_submission, insert_item,
  set_assignment, pure, ◌>>=◌, ◌>>◌,
}
use test_exchange_backend.Common.{get_campaign, get_assignment, add_audit_event}
use test_exchange_backend.Notifications.{add_notification}
use test_exchange_backend.Workflow.StorageKey.{validate_storage_key}
use test_exchange_backend.Workflow.Applications.{tester_name}
use test_exchange_backend.Workflow.Testing.{contract_for_assignment}

-- `EvidenceItemCreate`
pub record EvidenceItemCreate : Type 0 where
  pub task_id : Option ℕ
  pub kind : EvidenceKind
  pub storage_key : Option String
  pub external_url : Option String
  pub note : Option String

-- `SubmissionCreate`
pub record SubmissionCreate : Type 0 where
  pub summary : String
  pub items : List EvidenceItemCreate

-- `id in {task.id for task in tasks}`
unfoldable pub is_task : ℕ → List ContractTask → Bool
is_task id = any (λ t. t.id == id)

abbrev refers_to : ℕ → Option ℕ → Bool
refers_to id none = false
refers_to id (some t) = t == id

-- `id in submitted_task_ids`
unfoldable pub is_submitted : ℕ → List EvidenceItemCreate → Bool
is_submitted id = any (λ i. refers_to id i.task_id)

-- the task of an item, if it names one, is among the contract's
abbrev known_task : List ContractTask → Option ℕ → Bool
known_task tasks none = true
known_task tasks (some id) = is_task id tasks

-- `submitted_task_ids.issubset(valid_task_ids)`
unfoldable pub tasks_valid : List ContractTask → List EvidenceItemCreate → Bool
tasks_valid tasks = all (λ i. known_task tasks i.task_id)

-- `required_task_ids - submitted_task_ids` is empty
unfoldable pub tasks_covered : List ContractTask → List EvidenceItemCreate → Bool
tasks_covered tasks items = all (λ t. not t.evidence_required || is_submitted t.id items) tasks

unfoldable pub check_key : ℕ → Option String → M (Unit {0})
check_key assignment_id none = pure tt
check_key assignment_id (some key) = validate_storage_key assignment_id key

-- `for item in payload.items: ...`, the checks
unfoldable pub check_items : ℕ → List EvidenceItemCreate → M (Unit {0})
unfolding check_key
check_items assignment_id [] = pure tt
check_items assignment_id (i ∷ rest) = do
  raise_if (is_none i.storage_key && is_none i.external_url && is_none i.note)
      "Every evidence item must include a file, link, or note" 422
  check_key assignment_id i.storage_key
  check_items assignment_id rest

-- `for item in payload.items: ...`, the inserts; the default of `created_at` reads the clock for each
-- row, at the flush in the code
unfoldable pub insert_items : ℕ → List EvidenceItemCreate → M (Unit {0})
insert_items submission_id [] = pure tt
insert_items submission_id (i ∷ rest) = do
  item_id ← uuid4
  inserted_at ← now
  insert_item (record {
    id = item_id;
    submission_id = submission_id;
    task_id = i.task_id;
    kind = i.kind;
    storage_key = i.storage_key;
    external_url = i.external_url;
    note = i.note;
    created_at = inserted_at;
  })
  insert_items submission_id rest

-- `select(func.max(version))`, with 0 where there is no submission
unfoldable pub latest_version : ℕ → List EvidenceSubmission → ℕ
latest_version assignment_id [] = 0
latest_version assignment_id (e ∷ rest) =
    let later = latest_version assignment_id rest in
    if e.assignment_id == assignment_id then max e.version later else later

unfoldable pub started_time : Option ℕ → M ℕ
started_time started_at = or_raise started_at "Start this assignment before submitting evidence" 409

-- the checks that come before the first row is written
unfoldable pub check_submission : Assignment → ℕ → SubmissionCreate → M (Unit {0})
unfolding started_time
check_submission assignment tester_id payload = do
  raise_if (not (assignment.tester_id == tester_id)) "Only the assigned tester can submit evidence"
      403
  raise_if
      (not (
        assignment_is assignment.status AssignmentStatus.in_progress
        || assignment_is assignment.status AssignmentStatus.changes_requested))
      "This assignment is not ready for a submission" 409
  (contract, tasks) ← contract_for_assignment assignment
  t ← now
  started_at ← started_time assignment.started_at
  raise_if (ltb t (started_at + days contract.minimum_duration_days))
      (append "This contract requires "
        (append (decimal contract.minimum_duration_days) " full days of testing"))
      409
  session_count ← gets (λ s. count_if (λ r. r.assignment_id == assignment.id) s.sessions)
  raise_if (ltb session_count contract.required_sessions)
      (append "Record "
        (append (decimal contract.required_sessions) " testing sessions before submitting"))
      409
  raise_if (not (tasks_valid tasks payload.items))
      "Evidence references a task outside this testing contract" 422
  raise_if (not (tasks_covered tasks payload.items))
      "Provide evidence for every required contract task" 422
  check_items assignment.id payload.items

unfoldable pub create_submission : ℕ → ℕ → SubmissionCreate → M EvidenceSubmission
create_submission assignment_id tester_id payload = do
  assignment ← get_assignment assignment_id
  check_submission assignment tester_id payload
  latest ← gets (λ s. latest_version assignment_id s.submissions)
  submission_id ← uuid4
  inserted_at ← now
  let submission : EvidenceSubmission = record {
    id = submission_id;
    assignment_id = assignment_id;
    version = latest + 1;
    summary = payload.summary;
    status = SubmissionStatus.submitted;
    submitted_at = inserted_at;
  }
  insert_submission submission
  insert_items submission_id payload.items
  t ← now
  set_assignment assignment_id
      (λ a. record a { status = AssignmentStatus.submitted; submitted_at = some t })
  add_audit_event tester_id "submission.created" "assignment" assignment_id
      (("submission_id", Json.uuid submission_id) ∷ ("version", Json.number (latest + 1)) ∷ [])
  campaign ← get_campaign assignment.campaign_id
  name ← tester_name assignment.tester_id
  add_notification campaign.owner_id "submission_received"
      (append "Evidence ready for " campaign.name)
      (append name (append " submitted version " (append (decimal (latest + 1)) " for review.")))
      "submission" submission_id (submission_owner submission_id)
  pure submission
