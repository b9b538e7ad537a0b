-- ===== src/Workflow/Testing.antt =====
-- The testing sessions of an assignment under test, and the contract that it is tested by.
use test_exchange_backend.Base.{
  ℕ, String, not, ◌&&◌, ◌||◌, Option, List, [], ◌∷◌, ◌==◌, is_some, find, select,
}
use test_exchange_backend.Model.Enums.{AssignmentStatus, assignment_is}
use test_exchange_backend.Model.Entities.{
  Assignment, TestingContract, ContractTask, TestingSession, Json,
}
use test_exchange_backend.Session.{
  M, gets, or_raise, raise_if, now, uuid4, date_of, insert_testing_session, pure, ◌>>=◌, ◌>>◌,
}
use test_exchange_backend.Common.{get_assignment, add_audit_event}

-- `_contract_for_assignment`
unfoldable pub contract_for_assignment : Assignment → M (TestingContract × List ContractTask)
contract_for_assignment assignment = do
  found ← gets (λ s. find (λ c. c.campaign_id == assignment.campaign_id) s.contracts)
  contract ← or_raise found "The campaign does not have a testing contract" 409
  tasks ← gets (λ s. select (λ t. t.contract_id == contract.id) s.tasks)
  pure (contract, tasks)

unfoldable pub record_testing_session : ℕ → ℕ → Option String → M TestingSession
record_testing_session assignment_id tester_id note = do
  assignment ← get_assignment assignment_id
  raise_if (not (assignment.tester_id == tester_id)) "Only the assigned tester can record a session"
      403
  raise_if
      (not (
        assignment_is assignment.status AssignmentStatus.in_progress
        || assignment_is assignment.status AssignmentStatus.changes_requested))
      "Sessions can only be recorded while testing is active" 409
  t ← now
  existing ←
      gets (λ s.
        find (λ r. r.assignment_id == assignment_id && r.session_date == date_of t) s.sessions)
  raise_if (is_some existing) "A testing session is already recorded for today" 409
  session_id ← uuid4
  let session : TestingSession = record {
    id = session_id;
    assignment_id = assignment_id;
    session_date = date_of t;
    note = note;
  }
  insert_testing_session session
  add_audit_event tester_id "testing_session.recorded" "assignment" assignment_id
      (("testing_session_id", Json.uuid session_id) ∷ ("session_date", Json.day (date_of t)) ∷ [])
  pure session
