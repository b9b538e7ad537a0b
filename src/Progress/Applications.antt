-- ===== src/Progress/Applications.antt =====
-- The decisions about an application: accept, decline, withdraw and start.
use test_exchange_backend.Base.{ℕ, arith}
use test_exchange_backend.Session.{Session}
use test_exchange_backend.Session.Wp.{Post}
use test_exchange_backend.Workflow.{
  accept_assignment, decline_assignment, withdraw_assignment, start_assignment,
}
use test_exchange_backend.Stability.Basics.{service_rules}
use test_exchange_backend.Stability.Campaigns.{Keeps-maybe_complete_campaign}
use test_exchange_backend.Stability.Workflow.{Keeps-tester_name}
use test_exchange_backend.Progress.Guards.{MovesFrom, progress_rules}

pub accept-Moves :
    (assignment_id owner_id : ℕ) (s : Session)
    → Post (MovesFrom s.assignments) (accept_assignment assignment_id owner_id) s
unfolding accept_assignment
accept-Moves assignment_id owner_id s = search (progress_rules, service_rules, arith) depth 60

pub decline-Moves :
    (assignment_id owner_id : ℕ) (s : Session)
    → Post (MovesFrom s.assignments) (decline_assignment assignment_id owner_id) s
unfolding decline_assignment
decline-Moves assignment_id owner_id s = search (progress_rules, service_rules, arith) depth 60

pub start-Moves :
    (assignment_id tester_id : ℕ) (s : Session)
    → Post (MovesFrom s.assignments) (start_assignment assignment_id tester_id) s
unfolding start_assignment
start-Moves assignment_id tester_id s = search (progress_rules, service_rules, arith) depth 60

pub withdraw-Moves :
    (assignment_id tester_id : ℕ) (s : Session)
    → Post (MovesFrom s.assignments) (withdraw_assignment assignment_id tester_id) s
unfolding withdraw_assignment
withdraw-Moves assignment_id tester_id s =
    search (progress_rules, service_rules, Keeps-maybe_complete_campaign, Keeps-tester_name, arith)
      depth 60
