-- ===== src/Examples/Assignments.antt =====
-- The theorems on the workflow, on a database with two assignments.
use test_exchange_backend.Base.{
  if◌then◌else◌, ◌==◌, ℕ, ◌+◌, ◌≤◌, false, some, ◌≡◌, refl, inl, arith, find, count_if,
}
use test_exchange_backend.Model.Enums.{AssignmentStatus}
use test_exchange_backend.Model.Entities.{Assignment}
use test_exchange_backend.Campaigns.{Action}
use test_exchange_backend.Workflow.Steps.{Moves, assignment_at}
use test_exchange_backend.Api.Requests.{Request, handle, serve}
use test_exchange_backend.Progress.Closing.{HasUniqueIds, with_id}
use test_exchange_backend.Progress.Requests.{handle-Moves}
use test_exchange_backend.Progress.Reach.{Follows, serve-Follows, serve-keeps_final}
use test_exchange_backend.Examples.Databases.{
  settings, call, assignment, used_database, later_calls,
}

once_each :
    (id i j : ℕ)
    → (i == j) ≡ false
    → (if i == id then 1 else 0) + ((if j == id then 1 else 0) + 0) ≤ 1
once_each id i j differ = ground arith

pub used_database-HasUniqueIds : HasUniqueIds used_database.assignments
unfolding with_id count_if
used_database-HasUniqueIds id = once_each id 20 21 refl

handle-Moves_example :
    Moves used_database.assignments
      (handle settings used_database (call 1 500 (Request.transition 10 Action.close))).assignments
handle-Moves_example =
    handle-Moves settings used_database (call 1 500 (Request.transition 10 Action.close))
      used_database-HasUniqueIds

serve-Follows_example :
    Follows used_database.assignments (serve settings used_database later_calls).assignments
serve-Follows_example = serve-Follows settings used_database later_calls used_database-HasUniqueIds

at_21 :
    assignment_at 21 used_database.assignments ≡ some (assignment 21 3 AssignmentStatus.approved)
unfolding find
at_21 = refl

serve-keeps_final_example :
    (b : Assignment) × (assignment_at 21 (serve settings used_database later_calls).assignments
      ≡ some b)
    × (b.status ≡ AssignmentStatus.approved)
serve-keeps_final_example =
    serve-keeps_final settings used_database later_calls 21
      (assignment 21 3 AssignmentStatus.approved) used_database-HasUniqueIds at_21 (inl refl)
