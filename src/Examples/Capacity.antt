-- ===== src/Examples/Capacity.antt =====
-- An application that is accepted, computed.
use test_exchange_backend.Base.{◌≤◌, ◌==◌, some, ◌≡◌, refl, find, count_if, any, update_if}
use test_exchange_backend.Model.Enums.{AssignmentStatus, campaign_is, assignment_is, occupied}
use test_exchange_backend.Model.Keys.{notification_key_eq}
use test_exchange_backend.Model.Entities.{Assignment, Campaign}
use test_exchange_backend.Session.{
  Session, Result, ok, err, gets, or_raise, raise_if, now, uuid4, insert, insert_audit_event,
  insert_notification, set_assignment, pure, ◌>>=◌,
}
use test_exchange_backend.Common.{get_assignment, require_campaign_owner, add_audit_event}
use test_exchange_backend.Notifications.{add_notification, insert_if_new}
use test_exchange_backend.Campaigns.{occupied_slots}
use test_exchange_backend.Workflow.{accept_assignment}
use test_exchange_backend.Workflow.Steps.{assignment_at}
use test_exchange_backend.Progress.Capacity.{accept_assignment-HasRoom}
use test_exchange_backend.Examples.Databases.{assignment, used_database}
use test_exchange_backend.Examples.Assignments.{used_database-HasUniqueIds}

state_of : Session → Result (Assignment × Session) → Session
state_of s (ok (a, s')) = s'
state_of s (err e) = s

-- the database once the application is accepted
accepted_database : Session
accepted_database = state_of used_database (accept_assignment 20 1 used_database)

accepted :
    accept_assignment 20 1 used_database
    ≡ ok (
      record (assignment 20 2 AssignmentStatus.accepted) { accepted_at = some 0 },
      accepted_database,
    )
unfolding accepted_database state_of accept_assignment gets or_raise raise_if now uuid4 insert
    insert_audit_event insert_notification set_assignment pure ◌>>=◌ get_assignment
    require_campaign_owner add_audit_event add_notification insert_if_new occupied_slots occupied
    campaign_is assignment_is find count_if any update_if notification_key_eq
accepted = refl

accept_assignment-HasRoom_example :
    (a : Assignment) × (c : Campaign) × (assignment_at 20 used_database.assignments ≡ some a)
    × (find (λ x. x.id == a.campaign_id) used_database.campaigns ≡ some c)
    × (occupied_slots c.id accepted_database.assignments ≤ c.target_testers)
accept_assignment-HasRoom_example =
    accept_assignment-HasRoom 20 1 used_database accepted_database
      (record (assignment 20 2 AssignmentStatus.accepted) { accepted_at = some 0 })
      used_database-HasUniqueIds accepted
