-- ===== src/Workflow/Applications.antt =====
-- Applying to a campaign, and the owner's and the tester's decisions about an application.
use Prim.Native.String.{◌++◌ as append}
use test_exchange_backend.Base.{
  ℕ, String, not, ◌&&◌, ◌||◌, Option, none, some, [], ◌∷◌, ◌==◌, leb, is_some, find,
}
use test_exchange_backend.Model.Enums.{CampaignStatus, AssignmentStatus, campaign_is, assignment_is}
use test_exchange_backend.Model.Keys.{
  assignment_application, assignment_accepted, assignment_declined, assignment_withdrawn,
}
use test_exchange_backend.Model.Entities.{Profile, Assignment, Json}
use test_exchange_backend.Session.{
  M, gets, throw, unhandled_error, or_raise, raise_if, now, uuid4, date_of, insert_assignment,
  insert_testing_session, set_assignment, pure, ◌>>=◌, ◌>>◌,
}
use test_exchange_backend.Common.{
  get_profile, get_campaign, get_assignment, require_campaign_owner, add_audit_event,
}
use test_exchange_backend.Notifications.{add_notification}
use test_exchange_backend.Campaigns.{occupied_slots, maybe_complete_campaign}

unfoldable pub display_name_of : Option Profile → M String
display_name_of none = throw unhandled_error
display_name_of (some p) = pure p.display_name

-- `assignment.tester_profile.display_name`: without a profile an AttributeError
unfoldable pub tester_name : ℕ → M String
unfolding display_name_of
tester_name tester_id = do
  profile ← gets (λ s. find (λ p. p.id == tester_id) s.profiles)
  display_name_of profile

-- `status_value` of an assignment
unfoldable pub assignment_status_value : AssignmentStatus → String
assignment_status_value AssignmentStatus.applied = "applied"
assignment_status_value AssignmentStatus.accepted = "accepted"
assignment_status_value AssignmentStatus.in_progress = "in_progress"
assignment_status_value AssignmentStatus.submitted = "submitted"
assignment_status_value AssignmentStatus.changes_requested = "changes_requested"
assignment_status_value AssignmentStatus.approved = "approved"
assignment_status_value AssignmentStatus.rejected = "rejected"
assignment_status_value AssignmentStatus.cancelled = "cancelled"

unfoldable pub new_assignment : ℕ → ℕ → Option String → ℕ → Assignment
new_assignment campaign_id tester_id application_note assignment_id = record {
  id = assignment_id;
  campaign_id = campaign_id;
  tester_id = tester_id;
  application_note = application_note;
  status = AssignmentStatus.applied;
  accepted_at = none;
  started_at = none;
  submitted_at = none;
  completed_at = none;
}

unfoldable pub apply_to_campaign : ℕ → ℕ → Option String → M Assignment
unfolding new_assignment
apply_to_campaign campaign_id tester_id application_note = do
  get_profile tester_id
  found ← gets (λ s. find (λ c. c.id == campaign_id) s.campaigns)
  campaign ← or_raise found "Campaign not found" 404
  raise_if (not (campaign_is campaign.status CampaignStatus.published))
      "This campaign is not accepting testers" 409
  raise_if (campaign.owner_id == tester_id) "Campaign owners cannot test their own campaign" 409
  existing ←
      gets (λ s. find (λ a. a.campaign_id == campaign_id && a.tester_id == tester_id) s.assignments)
  raise_if (is_some existing) "You already applied to this campaign" 409
  occupied_places ← gets (λ s. occupied_slots campaign.id s.assignments)
  raise_if (leb campaign.target_testers occupied_places)
      "This campaign already has its target number of testers" 409
  assignment_id ← uuid4
  insert_assignment (new_assignment campaign_id tester_id application_note assignment_id)
  add_audit_event tester_id "assignment.applied" "assignment" assignment_id []
  name ← tester_name tester_id
  add_notification campaign.owner_id "application_received"
      (append "New application for " campaign.name) (append name " requested a tester spot.")
      "assignment" assignment_id (assignment_application assignment_id)
  pure (new_assignment campaign_id tester_id application_note assignment_id)

unfoldable pub accept_assignment : ℕ → ℕ → M Assignment
accept_assignment assignment_id owner_id = do
  located ← gets (λ s. find (λ a. a.id == assignment_id) s.assignments)
  located_assignment ← or_raise located "Assignment not found" 404
  found ← gets (λ s. find (λ c. c.id == located_assignment.campaign_id) s.campaigns)
  campaign ← or_raise found "Campaign not found" 404
  require_campaign_owner campaign owner_id
  raise_if (not (campaign_is campaign.status CampaignStatus.published))
      "This campaign is not accepting testers" 409
  assignment ← get_assignment assignment_id
  raise_if (not (assignment_is assignment.status AssignmentStatus.applied))
      "Only pending applications can be accepted" 409
  occupied_places ← gets (λ s. occupied_slots campaign.id s.assignments)
  raise_if (leb campaign.target_testers occupied_places)
      "This campaign already has its target number of testers" 409
  t ← now
  let change =
      λ (a : Assignment). record a { status = AssignmentStatus.accepted; accepted_at = some t }
  set_assignment assignment_id change
  add_audit_event owner_id "assignment.accepted" "assignment" assignment_id []
  add_notification assignment.tester_id "application_accepted"
      (append "You were accepted for " campaign.name)
      "The locked contract and private access instructions are now available." "assignment"
      assignment_id (assignment_accepted assignment_id)
  pure (change assignment)

unfoldable pub decline_assignment : ℕ → ℕ → M Assignment
decline_assignment assignment_id owner_id = do
  assignment ← get_assignment assignment_id
  campaign ← get_campaign assignment.campaign_id
  require_campaign_owner campaign owner_id
  raise_if (not (assignment_is assignment.status AssignmentStatus.applied))
      "Only pending applications can be declined" 409
  t ← now
  let change =
      λ (a : Assignment). record a { status = AssignmentStatus.cancelled; completed_at = some t }
  set_assignment assignment_id change
  add_audit_event owner_id "assignment.declined" "assignment" assignment_id []
  add_notification assignment.tester_id "application_declined"
      (append "Application update for " campaign.name)
      "The campaign owner selected other testers for this campaign." "assignment" assignment_id
      (assignment_declined assignment_id)
  pure (change assignment)

unfoldable pub withdraw_assignment : ℕ → ℕ → M Assignment
unfolding assignment_status_value
withdraw_assignment assignment_id tester_id = do
  assignment ← get_assignment assignment_id
  raise_if (not (assignment.tester_id == tester_id))
      "Only the tester can withdraw from this assignment" 403
  raise_if
      (not (
        assignment_is assignment.status AssignmentStatus.applied
        || assignment_is assignment.status AssignmentStatus.accepted
        || assignment_is assignment.status AssignmentStatus.in_progress
        || assignment_is assignment.status AssignmentStatus.changes_requested))
      "This assignment can no longer be withdrawn" 409
  campaign ← get_campaign assignment.campaign_id
  t ← now
  let change =
      λ (a : Assignment). record a { status = AssignmentStatus.cancelled; completed_at = some t }
  set_assignment assignment_id change
  add_audit_event tester_id "assignment.withdrawn" "assignment" assignment_id
      (("previous_status", Json.text (assignment_status_value assignment.status)) ∷ [])
  name ← tester_name assignment.tester_id
  add_notification campaign.owner_id "tester_withdrew"
      (append "A tester withdrew from " campaign.name) (append name " is no longer participating.")
      "assignment" assignment_id (assignment_withdrawn assignment_id)
  maybe_complete_campaign campaign tester_id
  pure (change assignment)

unfoldable pub start_assignment : ℕ → ℕ → M Assignment
start_assignment assignment_id tester_id = do
  assignment ← get_assignment assignment_id
  raise_if (not (assignment.tester_id == tester_id)) "Only the assigned tester can start this test"
      403
  raise_if (not (assignment_is assignment.status AssignmentStatus.accepted))
      "Only accepted assignments can be started" 409
  t ← now
  let change =
      λ (a : Assignment). record a { status = AssignmentStatus.in_progress; started_at = some t }
  set_assignment assignment_id change
  session_id ← uuid4
  insert_testing_session (record {
    id = session_id;
    assignment_id = assignment_id;
    session_date = date_of t;
    note = some "Testing started";
  })
  add_audit_event tester_id "assignment.started" "assignment" assignment_id []
  pure (change assignment)
