-- ===== src/Common.antt =====
-- app/services/common.py: the rows that a service has to find, the permission checks, and the audit
-- trail.
use test_exchange_backend.Base.{ℕ, String, not, ◌||◌, some, List, ◌==◌, find}
use test_exchange_backend.Model.Entities.{Profile, Campaign, Assignment, Json}
use test_exchange_backend.Session.{
  M, gets, or_raise, raise_if, uuid4, insert_audit_event, pure, ◌>>=◌, ◌>>◌,
}

unfoldable pub get_profile : ℕ → M Profile
get_profile user_id = do
  profile ← gets (λ s. find (λ p. p.id == user_id) s.profiles)
  or_raise profile "Create your profile before using this feature" 409

unfoldable pub get_campaign : ℕ → M Campaign
get_campaign campaign_id = do
  campaign ← gets (λ s. find (λ c. c.id == campaign_id) s.campaigns)
  or_raise campaign "Campaign not found" 404

unfoldable pub get_assignment : ℕ → M Assignment
get_assignment assignment_id = do
  assignment ← gets (λ s. find (λ a. a.id == assignment_id) s.assignments)
  or_raise assignment "Assignment not found" 404

unfoldable pub require_campaign_owner : Campaign → ℕ → M (Unit {0})
require_campaign_owner campaign user_id =
    raise_if (not (campaign.owner_id == user_id)) "Only the campaign owner can perform this action"
      403

unfoldable pub require_assignment_participant : Assignment → ℕ → M Campaign
require_assignment_participant assignment user_id = do
  campaign ← get_campaign assignment.campaign_id
  raise_if (not (user_id == assignment.tester_id || user_id == campaign.owner_id))
      "This workspace is private to its tester and campaign owner" 403
  pure campaign

unfoldable pub add_audit_event : ℕ → String → String → ℕ → List (String × Json) → M (Unit {0})
add_audit_event actor_id action entity_type entity_id details = do
  event_id ← uuid4
  insert_audit_event (record {
    id = event_id;
    actor_id = some actor_id;
    action = action;
    entity_type = entity_type;
    entity_id = entity_id;
    details = details;
  })
