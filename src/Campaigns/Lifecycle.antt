-- ===== src/Campaigns/Lifecycle.antt =====
-- Publication, launch, completion, and the owner's pause, resume and close.
use Prim.Native.String.{◌++◌ as append}
use test_exchange_backend.Base.{
  ℕ, ◌*◌, String, Bool, true, false, not, ◌&&◌, ◌||◌, some, List, [], ◌∷◌, ◌==◌, ltb, leb,
  if◌then◌else◌, is_some, find, select, count_if,
}
use test_exchange_backend.Base.Int.{neg}
use test_exchange_backend.Model.Enums.{
  CampaignStatus, ContractStatus, AssignmentStatus, CreditEntryType, campaign_is, assignment_is,
  occupied, active_testing,
}
use test_exchange_backend.Model.Keys.{campaign_posting, assignment_recruitment_closed}
use test_exchange_backend.Model.Entities.{Campaign, Assignment, ContractTask, Json}
use test_exchange_backend.Session.{
  M, gets, or_raise, raise_if, now, decimal, set_campaign, set_contract, set_assignment, pure,
  ◌>>=◌, ◌>>◌,
}
use test_exchange_backend.Common.{require_campaign_owner, add_audit_event}
use test_exchange_backend.Notifications.{add_notification}
use test_exchange_backend.Credits.{record_credit_entry}
use test_exchange_backend.Campaigns.Drafts.{CampaignCreate, create_campaign}
use test_exchange_backend.Campaigns.Contracts.{ContractUpsert, upsert_contract, get_contract}

-- The assignments of a campaign that hold one of its places.
unfoldable pub occupied_slots : ℕ → List Assignment → ℕ
occupied_slots campaign_id = count_if (λ a. a.campaign_id == campaign_id && occupied a.status)

unfoldable pub set_campaign_status : ℕ → CampaignStatus → M (Unit {0})
set_campaign_status campaign_id status =
    set_campaign campaign_id (λ c. record c { status = status })

unfoldable pub is_empty : List ContractTask → Bool
is_empty [] = true
is_empty (t ∷ rest) = false

unfoldable pub posting_note : Campaign → String
posting_note c = append "Published " (
    append c.name
      (append ": permanent spend for " (append (decimal c.target_testers) " tester rewards")))

-- the part of `publish_campaign` below its early return
unfoldable pub publish_draft : Campaign → ℕ → M Campaign
unfolding is_empty posting_note
publish_draft campaign owner_id = do
  raise_if (not (campaign_is campaign.status CampaignStatus.draft))
      "Only draft campaigns can be published" 409
  (contract, tasks) ← get_contract campaign.id
  raise_if (is_empty tasks) "Add at least one contract task before publishing" 409
  let required_credits = campaign.target_testers * campaign.reward_credits
  record_credit_entry (record {
    user_id = owner_id;
    delta = neg required_credits;
    entry_type = CreditEntryType.posting;
    idempotency_key = campaign_posting campaign.id;
    reference_type = some "campaign";
    reference_id = some campaign.id;
    note = some (posting_note campaign);
    created_by = some owner_id;
  })
  t ← now
  set_campaign campaign.id
      (λ c. record c { status = CampaignStatus.published; published_at = some t })
  set_contract contract.id (λ c. record c { status = ContractStatus.locked; locked_at = some t })
  add_audit_event owner_id "campaign.published" "campaign" campaign.id
      (("spent_credits", Json.number required_credits) ∷ ("refundable", Json.flag false) ∷ [])
  pure (record campaign { status = CampaignStatus.published; published_at = some t })

unfoldable pub publish_campaign : ℕ → ℕ → M Campaign
unfolding publish_draft
publish_campaign campaign_id owner_id = do
  found ← gets (λ s. find (λ c. c.id == campaign_id) s.campaigns)
  campaign ← or_raise found "Campaign not found" 404
  require_campaign_owner campaign owner_id
  if campaign_is campaign.status CampaignStatus.published
      then pure campaign
      else publish_draft campaign owner_id

-- `CampaignLaunch`
pub record CampaignLaunch : Type 0 where
  pub campaign : CampaignCreate
  pub contract : ContractUpsert

unfoldable pub launch_campaign : ℕ → CampaignLaunch → M Campaign
launch_campaign owner_id payload = do
  campaign ← create_campaign owner_id payload.campaign
  upsert_contract campaign.id owner_id payload.contract
  publish_campaign campaign.id owner_id

-- the counts that decide completion
unfoldable pub approved_count : ℕ → List Assignment → ℕ
approved_count campaign_id =
    count_if (λ a. a.campaign_id == campaign_id && assignment_is a.status AssignmentStatus.approved)

unfoldable pub active_count : ℕ → List Assignment → ℕ
active_count campaign_id = count_if (λ a. a.campaign_id == campaign_id && active_testing a.status)

unfoldable pub accepted_count : ℕ → List Assignment → ℕ
accepted_count campaign_id = count_if (λ a. a.campaign_id == campaign_id && is_some a.accepted_at)

unfoldable pub target_reached : Campaign → List Assignment → Bool
target_reached campaign rows =
    (campaign_is campaign.status CampaignStatus.published
      || campaign_is campaign.status CampaignStatus.paused)
    && leb campaign.target_testers (approved_count campaign.id rows)

unfoldable pub closed_work_settled : Campaign → List Assignment → Bool
closed_work_settled campaign rows =
    campaign_is campaign.status CampaignStatus.cancelled
    && active_count campaign.id rows == 0
    && ltb 0 (accepted_count campaign.id rows)

unfoldable pub maybe_complete_campaign : Campaign → ℕ → M Bool
maybe_complete_campaign campaign actor_id = do
  rows ← gets (λ s. s.assignments)
  if not (target_reached campaign rows) && not (closed_work_settled campaign rows)
      then pure false
      else do
        set_campaign_status campaign.id CampaignStatus.completed
        add_audit_event actor_id "campaign.completed" "campaign" campaign.id (
            ("approved_testers", Json.number (approved_count campaign.id rows))
            ∷ ("target_reached", Json.flag (target_reached campaign rows))
            ∷ ("recruitment_closed", Json.flag (closed_work_settled campaign rows))
            ∷ [])
        pure true

-- `CampaignTransition.action`
pub data Action : Type 0 where
  pause resume close : Action

-- the body of the loop over the pending assignments of a campaign that closes
unfoldable pub decline_one : Campaign → ℕ → ℕ → Assignment → M (Unit {0})
decline_one campaign owner_id t a = do
  set_assignment a.id (λ r. record r { status = AssignmentStatus.cancelled; completed_at = some t })
  add_audit_event owner_id "assignment.declined" "assignment" a.id
      (("reason", Json.text "recruitment_closed") ∷ [])
  add_notification a.tester_id "application_closed" (append "Recruitment closed for " campaign.name)
      "The campaign closed recruitment before this application was accepted." "assignment" a.id
      (assignment_recruitment_closed a.id)
  pure tt

unfoldable pub decline_pending : Campaign → ℕ → ℕ → List Assignment → M (Unit {0})
decline_pending campaign owner_id t [] = pure tt
decline_pending campaign owner_id t (a ∷ rest) = do
  decline_one campaign owner_id t a
  decline_pending campaign owner_id t rest

-- the branches on `payload.action`; the result is the new status
unfoldable pub apply_action : Campaign → ℕ → Action → M CampaignStatus
apply_action campaign owner_id pause = do
  raise_if (not (campaign_is campaign.status CampaignStatus.published))
      "Only published campaigns can be paused" 409
  set_campaign_status campaign.id CampaignStatus.paused
  pure CampaignStatus.paused
apply_action campaign owner_id resume = do
  raise_if (not (campaign_is campaign.status CampaignStatus.paused))
      "Only paused campaigns can be resumed" 409
  occupied_places ← gets (λ s. occupied_slots campaign.id s.assignments)
  raise_if (leb campaign.target_testers occupied_places)
      "This campaign already has its target number of testers" 409
  set_campaign_status campaign.id CampaignStatus.published
  pure CampaignStatus.published
apply_action campaign owner_id close = do
  raise_if
      (not (
        campaign_is campaign.status CampaignStatus.published
        || campaign_is campaign.status CampaignStatus.paused))
      "Only an open or paused campaign can be closed" 409
  set_campaign_status campaign.id CampaignStatus.cancelled
  pending ← gets (λ s.
      select (λ a. a.campaign_id == campaign.id && assignment_is a.status AssignmentStatus.applied)
        s.assignments)
  t ← now
  decline_pending campaign owner_id t pending
  pure CampaignStatus.cancelled

-- `f"campaign.{payload.action}d" if payload.action != "close" else "campaign.closed"`
unfoldable pub action_name : Action → String
action_name pause = "campaign.paused"
action_name resume = "campaign.resumed"
action_name close = "campaign.closed"

-- `CampaignStatus(...).value`
unfoldable pub status_value : CampaignStatus → String
status_value CampaignStatus.draft = "draft"
status_value CampaignStatus.published = "published"
status_value CampaignStatus.paused = "paused"
status_value CampaignStatus.completed = "completed"
status_value CampaignStatus.cancelled = "cancelled"

unfoldable pub is_close : Action → Bool
is_close close = true
is_close _ = false

unfoldable pub transition_campaign : ℕ → ℕ → Action → M Campaign
unfolding action_name status_value is_close
transition_campaign campaign_id owner_id action = do
  found ← gets (λ s. find (λ c. c.id == campaign_id) s.campaigns)
  campaign ← or_raise found "Campaign not found" 404
  require_campaign_owner campaign owner_id
  new_status ← apply_action campaign owner_id action
  add_audit_event owner_id (action_name action) "campaign" campaign.id (
      ("previous_status", Json.text (status_value campaign.status))
      ∷ ("new_status", Json.text (status_value new_status))
      ∷ ("refund_credits", Json.number 0)
      ∷ [])
  let moved = record campaign { status = new_status }
  if is_close action
      then (do
        completed ← maybe_complete_campaign moved owner_id
        pure (record moved { status = if completed then CampaignStatus.completed else new_status }))
      else pure moved
