-- ===== src/Schemas/Bodies.antt =====
-- The request bodies: each test is true of the bodies that pydantic accepts.
use test_exchange_backend.Base.{
  ℕ, String, Bool, false, not, ◌&&◌, Option, List, [], ◌∷◌, all, length,
}
use test_exchange_backend.Campaigns.{
  CampaignCreate, CampaignUpdate, CampaignLaunch, ContractTaskInput, ContractUpsert,
}
use test_exchange_backend.Workflow.{EvidenceItemCreate, SubmissionCreate}
use test_exchange_backend.Workflow.StorageKey.{codes}
use test_exchange_backend.Moderation.{DisputeResolve, remedy_invalid}
use test_exchange_backend.Profiles.{ProfileUpsert}
use test_exchange_backend.Schemas.Fields.{
  is_between, has_length, null_or, patch_or, is_username_char, slug_rest,
}

-- `^[a-z0-9]+(?:-[a-z0-9]+)*$`
unfoldable pub is_slug : String → Bool
unfolding slug_rest
is_slug text = slug_rest false (codes text)

unfoldable pub username_chars : List ℕ → Bool
unfolding is_username_char
username_chars [] = false
username_chars (c ∷ rest) = is_username_char c && all is_username_char rest

-- `^[a-zA-Z0-9_-]+$`
unfoldable pub is_username : String → Bool
unfolding username_chars
is_username text = username_chars (codes text)

unfoldable pub profile_upsert_valid : ProfileUpsert → Bool
unfolding is_username has_length null_or
profile_upsert_valid payload =
    has_length 3 40 payload.username
    && is_username payload.username
    && has_length 1 100 payload.display_name
    && null_or (has_length 0 500) payload.bio

unfoldable pub campaign_create_valid : CampaignCreate → Bool
unfolding is_slug has_length is_between null_or
campaign_create_valid payload =
    has_length 2 120 payload.name
    && has_length 3 140 payload.slug
    && is_slug payload.slug
    && has_length 2 80 payload.category
    && has_length 20 800 payload.public_summary
    && has_length 10 800 payload.public_tester_requirements
    && null_or (has_length 0 80) payload.minimum_version
    && is_between 1 100 payload.target_testers
    && is_between 1 1000 payload.reward_credits

unfoldable pub campaign_update_valid : CampaignUpdate → Bool
unfolding has_length is_between patch_or
campaign_update_valid payload =
    patch_or (has_length 2 120) payload.name
    && patch_or (has_length 2 80) payload.category
    && patch_or (has_length 20 800) payload.public_summary
    && patch_or (has_length 10 800) payload.public_tester_requirements
    && patch_or (has_length 0 80) payload.minimum_version
    && patch_or (is_between 1 100) payload.target_testers
    && patch_or (is_between 1 1000) payload.reward_credits

unfoldable pub contract_task_valid : ContractTaskInput → Bool
unfolding has_length
contract_task_valid task = has_length 2 160 task.title && has_length 10 4000 task.instructions

unfoldable pub contract_upsert_valid : ContractUpsert → Bool
unfolding contract_task_valid has_length is_between null_or
contract_upsert_valid payload =
    has_length 20 8000 payload.tester_instructions
    && null_or (has_length 0 4000) payload.access_instructions
    && null_or (has_length 0 4000) payload.device_requirements
    && has_length 10 4000 payload.evidence_requirements
    && is_between 1 720 payload.review_window_hours
    && is_between 0 90 payload.minimum_duration_days
    && is_between 1 30 payload.required_sessions
    && is_between 1 25 (length payload.tasks)
    && all contract_task_valid payload.tasks

unfoldable pub campaign_launch_valid : CampaignLaunch → Bool
unfolding campaign_create_valid contract_upsert_valid
campaign_launch_valid payload =
    campaign_create_valid payload.campaign && contract_upsert_valid payload.contract

-- `AssignmentApply` and `TestingSessionCreate`
unfoldable pub short_note_valid : Option String → Bool
unfolding has_length null_or
short_note_valid = null_or (has_length 0 1000)

unfoldable pub evidence_item_valid : EvidenceItemCreate → Bool
unfolding has_length null_or
evidence_item_valid item =
    null_or (has_length 0 500) item.storage_key && null_or (has_length 0 8000) item.note

unfoldable pub submission_create_valid : SubmissionCreate → Bool
unfolding evidence_item_valid has_length is_between
submission_create_valid payload =
    has_length 20 8000 payload.summary
    && is_between 1 50 (length payload.items)
    && all evidence_item_valid payload.items

-- `ReviewCreate.notes`
unfoldable pub review_create_valid : String → Bool
unfolding has_length
review_create_valid = has_length 5 8000

-- `MessageCreate.body`
unfoldable pub message_create_valid : String → Bool
unfolding has_length
message_create_valid = has_length 1 4000

-- `DisputeCreate.reason`
unfoldable pub dispute_create_valid : String → Bool
unfolding has_length
dispute_create_valid = has_length 20 8000

unfoldable pub dispute_resolve_valid : DisputeResolve → Bool
unfolding has_length remedy_invalid
dispute_resolve_valid payload =
    has_length 20 8000 payload.resolution && not (remedy_invalid payload)

-- `ParticipantSuspension.reason`
unfoldable pub participant_suspension_valid : String → Bool
unfolding has_length
participant_suspension_valid = has_length 10 500
