-- ===== src/Campaigns/Drafts.antt =====
-- Creating and editing a draft campaign.
use text.Mathlib.Text.{◌==◌ as str_eq}
use test_exchange_backend.Base.{ℕ, String, not, Option, none, some, [], is_some, find}
use test_exchange_backend.Model.Enums.{Platform, CampaignStatus, campaign_is}
use test_exchange_backend.Model.Entities.{Campaign}
use test_exchange_backend.Session.{
  M, throw, integrity_error, gets, raise_if, uuid4, insert_campaign, set_campaign, pure, ◌>>=◌,
  ◌>>◌,
}
use test_exchange_backend.Common.{
  get_profile, get_campaign, require_campaign_owner, add_audit_event,
}

-- `CampaignCreate`
pub record CampaignCreate : Type 0 where
  pub name : String
  pub slug : String
  pub platform : Platform
  pub category : String
  pub public_summary : String
  pub public_tester_requirements : String
  pub minimum_version : Option String
  pub target_testers : ℕ
  pub reward_credits : ℕ

unfoldable pub new_campaign : ℕ → CampaignCreate → ℕ → Campaign
new_campaign owner_id payload campaign_id = record {
  id = campaign_id;
  owner_id = owner_id;
  name = payload.name;
  slug = payload.slug;
  platform = payload.platform;
  category = payload.category;
  public_summary = payload.public_summary;
  public_tester_requirements = payload.public_tester_requirements;
  minimum_version = payload.minimum_version;
  target_testers = payload.target_testers;
  reward_credits = payload.reward_credits;
  status = CampaignStatus.draft;
  published_at = none;
}

unfoldable pub create_campaign : ℕ → CampaignCreate → M Campaign
unfolding new_campaign
create_campaign owner_id payload = do
  get_profile owner_id
  taken ← gets (λ s. find (λ c. str_eq c.slug payload.slug) s.campaigns)
  raise_if (is_some taken) "That campaign slug is already in use" 409
  campaign_id ← uuid4
  let campaign = new_campaign owner_id payload campaign_id
  insert_campaign campaign
  add_audit_event owner_id "campaign.created" "campaign" campaign_id []
  pure campaign

-- A field of a PATCH body: left out, or given, and given as null perhaps.
abbrev pub Patch : Type 0 → Type 0
Patch A = Option (Option A)

-- `CampaignUpdate`
pub record CampaignUpdate : Type 0 where
  pub name : Patch String
  pub category : Patch String
  pub public_summary : Patch String
  pub public_tester_requirements : Patch String
  pub minimum_version : Patch String
  pub target_testers : Patch ℕ
  pub reward_credits : Patch ℕ

-- A column that may not be null: null is an IntegrityError when the row is flushed.
unfoldable pub patched : {A : Type 0} → Patch A → A → M A
patched none old = pure old
patched (some none) old = throw integrity_error
patched (some (some new)) old = pure new

unfoldable pub patched_nullable : {A : Type 0} → Patch A → Option A → Option A
patched_nullable none old = old
patched_nullable (some new) old = new

unfoldable pub update_campaign : ℕ → ℕ → CampaignUpdate → M Campaign
unfolding patched patched_nullable
update_campaign campaign_id owner_id payload = do
  campaign ← get_campaign campaign_id
  require_campaign_owner campaign owner_id
  raise_if (not (campaign_is campaign.status CampaignStatus.draft))
      "Published campaigns cannot change their testing promise" 409
  new_name ← patched payload.name campaign.name
  new_category ← patched payload.category campaign.category
  new_summary ← patched payload.public_summary campaign.public_summary
  new_requirements ← patched payload.public_tester_requirements campaign.public_tester_requirements
  new_target ← patched payload.target_testers campaign.target_testers
  new_reward ← patched payload.reward_credits campaign.reward_credits
  let change = λ (c : Campaign). record c {
    name = new_name;
    category = new_category;
    public_summary = new_summary;
    public_tester_requirements = new_requirements;
    minimum_version = patched_nullable payload.minimum_version campaign.minimum_version;
    target_testers = new_target;
    reward_credits = new_reward;
  }
  set_campaign campaign_id change
  add_audit_event owner_id "campaign.updated" "campaign" campaign_id []
  pure (change campaign)
