-- ===== src/Routes/CampaignRoutes.antt =====
-- app/api/routes/campaigns.py
use test_exchange_backend.Base.{ℕ, List}
use test_exchange_backend.Session.{M, ◌>>=◌, ◌>>◌}
use test_exchange_backend.Common.{get_campaign, require_campaign_owner}
use test_exchange_backend.Campaigns.{
  CampaignCreate, CampaignUpdate, CampaignLaunch, ContractUpsert, Action, create_campaign,
  update_campaign, upsert_contract, launch_campaign, publish_campaign, transition_campaign,
}
use test_exchange_backend.Reading.{list_owned_campaigns}
use test_exchange_backend.Schemas.{CampaignRead, ContractRead}
use test_exchange_backend.Routes.Responses.{for_each, campaign_response, contract_response}

unfoldable pub create : CampaignCreate → ℕ → M CampaignRead
create payload user_id = do campaign ← create_campaign user_id payload; campaign_response campaign

unfoldable pub launch : CampaignLaunch → ℕ → M CampaignRead
launch payload user_id = do campaign ← launch_campaign user_id payload; campaign_response campaign

unfoldable pub mine : ℕ → M (List CampaignRead)
mine user_id = do campaigns ← list_owned_campaigns user_id; for_each campaign_response campaigns

unfoldable pub update : ℕ → CampaignUpdate → ℕ → M CampaignRead
update campaign_id payload user_id = do
  campaign ← update_campaign campaign_id user_id payload
  campaign_response campaign

unfoldable pub save_contract : ℕ → ContractUpsert → ℕ → M ContractRead
save_contract campaign_id payload user_id = do
  upsert_contract campaign_id user_id payload
  contract_response campaign_id

unfoldable pub read_contract : ℕ → ℕ → M ContractRead
read_contract campaign_id user_id = do
  campaign ← get_campaign campaign_id
  require_campaign_owner campaign user_id
  contract_response campaign_id

unfoldable pub publish : ℕ → ℕ → M CampaignRead
publish campaign_id user_id = do
  campaign ← publish_campaign campaign_id user_id
  campaign_response campaign

unfoldable pub transition : ℕ → Action → ℕ → M CampaignRead
transition campaign_id action user_id = do
  campaign ← transition_campaign campaign_id user_id action
  campaign_response campaign
