-- ===== src/Stability/Campaigns.antt =====
-- The services of app/services/campaigns.py.
use test_exchange_backend.Base.{ℕ, ◌+◌, Option, none, some, List, [], ◌∷◌, arith}
use test_exchange_backend.Model.Enums.{CampaignStatus}
use test_exchange_backend.Model.Entities.{Campaign, Assignment, TestingContract}
use test_exchange_backend.Session.{Session}
use test_exchange_backend.Session.Keeps.{Keeps, IsQuiet, IsStable}
use test_exchange_backend.Campaigns.{
  CampaignCreate, CampaignUpdate, ContractUpsert, ContractTaskInput, CampaignLaunch, Action, pause,
  resume, close, Patch, create_campaign, patched, update_campaign, save_contract, insert_tasks,
  upsert_contract, get_contract, publish_draft, publish_campaign, launch_campaign,
  set_campaign_status, maybe_complete_campaign, decline_one, decline_pending, apply_action,
  transition_campaign,
}
use test_exchange_backend.Stability.Basics.{IsCreditStable, service_rules}

module _ {P : Session → Type 0} (st : IsQuiet P) {A : Type 0} where
  Keeps-patched : (patch : Patch A) (old : A) → Keeps P (patched patch old)
  unfolding patched
  Keeps-patched none old = search service_rules
  Keeps-patched (some none) old = search service_rules
  Keeps-patched (some (some new)) old = search service_rules

module _ {P : Session → Type 0} (st : IsQuiet P) (cr : IsCreditStable P) where
  pub Keeps-create_campaign :
      (owner_id : ℕ) (payload : CampaignCreate) → Keeps P (create_campaign owner_id payload)
  unfolding create_campaign
  Keeps-create_campaign owner_id payload = search (service_rules, arith) depth 40

  pub Keeps-update_campaign :
      (campaign_id owner_id : ℕ) (payload : CampaignUpdate)
      → Keeps P (update_campaign campaign_id owner_id payload)
  unfolding update_campaign
  Keeps-update_campaign campaign_id owner_id payload =
      search (service_rules, Keeps-patched, arith) depth 40

  Keeps-save_contract :
      (campaign_id : ℕ) (payload : ContractUpsert) (existing : Option TestingContract)
      → Keeps P (save_contract campaign_id payload existing)
  unfolding save_contract
  Keeps-save_contract campaign_id payload none = search (service_rules, arith) depth 40
  Keeps-save_contract campaign_id payload (some contract) = search (service_rules, arith) depth 40

  Keeps-insert_tasks :
      (contract_id position : ℕ) (tasks : List ContractTaskInput)
      → Keeps P (insert_tasks contract_id position tasks)
  unfolding insert_tasks
  Keeps-insert_tasks contract_id position [] = search (service_rules, arith) depth 40
  Keeps-insert_tasks contract_id position (t ∷ rest) =
      search (service_rules, Keeps-insert_tasks contract_id (position + 1) rest, arith) depth 40

  pub Keeps-upsert_contract :
      (campaign_id owner_id : ℕ) (payload : ContractUpsert)
      → Keeps P (upsert_contract campaign_id owner_id payload)
  unfolding upsert_contract
  Keeps-upsert_contract campaign_id owner_id payload =
      search (service_rules, Keeps-save_contract, Keeps-insert_tasks, arith) depth 40

  pub Keeps-get_contract : (campaign_id : ℕ) → Keeps P (get_contract campaign_id)
  unfolding get_contract
  Keeps-get_contract campaign_id = search (service_rules, arith) depth 40

  Keeps-publish_draft :
      (campaign : Campaign) (owner_id : ℕ) → Keeps P (publish_draft campaign owner_id)
  unfolding publish_draft
  Keeps-publish_draft campaign owner_id = search (service_rules, Keeps-get_contract, arith) depth 40

  pub Keeps-publish_campaign :
      (campaign_id owner_id : ℕ) → Keeps P (publish_campaign campaign_id owner_id)
  unfolding publish_campaign
  Keeps-publish_campaign campaign_id owner_id =
      search (service_rules, Keeps-publish_draft, arith) depth 40

  pub Keeps-launch_campaign :
      (owner_id : ℕ) (payload : CampaignLaunch) → Keeps P (launch_campaign owner_id payload)
  unfolding launch_campaign
  Keeps-launch_campaign owner_id payload =
      search
        (service_rules, Keeps-create_campaign, Keeps-upsert_contract, Keeps-publish_campaign, arith)
        depth 40

  pub Keeps-set_campaign_status :
      (campaign_id : ℕ) (status : CampaignStatus) → Keeps P (set_campaign_status campaign_id status)
  unfolding set_campaign_status
  Keeps-set_campaign_status campaign_id status = search (service_rules, arith) depth 40

  pub Keeps-maybe_complete_campaign :
      (campaign : Campaign) (actor_id : ℕ) → Keeps P (maybe_complete_campaign campaign actor_id)
  unfolding maybe_complete_campaign
  Keeps-maybe_complete_campaign campaign actor_id =
      search (service_rules, Keeps-set_campaign_status, arith) depth 40

module _ {P : Session → Type 0} (st : IsStable P) (cr : IsCreditStable P) where
  Keeps-decline_one :
      (campaign : Campaign) (owner_id t : ℕ) (a : Assignment)
      → Keeps P (decline_one campaign owner_id t a)
  unfolding decline_one
  Keeps-decline_one campaign owner_id t a = search (service_rules, arith) depth 40

  Keeps-decline_pending :
      (campaign : Campaign) (owner_id t : ℕ) (pending : List Assignment)
      → Keeps P (decline_pending campaign owner_id t pending)
  unfolding decline_pending
  Keeps-decline_pending campaign owner_id t [] = search (service_rules, arith) depth 40
  Keeps-decline_pending campaign owner_id t (a ∷ rest) =
      search
        (service_rules, Keeps-decline_one, Keeps-decline_pending campaign owner_id t rest, arith)
        depth 40

  Keeps-apply_action :
      (campaign : Campaign) (owner_id : ℕ) (action : Action)
      → Keeps P (apply_action campaign owner_id action)
  unfolding apply_action
  Keeps-apply_action campaign owner_id pause =
      search (service_rules, Keeps-set_campaign_status, arith) depth 40
  Keeps-apply_action campaign owner_id resume =
      search (service_rules, Keeps-set_campaign_status, arith) depth 40
  Keeps-apply_action campaign owner_id close =
      search (service_rules, Keeps-set_campaign_status, Keeps-decline_pending, arith) depth 40

  pub Keeps-transition_campaign :
      (campaign_id owner_id : ℕ) (action : Action)
      → Keeps P (transition_campaign campaign_id owner_id action)
  unfolding transition_campaign
  Keeps-transition_campaign campaign_id owner_id action =
      search (service_rules, Keeps-apply_action, Keeps-maybe_complete_campaign, arith) depth 40
