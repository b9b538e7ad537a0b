-- ===== src/Campaigns/Contracts.antt =====
-- The private testing contract of a campaign and its tasks.
use test_exchange_backend.Base.{
  ℕ, ◌+◌, String, Bool, not, Option, none, some, List, [], ◌∷◌, ◌==◌, find, select, order_by,
}
use test_exchange_backend.Model.Enums.{CampaignStatus, ContractStatus, campaign_is, is_locked}
use test_exchange_backend.Model.Entities.{TestingContract, ContractTask, Json}
use test_exchange_backend.Session.{
  M, gets, or_raise, raise_if, uuid4, insert_contract, insert_task, set_contract, delete_tasks,
  pure, ◌>>=◌, ◌>>◌,
}
use test_exchange_backend.Common.{get_campaign, require_campaign_owner, add_audit_event}

-- `ContractTaskInput`
pub record ContractTaskInput : Type 0 where
  pub title : String
  pub instructions : String
  pub evidence_required : Bool

-- `ContractUpsert`
pub record ContractUpsert : Type 0 where
  pub tester_instructions : String
  pub access_instructions : Option String
  pub device_requirements : Option String
  pub evidence_requirements : String
  pub review_window_hours : ℕ
  pub minimum_duration_days : ℕ
  pub required_sessions : ℕ
  pub tasks : List ContractTaskInput

-- `setattr(contract, field, value)` for each field of the payload, with the version
unfoldable pub contract_with : ContractUpsert → ℕ → TestingContract → TestingContract
contract_with payload version c = record c {
  version = version;
  tester_instructions = payload.tester_instructions;
  access_instructions = payload.access_instructions;
  device_requirements = payload.device_requirements;
  evidence_requirements = payload.evidence_requirements;
  review_window_hours = payload.review_window_hours;
  minimum_duration_days = payload.minimum_duration_days;
  required_sessions = payload.required_sessions;
}

unfoldable pub new_contract : ContractUpsert → ℕ → ℕ → TestingContract
new_contract payload campaign_id contract_id = record {
  id = contract_id;
  campaign_id = campaign_id;
  version = 1;
  tester_instructions = payload.tester_instructions;
  access_instructions = payload.access_instructions;
  device_requirements = payload.device_requirements;
  evidence_requirements = payload.evidence_requirements;
  review_window_hours = payload.review_window_hours;
  minimum_duration_days = payload.minimum_duration_days;
  required_sessions = payload.required_sessions;
  status = ContractStatus.draft;
  locked_at = none;
}

unfoldable pub save_contract : ℕ → ContractUpsert → Option TestingContract → M TestingContract
unfolding contract_with new_contract
save_contract campaign_id payload none = do
  contract_id ← uuid4
  insert_contract (new_contract payload campaign_id contract_id)
  pure (new_contract payload campaign_id contract_id)
save_contract campaign_id payload (some contract) = do
  raise_if (is_locked contract.status) "The contract is locked" 409
  set_contract contract.id (contract_with payload (contract.version + 1))
  delete_tasks contract.id
  pure (contract_with payload (contract.version + 1) contract)

-- `for position, task in enumerate(payload.tasks)`
unfoldable pub insert_tasks : ℕ → ℕ → List ContractTaskInput → M (Unit {0})
insert_tasks contract_id position [] = pure tt
insert_tasks contract_id position (t ∷ rest) = do
  task_id ← uuid4
  insert_task (record {
    id = task_id;
    contract_id = contract_id;
    position = position;
    title = t.title;
    instructions = t.instructions;
    evidence_required = t.evidence_required;
  })
  insert_tasks contract_id (position + 1) rest

unfoldable pub upsert_contract : ℕ → ℕ → ContractUpsert → M TestingContract
unfolding save_contract insert_tasks
upsert_contract campaign_id owner_id payload = do
  campaign ← get_campaign campaign_id
  require_campaign_owner campaign owner_id
  raise_if (not (campaign_is campaign.status CampaignStatus.draft))
      "The contract is locked after publication" 409
  existing ← gets (λ s. find (λ c. c.campaign_id == campaign_id) s.contracts)
  contract ← save_contract campaign_id payload existing
  insert_tasks contract.id 0 payload.tasks
  add_audit_event owner_id "contract.saved" "campaign" campaign_id
      (("contract_id", Json.uuid contract.id) ∷ ("version", Json.number contract.version) ∷ [])
  pure contract

unfoldable pub get_contract : ℕ → M (TestingContract × List ContractTask)
get_contract campaign_id = do
  found ← gets (λ s. find (λ c. c.campaign_id == campaign_id) s.contracts)
  contract ← or_raise found "Testing contract not found" 404
  tasks ←
      gets (λ s. order_by (λ t. t.position) (select (λ t. t.contract_id == contract.id) s.tasks))
  pure (contract, tasks)
