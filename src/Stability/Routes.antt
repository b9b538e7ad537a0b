-- ===== src/Stability/Routes.antt =====
-- The responses of the routes that write, and a moderator's link.
use test_exchange_backend.Base.{ℕ, String, List, arith}
use test_exchange_backend.Model.Entities.{Campaign, Assignment}
use test_exchange_backend.Session.{Session}
use test_exchange_backend.Session.Keeps.{Keeps, IsQuiet}
use test_exchange_backend.Session.Reads.{Keeps-Reads}
use test_exchange_backend.Routes.{
  campaign_response, assignment_response, contract_response, submission_response,
}
use test_exchange_backend.EvidenceLinks.{
  StorageSettings, StorageRequest, StorageReply, signed_path, other_value, caught, uncaught,
  checked_path, sign_storage_evidence, moderator_evidence_url,
}
use test_exchange_backend.Stability.Basics.{IsCreditStable, service_rules}
use test_exchange_backend.Stability.Workflow.{Keeps-validate_storage_key}
use test_exchange_backend.Stability.Reading.{
  Reads-campaign_response, Reads-assignment_response, Reads-contract_response,
  Reads-submission_response,
}

module _ {P : Session → Type 0} where
  pub Keeps-campaign_response : (campaign : Campaign) → Keeps P (campaign_response campaign)
  Keeps-campaign_response campaign = Keeps-Reads _ (Reads-campaign_response campaign)

  pub Keeps-assignment_response :
      (assignment : Assignment) → Keeps P (assignment_response assignment)
  Keeps-assignment_response assignment = Keeps-Reads _ (Reads-assignment_response assignment)

  pub Keeps-contract_response : (campaign_id : ℕ) → Keeps P (contract_response campaign_id)
  Keeps-contract_response campaign_id = Keeps-Reads _ (Reads-contract_response campaign_id)

  pub Keeps-submission_response :
      (submission_id user_id : ℕ) → Keeps P (submission_response submission_id user_id)
  Keeps-submission_response submission_id user_id =
      Keeps-Reads _ (Reads-submission_response submission_id user_id)

module _ {P : Session → Type 0} (st : IsQuiet P) (cr : IsCreditStable P) where
  Keeps-checked_path : (path : List ℕ) (reply : StorageReply) → Keeps P (checked_path path reply)
  unfolding checked_path
  Keeps-checked_path path (signed_path text) = search service_rules
  Keeps-checked_path path other_value = search service_rules
  Keeps-checked_path path caught = search service_rules
  Keeps-checked_path path uncaught = search service_rules

  Keeps-sign_storage_evidence :
      (settings : StorageSettings) (post : StorageRequest → StorageReply) (storage_key : String)
      → Keeps P (sign_storage_evidence settings post storage_key)
  unfolding sign_storage_evidence
  Keeps-sign_storage_evidence settings post storage_key = search (service_rules, Keeps-checked_path)

  pub Keeps-moderator_evidence_url :
      (settings : StorageSettings) (post : StorageRequest → StorageReply)
      (dispute_id evidence_id moderator_id : ℕ)
      → Keeps P (moderator_evidence_url settings post dispute_id evidence_id moderator_id)
  unfolding moderator_evidence_url
  Keeps-moderator_evidence_url settings post dispute_id evidence_id moderator_id =
      search (service_rules, Keeps-sign_storage_evidence, Keeps-validate_storage_key, arith) depth
        40

pub ruleset response_rules = (
  Keeps-campaign_response, Keeps-assignment_response, Keeps-contract_response,
  Keeps-submission_response,
)
