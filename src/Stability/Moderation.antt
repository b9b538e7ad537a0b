-- ===== src/Stability/Moderation.antt =====
-- The services of app/services/moderation.py.
use test_exchange_backend.Base.{ℕ, arith}
use test_exchange_backend.Model.Entities.{Assignment, Dispute}
use test_exchange_backend.Session.{Session}
use test_exchange_backend.Session.Keeps.{Keeps, IsQuiet, IsStable}
use test_exchange_backend.Moderation.{
  Outcome, DisputeResolve, get_dispute, claim_dispute, reject_overdue, award, apply_resolution,
  resolve_dispute,
}
use test_exchange_backend.Stability.Basics.{IsCreditStable, service_rules}
use test_exchange_backend.Stability.Campaigns.{Keeps-maybe_complete_campaign}
use test_exchange_backend.Stability.Workflow.{
  Keeps-set_outcome, Keeps-pay_reward, Keeps-submission_of,
}

module _ {P : Session → Type 0} (st : IsQuiet P) (cr : IsCreditStable P) where
  pub Keeps-get_dispute : (dispute_id : ℕ) → Keeps P (get_dispute dispute_id)
  unfolding get_dispute
  Keeps-get_dispute dispute_id = search (service_rules, arith) depth 40

  pub Keeps-claim_dispute :
      (dispute_id moderator_id : ℕ) → Keeps P (claim_dispute dispute_id moderator_id)
  unfolding claim_dispute
  Keeps-claim_dispute dispute_id moderator_id =
      search (service_rules, Keeps-get_dispute, arith) depth 40

module _ {P : Session → Type 0} (st : IsStable P) (cr : IsCreditStable P) where
  Keeps-reject_overdue :
      (dispute : Dispute) (assignment : Assignment) (outcome : Outcome)
      → Keeps P (reject_overdue dispute assignment outcome)
  unfolding reject_overdue
  Keeps-reject_overdue dispute assignment outcome =
      search (service_rules, Keeps-submission_of, Keeps-set_outcome, arith) depth 40

  Keeps-award :
      (dispute : Dispute) (assignment : Assignment) (moderator_id : ℕ)
      → Keeps P (award dispute assignment moderator_id)
  unfolding award
  Keeps-award dispute assignment moderator_id =
      search
        (
          service_rules, Keeps-submission_of, Keeps-set_outcome, Keeps-pay_reward,
          Keeps-maybe_complete_campaign, arith,
        )
        depth 40

  Keeps-apply_resolution :
      (dispute : Dispute) (assignment : Assignment) (moderator_id : ℕ) (payload : DisputeResolve)
      → Keeps P (apply_resolution dispute assignment moderator_id payload)
  unfolding apply_resolution
  Keeps-apply_resolution dispute assignment moderator_id payload =
      search (service_rules, Keeps-award, Keeps-reject_overdue, arith) depth 40

  pub Keeps-resolve_dispute :
      (dispute_id moderator_id : ℕ) (payload : DisputeResolve)
      → Keeps P (resolve_dispute dispute_id moderator_id payload)
  unfolding resolve_dispute
  Keeps-resolve_dispute dispute_id moderator_id payload =
      search (service_rules, Keeps-get_dispute, Keeps-apply_resolution, arith) depth 40
