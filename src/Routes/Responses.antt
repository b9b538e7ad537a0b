-- ===== src/Routes/Responses.antt =====
-- The responses that need more than one row. The relationships `owner_profile` and `tester_profile`
-- of app/models/entities.py name the profile of a campaign's owner and of an assignment's tester; a
-- response without it fails.
use test_exchange_backend.Base.{ℕ, List, [], ◌∷◌, ◌==◌, find}
use test_exchange_backend.Model.Entities.{Campaign, Assignment}
use test_exchange_backend.Session.{M, gets, pure, ◌>>=◌}
use test_exchange_backend.Campaigns.{get_contract}
use test_exchange_backend.Workflow.{or_crash}
use test_exchange_backend.Reading.{get_submission}
use test_exchange_backend.Schemas.{
  CampaignRead, AssignmentRead, ContractRead, SubmissionRead, campaign_read, assignment_read,
  contract_read, submission_read,
}

-- `[f(a) for a in rows]`
unfoldable pub for_each : {A B : Type 0} → (A → M B) → List A → M (List B)
for_each f [] = pure []
for_each f (a ∷ rest) = do b ← f a; others ← for_each f rest; pure (b ∷ others)

unfoldable pub campaign_response : Campaign → M CampaignRead
campaign_response campaign = do
  found ← gets (λ s. find (λ p. p.id == campaign.owner_id) s.profiles)
  owner ← or_crash found
  pure (campaign_read owner campaign)

unfoldable pub assignment_response : Assignment → M AssignmentRead
assignment_response assignment = do
  found ← gets (λ s. find (λ p. p.id == assignment.tester_id) s.profiles)
  tester ← or_crash found
  pure (assignment_read tester assignment)

unfoldable pub contract_response : ℕ → M ContractRead
contract_response campaign_id = do
  (contract, tasks) ← get_contract campaign_id
  pure (contract_read contract tasks)

unfoldable pub submission_response : ℕ → ℕ → M SubmissionRead
submission_response submission_id user_id = do
  (submission, items) ← get_submission submission_id user_id
  pure (submission_read submission items)
