-- ===== src/Reading/Cases.antt =====
-- What a moderator reads: the queries of app/services/moderation.py.
use text.Mathlib.Text.{◌==◌ as str_eq}
use test_exchange_backend.Base.{
  ℕ, Bool, true, ◌&&◌, Option, none, some, List, [], ◌∷◌, ◌++◌, map, ◌==◌, find, any, select,
  update_if, order_by, reverse,
}
use test_exchange_backend.Model.Enums.{DisputeStatus, dispute_is}
use test_exchange_backend.Model.Entities.{
  Campaign, TestingContract, ContractTask, Assignment, EvidenceSubmission, EvidenceItem, Message,
  Review, Dispute, AuditEvent,
}
use test_exchange_backend.Session.{M, gets, or_raise, pure, ◌>>=◌}
use test_exchange_backend.Common.{get_campaign}
use test_exchange_backend.Reading.Workspaces.{in_order}

pub record ModerationCase : Type 0 where
  pub dispute : Dispute
  pub assignment : Assignment
  pub campaign : Campaign
  pub contract : TestingContract
  pub tasks : List ContractTask
  pub submissions : List EvidenceSubmission
  pub evidence_by_submission : List (ℕ × List EvidenceItem)
  pub reviews : List Review
  pub messages : List Message
  pub audit_events : List AuditEvent

-- `if status_filter is not None: ...where(Dispute.status == status_filter)`
unfoldable pub passes_filter : Option DisputeStatus → Dispute → Bool
passes_filter none d = true
passes_filter (some status) d = dispute_is d.status status

unfoldable pub list_disputes : Option DisputeStatus → M (List Dispute)
unfolding passes_filter
list_disputes status_filter = gets (λ s. reverse (select (passes_filter status_filter) s.disputes))

-- `evidence_by_submission[item.submission_id].append(item)`
unfoldable pub append_item :
    EvidenceItem → List (ℕ × List EvidenceItem) → List (ℕ × List EvidenceItem)
append_item item =
    update_if (λ entry. entry.0 == item.submission_id) λ entry. (entry.0, entry.1 ++ item ∷ [])

-- `for item in evidence`
unfoldable pub group :
    List EvidenceItem → List (ℕ × List EvidenceItem) → List (ℕ × List EvidenceItem)
unfolding append_item
group [] groups = groups
group (item ∷ rest) groups = group rest (append_item item groups)

-- `column.in_(submission_ids)`
unfoldable pub is_in : List ℕ → ℕ → Bool
is_in ids id = any (λ j. j == id) ids

-- the dictionary, which starts with an empty list for each submission
unfoldable pub evidence_groups : List ℕ → List EvidenceItem → List (ℕ × List EvidenceItem)
unfolding group is_in in_order
evidence_groups submission_ids items =
    group (in_order (select (λ i. is_in submission_ids i.submission_id) items))
      (map (λ id. (id, [])) submission_ids)

-- A contract has one task at a position and an assignment one submission of a version, so these
-- give the order.
unfoldable pub get_moderation_case : ℕ → M ModerationCase
unfolding evidence_groups
get_moderation_case dispute_id = do
  found ← gets (λ s. find (λ d. d.id == dispute_id) s.disputes)
  dispute ← or_raise found "Dispute not found" 404
  row ← gets (λ s. find (λ a. a.id == dispute.assignment_id) s.assignments)
  assignment ← or_raise row "Assignment not found" 404
  campaign ← get_campaign assignment.campaign_id
  promise ← gets (λ s. find (λ c. c.campaign_id == campaign.id) s.contracts)
  contract ← or_raise promise "Testing contract not found" 404
  tasks ←
      gets (λ s. order_by (λ t. t.position) (select (λ t. t.contract_id == contract.id) s.tasks))
  submissions ← gets (λ s.
      order_by (λ e. e.version) (select (λ e. e.assignment_id == assignment.id) s.submissions))
  let submission_ids = map (λ (e : EvidenceSubmission). e.id) submissions
  evidence_by_submission ← gets (λ s. evidence_groups submission_ids s.items)
  reviews ← gets (λ s. reverse (select (λ r. is_in submission_ids r.submission_id) s.reviews))
  messages ← gets (λ s. reverse (select (λ m. m.assignment_id == assignment.id) s.messages))
  audit_events ← gets (λ s.
      reverse
        (select (λ e. str_eq e.entity_type "assignment" && e.entity_id == assignment.id) s.audit))
  pure (record {
    dispute = dispute;
    assignment = assignment;
    campaign = campaign;
    contract = contract;
    tasks = tasks;
    submissions = submissions;
    evidence_by_submission = evidence_by_submission;
    reviews = reviews;
    messages = messages;
    audit_events = audit_events;
  })
