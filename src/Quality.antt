-- ===== src/Quality.antt =====
-- app/services/quality.py: the advisory check of a submission. Which code points are white space and
-- what lower case makes of a text come from Python's Unicode tables: both are parameters.
pub mod Texts
pub mod Scores
pub mod Agreement
use Prim.Native.String.{◌++◌ as append}
use test_exchange_backend.Base.{
  ℕ, ◌*◌, ◌/◌, String, Bool, true, false, not, ◌&&◌, ◌||◌, Option, none, some, List, [], ◌∷◌, ◌==◌,
  leb, is_some, if◌then◌else◌, find, any, all, count_if, select, order_by, length,
}
use test_exchange_backend.Model.Enums.{SubmissionStatus, submission_is}
use test_exchange_backend.Model.Entities.{
  ContractTask, EvidenceSubmission, EvidenceItem, Assignment,
}
use test_exchange_backend.Session.{M, gets, or_raise, decimal, pure, ◌>>=◌, ◌>>◌}
use test_exchange_backend.Common.{get_assignment}
use test_exchange_backend.Reading.{get_submission}
use test_exchange_backend.Workflow.StorageKey.{codes, contains}
use test_exchange_backend.Quality.Texts.{strip, normalize_text}

-- `SUMMARY_MIN_CHARS` and `OBSERVATION_MIN_CHARS`
abbrev pub summary_min_chars : ℕ
summary_min_chars = 80

abbrev pub observation_min_chars : ℕ
observation_min_chars = 30

-- `GENERIC_PHRASES`
abbrev pub generic_phrases : List String
generic_phrases = "works fine" ∷ "looks good" ∷ "no issues" ∷ "everything works" ∷ []

-- the two values of `QualityCheckItem.status`
pub data CheckStatus : Type 0 where
  passed flagged : CheckStatus

pub record QualityCheckItem : Type 0 where
  pub code : String
  pub label : String
  pub status : CheckStatus
  pub detail : String

-- the three values of `QualityCheckRead.status`
pub data QualityStatus : Type 0 where
  ready_for_review needs_attention already_reviewed : QualityStatus

pub record QualityCheckRead : Type 0 where
  pub submission_id : ℕ
  pub assignment_id : ℕ
  pub submission_version : ℕ
  pub submission_status : SubmissionStatus
  pub status : QualityStatus
  pub score : ℕ
  pub checks : List QualityCheckItem
  pub disclaimer : String

-- `_check`
unfoldable pub check : String → String → Bool → String → String → QualityCheckItem
check code label passes passed_detail flagged_detail = record {
  code = code;
  label = label;
  status = if passes then CheckStatus.passed else CheckStatus.flagged;
  detail = if passes then passed_detail else flagged_detail;
}

-- `item.status == "passed"` and `item.status == "flagged"`
unfoldable pub is_passed : CheckStatus → Bool
is_passed CheckStatus.passed = true
is_passed CheckStatus.flagged = false

unfoldable pub is_flagged : CheckStatus → Bool
is_flagged CheckStatus.passed = false
is_flagged CheckStatus.flagged = true

abbrev names : ℕ → Option ℕ → Bool
names id none = false
names id (some task_id) = task_id == id

-- `id in covered_task_ids`
unfoldable pub is_covered : List EvidenceItem → ℕ → Bool
is_covered items id = any (λ i. names id i.task_id) items

-- a task of `required_task_ids - covered_task_ids`; the ids are primary keys
unfoldable pub is_missing : List EvidenceItem → ContractTask → Bool
unfolding is_covered
is_missing items task = task.evidence_required && not (is_covered items task.id)

-- `required_task_ids.issubset(covered_task_ids)`
unfoldable pub coverage_complete : List ContractTask → List EvidenceItem → Bool
unfolding is_missing
coverage_complete tasks items = all (λ t. not (is_missing items t)) tasks

unfoldable pub has_content : EvidenceItem → Bool
has_content i = is_some i.storage_key || is_some i.external_url || is_some i.note

unfoldable pub coverage_check : List ContractTask → List EvidenceItem → QualityCheckItem
unfolding check coverage_complete is_missing
coverage_check tasks items =
    check "required_task_coverage" "Required tasks have linked evidence"
      (coverage_complete tasks items)
      (append "All " (
        append (decimal (count_if (λ t. t.evidence_required) tasks))
          " required task(s) have linked evidence."))
      (append (decimal (count_if (is_missing items) tasks))
        " required task(s) still need linked evidence.")

unfoldable pub content_check : List EvidenceItem → QualityCheckItem
unfolding check has_content
content_check items =
    check "evidence_content" "Every evidence item includes content" (all has_content items)
      (append "All "
        (append (decimal (length items)) " evidence item(s) include a file, link, or note."))
      "One or more evidence items do not contain reviewable content."

-- `item.note or ""`
abbrev or_empty : Option String → String
or_empty none = ""
or_empty (some text) = text

-- `round(sum(...) / len(checks) * 100)`: with four checks the quotient is a quarter, exactly
unfoldable pub score_of : List QualityCheckItem → ℕ
unfolding is_passed
score_of checks = count_if (λ c. is_passed c.status) checks * 100 / length checks

unfoldable pub overall_status : SubmissionStatus → List QualityCheckItem → QualityStatus
unfolding is_flagged
overall_status status checks =
    if not (submission_is status SubmissionStatus.submitted)
    then QualityStatus.already_reviewed
    else if any (λ c. is_flagged c.status) checks
    then QualityStatus.needs_attention
    else QualityStatus.ready_for_review

module _ (is_space : ℕ → Bool) (lower : List ℕ → List ℕ) where
  unfoldable pub summary_specific : String → Bool
  summary_specific summary =
      let normalized = normalize_text is_space lower (codes summary) in
      leb summary_min_chars (length normalized)
      && not (any (λ phrase. contains (codes phrase) normalized) generic_phrases)

  unfoldable pub summary_check : String → QualityCheckItem
  unfolding check summary_specific
  summary_check summary =
      check "summary_specificity" "Summary describes a concrete result" (summary_specific summary)
        (append "The summary contains " (
          append (decimal (length (strip is_space (codes summary))))
            " characters of specific context."))
        (append "Add a concrete result to the summary (at least "
          (append (decimal summary_min_chars) " characters; avoid generic phrases)."))

  -- a note whose text, stripped, is long enough
  unfoldable pub is_observation : EvidenceItem → Bool
  is_observation i = leb observation_min_chars (length (strip is_space (codes (or_empty i.note))))

  unfoldable pub observation_check : List EvidenceItem → QualityCheckItem
  unfolding check is_observation
  observation_check items =
      check "concrete_observation" "Evidence includes a reproducible observation"
        (any is_observation items) "At least one evidence note records a concrete observation."
        (append "Add an observation of at least " (
          append (decimal observation_min_chars) " characters, including what happened and where."))

  unfoldable pub all_checks : List ContractTask → List EvidenceItem → String → List QualityCheckItem
  unfolding coverage_check content_check summary_check observation_check
  all_checks tasks items summary =
      coverage_check tasks items
      ∷ content_check items
      ∷ summary_check summary
      ∷ observation_check items
      ∷ []

  unfoldable pub quality_check_read :
      EvidenceSubmission → ℕ → List ContractTask → List EvidenceItem → QualityCheckRead
  unfolding all_checks score_of overall_status
  quality_check_read submission assignment_id tasks items =
      let checks = all_checks tasks items submission.summary in
      record {
        submission_id = submission.id;
        assignment_id = assignment_id;
        submission_version = submission.version;
        submission_status = submission.status;
        status = overall_status submission.status checks;
        score = score_of checks;
        checks = checks;
        disclaimer =
            "Advisory only: this check never approves, rejects, or transfers credits. The campaign owner or a moderator makes the final decision.";
      }

  unfoldable pub build_submission_quality_check : ℕ → ℕ → M QualityCheckRead
  unfolding quality_check_read
  build_submission_quality_check submission_id user_id = do
    (submission, items) ← get_submission submission_id user_id
    assignment ← get_assignment submission.assignment_id
    found ← gets (λ s. find (λ c. c.campaign_id == assignment.campaign_id) s.contracts)
    contract ← or_raise found "The campaign does not have a testing contract" 409
    tasks ←
        gets (λ s. order_by (λ t. t.position) (select (λ t. t.contract_id == contract.id) s.tasks))
    pure (quality_check_read submission assignment.id tasks items)
