-- ===== src/Quality/Scores.antt =====
-- The score and the overall status of a quality check.
use test_exchange_backend.Base.{
  ℕ, ◌≤◌, ◌<◌, ◌⊎◌, Bool, true, false, List, [], ◌∷◌, ◌≡◌, ◌↔◌, refl, arith, inl, inr, any,
  count_if, length,
}
use test_exchange_backend.Model.Enums.{SubmissionStatus, submission_is}
use test_exchange_backend.Model.Entities.{ContractTask, EvidenceSubmission, EvidenceItem}
use test_exchange_backend.Quality.{
  CheckStatus, passed, flagged, QualityCheckItem, ready_for_review, is_passed, is_flagged, score_of,
  overall_status, all_checks, quality_check_read,
}

abbrev passing : List QualityCheckItem → ℕ
passing = count_if (λ c. is_passed c.status)

abbrev has_flag : List QualityCheckItem → Bool
has_flag = any (λ c. is_flagged c.status)

passed_or_flagged :
    (status : CheckStatus)
    → ((is_passed status ≡ true) × (is_flagged status ≡ false))
      ⊎ ((is_passed status ≡ false) × (is_flagged status ≡ true))
unfolding is_passed is_flagged
passed_or_flagged passed = inl (refl, refl)
passed_or_flagged flagged = inr (refl, refl)

all_or_less :
    (checks : List QualityCheckItem)
    → ((has_flag checks ≡ false) × (passing checks ≡ length checks))
      ⊎ ((has_flag checks ≡ true) × (passing checks < length checks))
unfolding any count_if
all_or_less [] = inl (refl, refl)
all_or_less (c ∷ rest) = ground (arith, passed_or_flagged c.status, all_or_less rest)

score_of-four :
    (checks : List QualityCheckItem)
    → length checks ≡ 4
    → ((has_flag checks ≡ false) × (score_of checks ≡ 100))
      ⊎ ((has_flag checks ≡ true) × (score_of checks < 100))
unfolding score_of
score_of-four checks e = elim (all_or_less checks) [
  | inl (unflagged, n) ↦ inl (unflagged, rw (n, e) refl)
  | inr (one_flagged, n) ↦ inr (one_flagged, rw e (omega arith))
]

status-ready :
    (status : SubmissionStatus) (checks : List QualityCheckItem)
    → (overall_status status checks ≡ ready_for_review)
      ↔ ((submission_is status SubmissionStatus.submitted ≡ true) × (has_flag checks ≡ false))
unfolding overall_status
status-ready status checks = ground arith

ready-score :
    (status : SubmissionStatus) (checks : List QualityCheckItem)
    → length checks ≡ 4
    → (score_of checks ≤ 100)
      × ((overall_status status checks ≡ ready_for_review)
          ↔ ((submission_is status SubmissionStatus.submitted ≡ true) × (score_of checks ≡ 100)))
ready-score status checks e = ground (arith, score_of-four checks e, status-ready status checks)

-- The score of a quality check is 100 at most, and the check reports that a submission is ready for
-- review exactly when the submission still waits for its review and the score is 100.
pub quality_check_read-ready :
    (is_space : ℕ → Bool) (lower : List ℕ → List ℕ) (submission : EvidenceSubmission)
    (assignment_id : ℕ) (tasks : List ContractTask) (items : List EvidenceItem)
    → let report = quality_check_read is_space lower submission assignment_id tasks items in
      (report.score ≤ 100)
      × ((report.status ≡ ready_for_review) ↔ (
          (submission_is submission.status SubmissionStatus.submitted ≡ true)
          × (report.score ≡ 100)))
unfolding quality_check_read all_checks
quality_check_read-ready is_space lower submission assignment_id tasks items =
    ready-score submission.status (all_checks is_space lower tasks items submission.summary) refl
