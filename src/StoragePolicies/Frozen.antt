-- ===== src/StoragePolicies/Frozen.antt =====
-- The files of evidence once a submission is sent.
use mathlib.Core.Path.{subst}
use test_exchange_backend.Base.{
  ℕ, String, Bool, true, false, ◌&&◌, Option, some, List, [], ◌∷◌, ◌≡◌, refl, arith, inl, inr, ◌==◌,
  Bool-cases, if◌then◌else◌, any, update_if,
}
use test_exchange_backend.Model.Enums.{AssignmentStatus}
use test_exchange_backend.Model.Entities.{Profile, Assignment, EvidenceSubmission}
use test_exchange_backend.Session.{
  Session, M, Result, ok, err, insert_submission, set_assignment, ◌>>=◌,
}
use test_exchange_backend.Session.Keeps.{Keeps, After}
use test_exchange_backend.Session.Wp.{Post, on_gets, on_uuid4, on_now}
use test_exchange_backend.Workflow.{
  SubmissionCreate, check_submission, create_submission, insert_items,
}
use test_exchange_backend.Workflow.Steps.{update_at}
use test_exchange_backend.Stability.Basics.{service_rules}
use test_exchange_backend.Stability.Workflow.{Keeps-tester_name}
use test_exchange_backend.Stability.Frames.Assignments.{
  assignments_IsQuiet, assignments_IsCreditStable,
}
use test_exchange_backend.Progress.Guards.{on_get_assignment, on_call}
use test_exchange_backend.StoragePolicies.{
  is_participant, takes_uploads, takes_deletions, open_to, can_upload_evidence,
  can_delete_orphan_evidence,
}

-- nobody may upload to the folder of the assignment
abbrev IsClosed : ℕ → List Assignment → Type 0
IsClosed id rows =
    (uid : ℕ) (profiles : List Profile) → open_to takes_uploads id uid profiles rows ≡ false

takes_no_upload :
    (status : AssignmentStatus) → status ≡ AssignmentStatus.submitted → takes_uploads status ≡ false
unfolding takes_uploads
takes_no_upload status h = rw h refl

shut :
    (a p b rest : Bool) → rest ≡ false → (if a && (p && (b && false)) then true else rest) ≡ false
shut a p b rest h = ground arith

IsClosed-update :
    (id : ℕ) (change : Assignment → Assignment) (rows : List Assignment)
    → ((row : Assignment) → (change row).status ≡ AssignmentStatus.submitted)
    → IsClosed id (update_at id change rows)
unfolding open_to any update_if
IsClosed-update id change [] sends uid profiles = refl
IsClosed-update id change (x ∷ rest) sends uid profiles = elim (Bool-cases (x.id == id)) [
  | inl same ↦
      rw (same, takes_no_upload (change x).status (sends x))
        (shut ((change x).id == id) (is_participant uid profiles) ((change x).tester_id == uid) _
          (IsClosed-update id change rest sends uid profiles))
  | inr other ↦ rw (other, other) (IsClosed-update id change rest sends uid profiles)
]

-- nobody deletes where nobody uploads
deletions-uploads :
    (status : AssignmentStatus) → takes_uploads status ≡ false → takes_deletions status ≡ false
unfolding takes_uploads takes_deletions
deletions-uploads AssignmentStatus.in_progress h = cc
deletions-uploads AssignmentStatus.changes_requested h = cc
deletions-uploads _ h = refl

-- a call about which nothing need be known
abbrev Anything : Session → Type 0
Anything s = Unit

anything : {A : Type 0} (r : Result (A × Session)) → After Anything r
anything (ok (a, s)) = tt
anything (err e) = tt

IsClosed-deletions :
    (id uid : ℕ) (profiles : List Profile) (rows : List Assignment)
    → open_to takes_uploads id uid profiles rows ≡ false
    → open_to takes_deletions id uid profiles rows ≡ false
unfolding open_to any
IsClosed-deletions id uid profiles [] h = refl
IsClosed-deletions id uid profiles (x ∷ rest) h =
    ground (arith, deletions-uploads x.status, IsClosed-deletions id uid profiles rest)

abbrev Closed : ℕ → Session → Type 0
Closed id s = IsClosed id s.assignments

on_send :
    {B : Type 0} (id : ℕ) (change : Assignment → Assignment) (f : Unit {0} → M B) (s : Session)
    → ((row : Assignment) → (change row).status ≡ AssignmentStatus.submitted)
    → Keeps (Closed id) (f tt)
    → Post (Closed id) (set_assignment id change >>= f) s
unfolding set_assignment ◌>>=◌
on_send id change f s sends keep = record {
  at =
      keep.at (record s { assignments = update_at id change s.assignments })
        (IsClosed-update id change s.assignments sends);
}

on_any :
    {A B : Type 0} (Q : Session → Type 0) (m : M A) (f : A → M B) (s : Session)
    → ((a : A) (s' : Session) → Post Q (f a) s')
    → Post Q (m >>= f) s
unfolding ◌>>=◌
on_any Q m f s rest = on_call Anything m f s (record { at = anything (m s) }) λ a s' _. rest a s'

create_submission-Closed :
    (id tester_id : ℕ) (payload : SubmissionCreate) (s : Session)
    → Post (Closed id) (create_submission id tester_id payload) s
unfolding create_submission
create_submission-Closed id tester_id payload s = on_get_assignment id _ s λ a found.
    on_any _ (check_submission a tester_id payload) _ s λ _ s1. on_gets _ _ s1 (
      on_uuid4 _ s1 (
        on_now _ _ (
          on_any _ (insert_submission _) _ _ λ _ s2.
            on_any _ (insert_items _ payload.items) _ s2 λ _ s3. on_now _ s3 (
              on_send id _ _ _ (λ row. refl)
                (search
                  (
                    service_rules,
                    assignments_IsQuiet (IsClosed id),
                    assignments_IsCreditStable (IsClosed id),
                    Keeps-tester_name,
                    arith,
                  )
                  depth 40)))))

-- Once a submission is sent the files of its assignment are frozen: nobody may upload to a folder
-- whose name is the assignment's id, nor delete from it, until the status changes again.
pub create_submission-freezes :
    (parse_uuid : String → Option ℕ) (id tester_id : ℕ) (payload : SubmissionCreate)
    (s s' : Session) (sent : EvidenceSubmission) (folder object_name : String) (uid : ℕ)
    → parse_uuid folder ≡ some id
    → create_submission id tester_id payload s ≡ ok (sent, s')
    → (can_upload_evidence parse_uuid folder uid s' ≡ false)
      × (can_delete_orphan_evidence parse_uuid folder object_name uid s' ≡ false)
unfolding can_upload_evidence can_delete_orphan_evidence
create_submission-freezes parse_uuid id tester_id payload s s' sent folder object_name uid names
      returned =
    let closed : Closed id s' =
      subst (λ (r : Result (EvidenceSubmission × Session)). After (Closed id) r) returned
        (create_submission-Closed id tester_id payload s).at in
    let shut_now = closed uid s'.profiles in
    (
      rw names shut_now,
      rw (names, IsClosed-deletions id uid s'.profiles s'.assignments shut_now) refl,
    )
