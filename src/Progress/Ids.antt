-- ===== src/Progress/Ids.antt =====
-- The primary key of the assignments under the requests.
use test_exchange_backend.Base.{
  ◌≤◌, count_if, refl, ℕ, false, List, [], ◌∷◌, ◌≡◌, inl, inr, arith, ◌==◌, ==_iff, Bool-cases,
  ◌||◌, ◌&&◌, any, update_if,
}
use test_exchange_backend.Model.Entities.{Assignment}
use test_exchange_backend.Session.{Session, insert_assignment, set_assignment}
use test_exchange_backend.Session.Keeps.{Keeps, Keeps-insert, KeepsAssignmentKeys, IsStable}
use test_exchange_backend.Workflow.Steps.{update_at}
use test_exchange_backend.Stability.Frames.Assignments.{
  assignments_IsQuiet, assignments_IsCreditStable,
}
use test_exchange_backend.Api.Requests.{Settings, Call, handle, begin}
use test_exchange_backend.Api.Invariants.{handle_keeps}
use test_exchange_backend.Progress.Closing.{HasUniqueIds, with_id}

-- A new id is on no row.
fresh-with_id :
    (row : Assignment) (rows : List Assignment)
    → any
        (λ a. a.id == row.id || a.campaign_id == row.campaign_id && a.tester_id == row.tester_id)
        rows
      ≡ false
    → with_id row.id rows ≡ 0
unfolding any with_id count_if
fresh-with_id row [] fresh = refl
fresh-with_id row (x ∷ rest) fresh = ground (arith, fresh-with_id row rest)

inserted_once :
    (row : Assignment) (rows : List Assignment) (id : ℕ)
    → with_id row.id rows ≡ 0
    → with_id id rows ≤ 1
    → with_id id (row ∷ rows) ≤ 1
unfolding with_id count_if
inserted_once row rows id absent once = elim (Bool-cases (row.id == id)) [
  | inl same ↦ ground (arith, (==_iff row.id id).0 same)
  | inr other ↦ ground arith
]

insert-HasUniqueIds :
    (row : Assignment) → Keeps (λ s. HasUniqueIds s.assignments) (insert_assignment row)
unfolding insert_assignment
insert-HasUniqueIds row = Keeps-insert _ _ λ s unique fresh id.
    inserted_once row s.assignments id (fresh-with_id row s.assignments fresh) (unique id)

-- An update keeps the ids.
with_id-update_at :
    (id j : ℕ) (change : Assignment → Assignment) (rows : List Assignment)
    → KeepsAssignmentKeys change
    → with_id j (update_at id change rows) ≡ with_id j rows
unfolding with_id count_if update_if
with_id-update_at id j change [] keys = refl
with_id-update_at id j change (x ∷ rest) keys =
    ground (arith, (keys x).0, with_id-update_at id j change rest keys)

set-HasUniqueIds :
    (id : ℕ) (change : Assignment → Assignment)
    → KeepsAssignmentKeys change
    → Keeps (λ s. HasUniqueIds s.assignments) (set_assignment id change)
unfolding set_assignment
set-HasUniqueIds id change keys = record {
  at = λ s unique j. rw (with_id-update_at id j change s.assignments keys) (unique j);
}

HasUniqueIds-IsStable : IsStable (λ s. HasUniqueIds s.assignments)
HasUniqueIds-IsStable = record {
  quiet = assignments_IsQuiet HasUniqueIds;
  at_insert_assignment = insert-HasUniqueIds;
  at_set_assignment = set-HasUniqueIds;
}

-- the table has its primary key after a request
pub handle-HasUniqueIds :
    (settings : Settings) (s : Session) (c : Call)
    → HasUniqueIds s.assignments
    → HasUniqueIds (handle settings s c).assignments
unfolding begin
handle-HasUniqueIds settings s c unique =
    handle_keeps HasUniqueIds-IsStable (assignments_IsCreditStable HasUniqueIds) (λ w s' k. k)
      settings s c unique
