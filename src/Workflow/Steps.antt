-- ===== src/Workflow/Steps.antt =====
-- The state machine of an assignment, and the change of the assignments that it allows one call: none goes
-- away, none changes its campaign or its tester, and each stays in its status or makes one step.
use test_exchange_backend.Base.{
  ℕ, false, ◌&&◌, ◌||◌, Option, some, List, [], ◌∷◌, ◌≡◌, ◌⊎◌, inl, inr, refl, arith, ◌==◌, ==_iff,
  find, any, update_if, Bool-cases,
}
use mathlib.Core.Path.{subst}
use test_exchange_backend.Model.Enums.{AssignmentStatus}
use test_exchange_backend.Model.Entities.{Assignment}
use test_exchange_backend.Session.{insert_assignment}
use test_exchange_backend.Session.Keeps.{Keeps, Keeps-insert, KeepsAssignmentKeys}

-- the arrows of the workflow
pub data Step : AssignmentStatus → AssignmentStatus → Type 0 where
  accepts : Step AssignmentStatus.applied AssignmentStatus.accepted
  declines : Step AssignmentStatus.applied AssignmentStatus.cancelled
  starts : Step AssignmentStatus.accepted AssignmentStatus.in_progress
  submits : Step AssignmentStatus.in_progress AssignmentStatus.submitted
  resubmits : Step AssignmentStatus.changes_requested AssignmentStatus.submitted
  approves : Step AssignmentStatus.submitted AssignmentStatus.approved
  returns : Step AssignmentStatus.submitted AssignmentStatus.changes_requested
  rejects : Step AssignmentStatus.submitted AssignmentStatus.rejected
  awards : Step AssignmentStatus.rejected AssignmentStatus.approved
  leaves_accepted : Step AssignmentStatus.accepted AssignmentStatus.cancelled
  leaves_testing : Step AssignmentStatus.in_progress AssignmentStatus.cancelled
  leaves_changes : Step AssignmentStatus.changes_requested AssignmentStatus.cancelled

abbrev pub assignment_at : ℕ → List Assignment → Option Assignment
assignment_at id rows = find (λ a. a.id == id) rows

abbrev pub update_at : ℕ → (Assignment → Assignment) → List Assignment → List Assignment
update_at id change rows = update_if (λ a. a.id == id) change rows

-- the same application, in the same status or one step on
pub record Evolves (a b : Assignment) : Type 0 where
  pub same_campaign : b.campaign_id ≡ a.campaign_id
  pub same_tester : b.tester_id ≡ a.tester_id
  pub status : (b.status ≡ a.status) ⊎ Step a.status b.status

abbrev pub Moves : List Assignment → List Assignment → Type 0
Moves old new =
    (id : ℕ) (a : Assignment)
    → assignment_at id old ≡ some a
    → (b : Assignment) × (assignment_at id new ≡ some b) × Evolves a b

pub Moves-refl : (rows : List Assignment) → Moves rows rows
Moves-refl rows id a h =
    (a, h, record { same_campaign = refl; same_tester = refl; status = inl refl })

pub id-assignment_at :
    (id : ℕ) (rows : List Assignment) (a : Assignment) → assignment_at id rows ≡ some a → a.id ≡ id
unfolding find
id-assignment_at id [] a h = cc
id-assignment_at id (x ∷ rest) a h = ground (arith, id-assignment_at id rest a)

pub assignment_at-update_self :
    (id : ℕ) (change : Assignment → Assignment) (rows : List Assignment) (a : Assignment)
    → KeepsAssignmentKeys change
    → assignment_at id rows ≡ some a
    → assignment_at id (update_at id change rows) ≡ some (change a)
unfolding find update_if
assignment_at-update_self id change [] a keeps h = cc
assignment_at-update_self id change (x ∷ rest) a keeps h =
    ground (arith, (keeps x).0, assignment_at-update_self id change rest a keeps)

pub assignment_at-update_ne :
    (id j : ℕ) (change : Assignment → Assignment) (rows : List Assignment)
    → KeepsAssignmentKeys change
    → (id == j) ≡ false
    → assignment_at j (update_at id change rows) ≡ assignment_at j rows
unfolding find update_if
assignment_at-update_ne id j change [] keeps h = refl
assignment_at-update_ne id j change (x ∷ rest) keeps h =
    ground (arith, (keeps x).0, assignment_at-update_ne id j change rest keeps)

same_row :
    (rows : List Assignment) (id j : ℕ) (a b : Assignment)
    → id ≡ j
    → assignment_at id rows ≡ some a
    → assignment_at j rows ≡ some b
    → a ≡ b
same_row rows id j a b e found at_j = cc

-- One row makes one step.
pub Moves-update :
    (id : ℕ) (change : Assignment → Assignment) (rows : List Assignment) (a : Assignment)
    → KeepsAssignmentKeys change
    → assignment_at id rows ≡ some a
    → Step a.status (change a).status
    → Moves rows (update_at id change rows)
Moves-update id change rows a keeps found step j b at_j = elim (Bool-cases (id == j)) [
  | inl same ↦ (
    change b,
    ground (arith, (==_iff id j).0 same, assignment_at-update_self id change rows b keeps),
    record {
      same_campaign = (keeps b).1;
      same_tester = (keeps b).2;
      status = inr (
          subst (λ (x : Assignment). Step x.status (change x).status)
            (same_row rows id j a b ((==_iff id j).0 same) found at_j) step);
    },
  )
  | inr other ↦ (
    b,
    rw (assignment_at-update_ne id j change rows keeps other) at_j,
    record { same_campaign = refl; same_tester = refl; status = inl refl },
  )
]

-- A row with a new id hides no other.
pub fresh_id :
    (row : Assignment) (rows : List Assignment) (id : ℕ) (b : Assignment)
    → any
        (λ a. a.id == row.id || a.campaign_id == row.campaign_id && a.tester_id == row.tester_id)
        rows
      ≡ false
    → assignment_at id rows ≡ some b
    → (row.id == id) ≡ false
unfolding any find
fresh_id row [] id b fresh h = cc
fresh_id row (x ∷ rest) id b fresh h = ground (arith, fresh_id row rest id b)

pub Moves-insert :
    (old : List Assignment) (row : Assignment)
    → Keeps (λ s. Moves old s.assignments) (insert_assignment row)
unfolding insert_assignment find
Moves-insert old row = Keeps-insert _ _ λ s h fresh id a at_id.
    let (b, at_b, evolves) = h id a at_id in
    (b, rw (fresh_id row s.assignments id b fresh at_b) at_b, evolves)
