-- ===== src/Progress/Capacity.antt =====
-- The places of a campaign when an application is accepted.
use mathlib.Core.Path.{subst}
use test_exchange_backend.Base.{
  ℕ, ◌+◌, ◌≤◌, false, List, [], ◌∷◌, some, ◌≡◌, arith, ◌==◌, leb, find, count_if, update_if,
}
use test_exchange_backend.Model.Entities.{Assignment, Campaign}
use test_exchange_backend.Session.{Session, M, Result, ok, set_assignment, ◌>>=◌}
use test_exchange_backend.Session.Keeps.{Keeps, After}
use test_exchange_backend.Session.Wp.{Post, on_gets, on_or_raise, on_raise_if, on_now}
use test_exchange_backend.Campaigns.{occupied_slots}
use test_exchange_backend.Workflow.{accept_assignment}
use test_exchange_backend.Workflow.Steps.{assignment_at, update_at}
use test_exchange_backend.Stability.Basics.{service_rules}
use test_exchange_backend.Stability.Frames.Assignments.{
  assignments_IsQuiet, assignments_IsCreditStable,
}
use test_exchange_backend.Progress.Guards.{on_owner, on_get_assignment}
use test_exchange_backend.Progress.Closing.{HasUniqueIds, with_id}

-- An update takes one place for each row that it changes.
occupied_slots-update_at :
    (campaign_id id : ℕ) (change : Assignment → Assignment) (rows : List Assignment)
    → occupied_slots campaign_id (update_at id change rows)
      ≤ with_id id rows + occupied_slots campaign_id rows
unfolding occupied_slots with_id count_if update_if
occupied_slots-update_at campaign_id id change [] = omega arith
occupied_slots-update_at campaign_id id change (x ∷ rest) =
    ground (arith, occupied_slots-update_at campaign_id id change rest)

-- The campaign of the assignment has room for the testers that hold its places.
abbrev HasRoom : ℕ → Session → List Assignment → Type 0
HasRoom id old rows =
    (a : Assignment) × (c : Campaign) × (assignment_at id old.assignments ≡ some a)
    × (find (λ x. x.id == a.campaign_id) old.campaigns ≡ some c)
    × (occupied_slots c.id rows ≤ c.target_testers)

has_place :
    (c : Campaign) (id : ℕ) (change : Assignment → Assignment) (rows : List Assignment)
    → with_id id rows ≤ 1
    → leb c.target_testers (occupied_slots c.id rows) ≡ false
    → occupied_slots c.id (update_at id change rows) ≤ c.target_testers
has_place c id change rows once room = ground (arith, occupied_slots-update_at c.id id change rows)

on_set :
    {B : Type 0} {Q : Session → Type 0} (id : ℕ) (change : Assignment → Assignment)
    (f : Unit {0} → M B) (s : Session)
    → Q (record s { assignments = update_at id change s.assignments })
    → Keeps Q (f tt)
    → Post Q (set_assignment id change >>= f) s
unfolding set_assignment ◌>>=◌
on_set id change f s h keep = record {
  at = keep.at (record s { assignments = update_at id change s.assignments }) h;
}

accept-HasRoom :
    (assignment_id owner_id : ℕ) (s : Session)
    → HasUniqueIds s.assignments
    → Post
        (λ s'. HasRoom assignment_id s s'.assignments)
        (accept_assignment assignment_id owner_id)
        s
unfolding accept_assignment
accept-HasRoom assignment_id owner_id s unique = on_gets _ _ s (
    on_or_raise _ _ _ _ s λ a at_id. on_gets _ _ s (
      on_or_raise _ _ _ _ s λ c found. on_owner c owner_id _ s (
        on_raise_if _ _ _ _ s λ _. on_get_assignment assignment_id _ s λ _ _.
          on_raise_if _ _ _ _ s λ _. on_gets _ _ s (
            on_raise_if _ _ _ _ s λ room. on_now _ s (
              on_set assignment_id _ _ _
                (
                  a,
                  c,
                  at_id,
                  found,
                  has_place c assignment_id _ s.assignments (unique assignment_id) room,
                )
                (search
                  (
                    service_rules,
                    assignments_IsQuiet (HasRoom assignment_id s),
                    assignments_IsCreditStable (HasRoom assignment_id s),
                    arith,
                  )
                  depth 40))))))

-- Where an application is accepted, from assignments with different ids, its campaign has no more
-- testers in its places afterwards than its target number.
pub accept_assignment-HasRoom :
    (assignment_id owner_id : ℕ) (s s' : Session) (accepted : Assignment)
    → HasUniqueIds s.assignments
    → accept_assignment assignment_id owner_id s ≡ ok (accepted, s')
    → (a : Assignment) × (c : Campaign) × (assignment_at assignment_id s.assignments ≡ some a)
      × (find (λ x. x.id == a.campaign_id) s.campaigns ≡ some c)
      × (occupied_slots c.id s'.assignments ≤ c.target_testers)
accept_assignment-HasRoom assignment_id owner_id s s' accepted unique returned =
    subst
      (λ (r : Result (Assignment × Session)). After (λ t. HasRoom assignment_id s t.assignments) r)
      returned (accept-HasRoom assignment_id owner_id s unique).at
