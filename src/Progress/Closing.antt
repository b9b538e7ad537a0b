-- ===== src/Progress/Closing.antt =====
-- A campaign that closes, and the applications that are pending.
use mathlib.Core.Path.{subst, sym}
use test_exchange_backend.Base.{
  ◌≤◌, count_if, find, ℕ, Bool, true, false, List, [], ◌∷◌, some, ◌≡◌, inl, inr, refl, arith, ◌==◌,
  ==_iff, Bool-cases, select, ◌&&◌,
}
use test_exchange_backend.Model.Enums.{AssignmentStatus, assignment_is}
use test_exchange_backend.Model.Entities.{Assignment, Campaign}
use test_exchange_backend.Session.{Session, set_assignment}
use test_exchange_backend.Session.Keeps.{Keeps, Keeps-bind, KeepsAssignmentKeys}
use test_exchange_backend.Workflow.Steps.{
  Step, declines, Moves, Moves-refl, assignment_at, update_at, assignment_at-update_self,
  assignment_at-update_ne,
}
use test_exchange_backend.Session.Wp.{
  Post, Post-Keeps, on_raise_if, on_gets, on_now, on_or_raise, on_then,
}
use test_exchange_backend.Campaigns.{
  Action, pause, resume, close, decline_one, decline_pending, apply_action, set_campaign_status,
  transition_campaign,
}
use test_exchange_backend.Stability.Campaigns.{
  Keeps-set_campaign_status, Keeps-maybe_complete_campaign,
}
use test_exchange_backend.Progress.Guards.{MovesFrom, on_quiet, on_owner, quiet_rules, rest_rules}

pub data Each {A : Type 0} (P : A → Type 0) : List A → Type 0 where
  nothing_left : Each P []
  and_each : {x : A} {xs : List A} → P x → Each P xs → Each P (x ∷ xs)

-- how many assignments have an id
unfoldable pub with_id : ℕ → List Assignment → ℕ
with_id id = count_if (λ a. a.id == id)

-- The primary key of the table: no two assignments have the same id.
abbrev pub HasUniqueIds : List Assignment → Type 0
HasUniqueIds rows = (id : ℕ) → with_id id rows ≤ 1

pub Each-select :
    {A : Type 0} (P : A → Type 0) (test : A → Bool) (xs : List A)
    → Each P xs
    → Each (λ x. P x × (test x ≡ true)) (select test xs)
unfolding select
Each-select P test [] nothing_left = nothing_left
Each-select P test (x ∷ xs) (and_each h hs) = elim (Bool-cases (test x)) [
  | inl holds ↦ rw holds (and_each (h, holds) (Each-select P test xs hs))
  | inr fails ↦ rw fails (Each-select P test xs hs)
]

-- an application that was pending at the start
abbrev pub IsPending : List Assignment → Assignment → Type 0
IsPending old x = (assignment_at x.id old ≡ some x) × (x.status ≡ AssignmentStatus.applied)

applied_at :
    (old : List Assignment) (x a : Assignment) (j : ℕ)
    → IsPending old x
    → x.id ≡ j
    → assignment_at j old ≡ some a
    → AssignmentStatus.applied ≡ a.status
applied_at old x a j (found, applied) e at_j = cc

IsPending-Step :
    (old : List Assignment) (x a : Assignment) (j : ℕ) (st : AssignmentStatus)
    → IsPending old x
    → x.id ≡ j
    → assignment_at j old ≡ some a
    → st ≡ AssignmentStatus.cancelled
    → Step a.status st
IsPending-Step old x a j st pending e at_j cancelled =
    subst (λ (from : AssignmentStatus). Step from st) (applied_at old x a j pending e at_j)
      (subst (λ (to : AssignmentStatus). Step AssignmentStatus.applied to) (sym cancelled) declines)

-- It is cancelled, whatever has been done before.
Moves-cancel :
    (old rows : List Assignment) (x : Assignment) (change : Assignment → Assignment)
    → Moves old rows
    → IsPending old x
    → KeepsAssignmentKeys change
    → ((r : Assignment) → (change r).status ≡ AssignmentStatus.cancelled)
    → Moves old (update_at x.id change rows)
Moves-cancel old rows x change moves pending keys cancels j a at_j =
    let (b, at_b, evolves) = moves j a at_j in
    elim (Bool-cases (x.id == j)) [
      | inl same ↦ (
        change b,
        ground (arith, (==_iff x.id j).0 same, assignment_at-update_self x.id change rows b keys),
        record {
          same_campaign = cc ((keys b).1, evolves.same_campaign);
          same_tester = cc ((keys b).2, evolves.same_tester);
          status = inr (
              IsPending-Step old x a j (change b).status pending ((==_iff x.id j).0 same) at_j
                (cancels b));
        },
      )
      | inr other ↦ (b, rw (assignment_at-update_ne x.id j change rows keys other) at_b, evolves)
    ]

Keeps-cancel :
    (old : List Assignment) (x : Assignment) (change : Assignment → Assignment)
    → IsPending old x
    → KeepsAssignmentKeys change
    → ((r : Assignment) → (change r).status ≡ AssignmentStatus.cancelled)
    → Keeps (MovesFrom old) (set_assignment x.id change)
unfolding set_assignment
Keeps-cancel old x change pending keys cancels = record {
  at = λ s h. Moves-cancel old s.assignments x change h pending keys cancels;
}

decline_one-Moves :
    (old : List Assignment) (campaign : Campaign) (owner_id t : ℕ) (x : Assignment)
    → IsPending old x
    → Keeps (MovesFrom old) (decline_one campaign owner_id t x)
unfolding decline_one
decline_one-Moves old campaign owner_id t x pending =
    search (Keeps-cancel old x, rest_rules) depth 40

decline_pending-Moves :
    (old : List Assignment) (campaign : Campaign) (owner_id t : ℕ) (pending : List Assignment)
    → Each (IsPending old) pending
    → Keeps (MovesFrom old) (decline_pending campaign owner_id t pending)
unfolding decline_pending
decline_pending-Moves old campaign owner_id t [] nothing_left = search rest_rules
decline_pending-Moves old campaign owner_id t (x ∷ rest) (and_each h hs) =
    Keeps-bind _ _ (decline_one-Moves old campaign owner_id t x h)
      λ _. decline_pending-Moves old campaign owner_id t rest hs

second_holds : (b c : Bool) → (b && c) ≡ true → c ≡ true
second_holds true c h = h
second_holds false c h = cc

is_applied :
    (st : AssignmentStatus)
    → assignment_is st AssignmentStatus.applied ≡ true
    → st ≡ AssignmentStatus.applied
unfolding assignment_is
is_applied AssignmentStatus.applied h = refl
is_applied _ h = cc

Each-map :
    {P Q : Assignment → Type 0} (xs : List Assignment)
    → ((x : Assignment) → P x → Q x)
    → Each P xs
    → Each Q xs
Each-map [] f nothing_left = nothing_left
Each-map (x ∷ xs) f (and_each h hs) = and_each (f x h) (Each-map xs f hs)

with_id-assignment_at :
    (id : ℕ) (rows : List Assignment) (a : Assignment)
    → assignment_at id rows ≡ some a
    → 1 ≤ with_id id rows
unfolding with_id count_if find
with_id-assignment_at id [] a h = cc
with_id-assignment_at id (x ∷ rest) a h = ground (arith, with_id-assignment_at id rest a)

found_behind :
    (y : Assignment) (rest : List Assignment) (a : Assignment)
    → with_id a.id (y ∷ rest) ≤ 1
    → assignment_at a.id rest ≡ some a
    → assignment_at a.id (y ∷ rest) ≡ some a
unfolding with_id count_if find
found_behind y rest a once h = ground (arith, with_id-assignment_at a.id rest a h)

found_first : (y : Assignment) (rest : List Assignment) → assignment_at y.id (y ∷ rest) ≡ some y
unfolding find
found_first y rest = ground arith

unique_behind :
    (y : Assignment) (rest : List Assignment) → HasUniqueIds (y ∷ rest) → HasUniqueIds rest
unfolding with_id count_if
unique_behind y rest unique id = ground (arith, unique id)

-- each row is the one that its id finds
HasUniqueIds-Each :
    (rows : List Assignment) → HasUniqueIds rows → Each (λ a. assignment_at a.id rows ≡ some a) rows
HasUniqueIds-Each [] unique = nothing_left
HasUniqueIds-Each (y ∷ rest) unique = and_each (found_first y rest) (
    Each-map rest (λ a h. found_behind y rest a (unique a.id) h)
      (HasUniqueIds-Each rest (unique_behind y rest unique)))

IsPending-select :
    (campaign_id : ℕ) (old rows : List Assignment)
    → old ≡ rows
    → HasUniqueIds old
    → Each (IsPending old) (
        select
          (λ a. a.campaign_id == campaign_id && assignment_is a.status AssignmentStatus.applied)
          rows)
IsPending-select campaign_id old rows e unique =
    subst
      (λ (r : List Assignment). Each (IsPending old) (
        select
          (λ a. a.campaign_id == campaign_id && assignment_is a.status AssignmentStatus.applied) r))
      e
      (Each-map _ (λ x h. (h.0, is_applied x.status (second_holds _ _ h.1)))
        (Each-select (λ a. assignment_at a.id old ≡ some a) _ old (HasUniqueIds-Each old unique)))

apply_action-Moves :
    (campaign : Campaign) (owner_id : ℕ) (action : Action) (s : Session)
    → HasUniqueIds s.assignments
    → Post (MovesFrom s.assignments) (apply_action campaign owner_id action) s
unfolding apply_action
apply_action-Moves campaign owner_id pause s unique =
    Post-Keeps _ s (Moves-refl s.assignments)
      (search (rest_rules, Keeps-set_campaign_status) depth 40)
apply_action-Moves campaign owner_id resume s unique =
    Post-Keeps _ s (Moves-refl s.assignments)
      (search (rest_rules, Keeps-set_campaign_status) depth 40)
apply_action-Moves campaign owner_id close s unique = on_raise_if _ _ _ _ s λ _.
    on_quiet s.assignments (set_campaign_status _ _) _ s refl
      (search (quiet_rules, Keeps-set_campaign_status))
      λ _ s1 e1. on_gets _ _ s1 (
        on_now _ s1 (
          Post-Keeps _ _ (subst (Moves s.assignments) e1 (Moves-refl s.assignments)) (
            Keeps-bind _ _
              (decline_pending-Moves s.assignments campaign owner_id _ _
                (IsPending-select campaign.id s.assignments s1.assignments e1 unique))
              (search rest_rules))))

-- Pausing and resuming move no assignment; closing cancels the applications that are pending.
pub transition_campaign-Moves :
    (campaign_id owner_id : ℕ) (action : Action) (s : Session)
    → HasUniqueIds s.assignments
    → Post (MovesFrom s.assignments) (transition_campaign campaign_id owner_id action) s
unfolding transition_campaign
transition_campaign-Moves campaign_id owner_id action s unique = on_gets _ _ s (
    on_or_raise _ _ _ _ s λ campaign _. on_owner campaign owner_id _ s (
      on_then (apply_action campaign owner_id action) _ s
        (apply_action-Moves campaign owner_id action s unique)
        (search (rest_rules, Keeps-maybe_complete_campaign) depth 40)))
