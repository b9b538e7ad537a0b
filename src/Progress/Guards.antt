-- ===== src/Progress/Guards.antt =====
-- From the guard of each service to the step that it allows, and the one update that makes it.
use test_exchange_backend.Base.{ℕ, arith, false, not, ◌||◌, some, List, ◌≡◌, refl, find, ◌==◌}
use test_exchange_backend.Model.Enums.{AssignmentStatus, assignment_is}
use test_exchange_backend.Model.Entities.{Campaign, Assignment}
use test_exchange_backend.Session.{
  Session, M, set_assignment, ◌>>=◌, gets, Result, ok, err, continue,
}
use mathlib.Core.Path.{subst}
use test_exchange_backend.Session.Keeps.{Keeps, After, KeepsAssignmentKeys, IsQuiet}
use test_exchange_backend.Session.Wp.{Post, Post-Keeps, on_or_raise, on_raise_if, wp_rules}
use test_exchange_backend.Common.{get_campaign, get_assignment, require_campaign_owner}
use test_exchange_backend.Workflow.Steps.{
  Step, accepts, declines, starts, submits, resubmits, approves, returns, rejects, awards,
  leaves_accepted, leaves_testing, leaves_changes, Moves, Moves-update, assignment_at, update_at,
  id-assignment_at,
}
use test_exchange_backend.Stability.Basics.{IsCreditStable, service_rules}
use test_exchange_backend.Stability.Frames.Assignments.{
  assignments_IsQuiet, assignments_IsCreditStable,
}

abbrev pub MovesFrom : List Assignment → Session → Type 0
MovesFrom old s = Moves old s.assignments

pub MovesFrom-IsQuiet : (old : List Assignment) → IsQuiet (MovesFrom old)
MovesFrom-IsQuiet old = assignments_IsQuiet (Moves old)

pub MovesFrom-IsCreditStable : (old : List Assignment) → IsCreditStable (MovesFrom old)
MovesFrom-IsCreditStable old = assignments_IsCreditStable (Moves old)

pub can_accept :
    (st : AssignmentStatus)
    → not (assignment_is st AssignmentStatus.applied) ≡ false
    → Step st AssignmentStatus.accepted
unfolding assignment_is
can_accept AssignmentStatus.applied h = accepts
can_accept _ h = cc

pub can_decline :
    (st : AssignmentStatus)
    → not (assignment_is st AssignmentStatus.applied) ≡ false
    → Step st AssignmentStatus.cancelled
unfolding assignment_is
can_decline AssignmentStatus.applied h = declines
can_decline _ h = cc

pub can_start :
    (st : AssignmentStatus)
    → not (assignment_is st AssignmentStatus.accepted) ≡ false
    → Step st AssignmentStatus.in_progress
unfolding assignment_is
can_start AssignmentStatus.accepted h = starts
can_start _ h = cc

pub can_withdraw :
    (st : AssignmentStatus)
    → not (
        assignment_is st AssignmentStatus.applied
        || assignment_is st AssignmentStatus.accepted
        || assignment_is st AssignmentStatus.in_progress
        || assignment_is st AssignmentStatus.changes_requested)
      ≡ false
    → Step st AssignmentStatus.cancelled
unfolding assignment_is
can_withdraw AssignmentStatus.applied h = declines
can_withdraw AssignmentStatus.accepted h = leaves_accepted
can_withdraw AssignmentStatus.in_progress h = leaves_testing
can_withdraw AssignmentStatus.changes_requested h = leaves_changes
can_withdraw _ h = cc

pub can_submit :
    (st : AssignmentStatus)
    → not (
        assignment_is st AssignmentStatus.in_progress
        || assignment_is st AssignmentStatus.changes_requested)
      ≡ false
    → Step st AssignmentStatus.submitted
unfolding assignment_is
can_submit AssignmentStatus.in_progress h = submits
can_submit AssignmentStatus.changes_requested h = resubmits
can_submit _ h = cc

pub can_approve :
    (st : AssignmentStatus)
    → not (assignment_is st AssignmentStatus.submitted) ≡ false
    → Step st AssignmentStatus.approved
unfolding assignment_is
can_approve AssignmentStatus.submitted h = approves
can_approve _ h = cc

pub can_return :
    (st : AssignmentStatus)
    → not (assignment_is st AssignmentStatus.submitted) ≡ false
    → Step st AssignmentStatus.changes_requested
unfolding assignment_is
can_return AssignmentStatus.submitted h = returns
can_return _ h = cc

pub can_reject :
    (st : AssignmentStatus)
    → not (assignment_is st AssignmentStatus.submitted) ≡ false
    → Step st AssignmentStatus.rejected
unfolding assignment_is
can_reject AssignmentStatus.submitted h = rejects
can_reject _ h = cc

pub can_award :
    (st : AssignmentStatus)
    → not
        (assignment_is st AssignmentStatus.rejected || assignment_is st AssignmentStatus.submitted)
      ≡ false
    → Step st AssignmentStatus.approved
unfolding assignment_is
can_award AssignmentStatus.rejected h = awards
can_award AssignmentStatus.submitted h = approves
can_award _ h = cc

pub ruleset guard_rules = (
  can_accept, can_decline, can_start, can_withdraw, can_submit, can_approve, can_return, can_reject,
  can_award,
)

-- the update that a service makes, with a step that is allowed; the rest makes no other
pub on_set_assignment :
    {B : Type 0} (old : List Assignment) (id : ℕ) (change : Assignment → Assignment)
    (f : Unit {0} → M B) (s : Session) (a : Assignment)
    → old ≡ s.assignments
    → assignment_at id old ≡ some a
    → KeepsAssignmentKeys change
    → Step a.status (change a).status
    → Keeps (MovesFrom old) (f tt)
    → Post (MovesFrom old) (set_assignment id change >>= f) s
unfolding set_assignment ◌>>=◌
on_set_assignment old id change f s a e found keys step keep = record {
  at =
      keep.at (record s { assignments = update_at id change s.assignments })
        (subst (λ (rows : List Assignment). Moves old (update_at id change rows)) e
          (Moves-update id change old a keys found step));
}

-- the update as the last action
pub on_last_set_assignment :
    (old : List Assignment) (id : ℕ) (change : Assignment → Assignment) (s : Session)
    (a : Assignment)
    → old ≡ s.assignments
    → assignment_at id old ≡ some a
    → KeepsAssignmentKeys change
    → Step a.status (change a).status
    → Post (MovesFrom old) (set_assignment id change) s
unfolding set_assignment
on_last_set_assignment old id change s a e found keys step = record {
  at =
      subst (λ (rows : List Assignment). Moves old (update_at id change rows)) e
        (Moves-update id change old a keys found step);
}

-- nothing has happened to the assignments so far
abbrev pub Unmoved : List Assignment → Session → Type 0
Unmoved old s = old ≡ s.assignments

pub Unmoved-IsQuiet : (old : List Assignment) → IsQuiet (Unmoved old)
Unmoved-IsQuiet old = assignments_IsQuiet (λ rows. old ≡ rows)

pub Unmoved-IsCreditStable : (old : List Assignment) → IsCreditStable (Unmoved old)
Unmoved-IsCreditStable old = assignments_IsCreditStable (λ rows. old ≡ rows)

-- a call after which `R` holds, and what follows it
module _ {A B : Type 0} {Q : Session → Type 0} where
  After-rest :
      (R : Session → Type 0) (f : A → M B) (r : Result (A × Session))
      → After R r
      → ((a : A) (s' : Session) → R s' → Post Q (f a) s')
      → After Q (continue f r)
  After-rest R f (ok (a, s')) h rest = (rest a s' h).at
  After-rest R f (err e) h rest = tt

  pub on_call :
      (R : Session → Type 0) (m : M A) (f : A → M B) (s : Session)
      → Post R m s
      → ((a : A) (s' : Session) → R s' → Post Q (f a) s')
      → Post Q (m >>= f) s
  unfolding ◌>>=◌
  on_call R m f s h rest = record { at = After-rest R f (m s) h.at rest }

  -- a call that leaves the assignments alone
  pub on_quiet :
      (old : List Assignment) (m : M A) (f : A → M B) (s : Session)
      → old ≡ s.assignments
      → Keeps (Unmoved old) m
      → ((a : A) (s' : Session) → old ≡ s'.assignments → Post Q (f a) s')
      → Post Q (m >>= f) s
  on_quiet old m f s e keep rest = on_call (Unmoved old) m f s (Post-Keeps m s e keep) rest

module _ {B : Type 0} {Q : Session → Type 0} where
  pub on_get_assignment :
      (id : ℕ) (f : Assignment → M B) (s : Session)
      → ((a : Assignment) → assignment_at id s.assignments ≡ some a → Post Q (f a) s)
      → Post Q (get_assignment id >>= f) s
  unfolding get_assignment gets ◌>>=◌
  on_get_assignment id f s h = record {
    at = (on_or_raise (assignment_at id s.assignments) "Assignment not found" 404 f s h).at;
  }

  pub on_get_campaign :
      (id : ℕ) (f : Campaign → M B) (s : Session)
      → ((c : Campaign) → Post Q (f c) s)
      → Post Q (get_campaign id >>= f) s
  unfolding get_campaign gets ◌>>=◌
  on_get_campaign id f s h = record {
    at =
        (on_or_raise (find (λ c. c.id == id) s.campaigns) "Campaign not found" 404 f s
          (λ c _. h c)).at;
  }

  pub on_owner :
      (campaign : Campaign) (user_id : ℕ) (f : Unit {0} → M B) (s : Session)
      → Post Q (f tt) s
      → Post Q (require_campaign_owner campaign user_id >>= f) s
  unfolding require_campaign_owner
  on_owner campaign user_id f s h =
      on_raise_if (not (campaign.owner_id == user_id))
        "Only the campaign owner can perform this action" 403 f s (λ _. h)

-- the whole row is read once more
pub same_found :
    (id : ℕ) (rows : List Assignment) (a : Assignment)
    → assignment_at id rows ≡ some a
    → assignment_at a.id rows ≡ some a
same_found id rows a h = cc (id-assignment_at id rows a h)

pub ruleset progress_rules = (
  guard_rules, wp_rules, on_set_assignment, on_get_assignment, on_get_campaign, on_owner,
  same_found, MovesFrom-IsQuiet, MovesFrom-IsCreditStable, refl,
)

-- for a call before the update, and for the rest after it
pub ruleset quiet_rules = (service_rules, Unmoved-IsQuiet, Unmoved-IsCreditStable)

pub ruleset rest_rules = (service_rules, MovesFrom-IsQuiet, MovesFrom-IsCreditStable, arith)
