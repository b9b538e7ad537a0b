-- ===== src/Progress/Requests.antt =====
-- One request: its service, after the check of the user.
use mathlib.Core.Path.{subst}
use test_exchange_backend.Base.{ℕ, Bool, true, false, String, ◌≡◌, refl}
use test_exchange_backend.Session.{Session, M, Result, ok, err, raise_if, require_valid, ◌>>=◌}
use test_exchange_backend.Session.Keeps.{After, Keeps}
use test_exchange_backend.Session.Wp.{Post, Post-Keeps, on_gets, on_then}
use test_exchange_backend.Workflow.Steps.{Moves, Moves-refl}
use test_exchange_backend.Api.Requests.{
  CurrentUser, Settings, Request, Call, get_active_user, get_moderator, route, begin,
  commit_or_rollback, handle,
}
use test_exchange_backend.Api.Invariants.{route_rules, Keeps-get_active_user, Keeps-get_moderator}
use test_exchange_backend.Stability.Routes.{response_rules}
use test_exchange_backend.Progress.Guards.{
  on_call, MovesFrom, rest_rules, MovesFrom-IsQuiet, MovesFrom-IsCreditStable,
}
use test_exchange_backend.Progress.Applications.{
  accept-Moves, decline-Moves, start-Moves, withdraw-Moves,
}
use test_exchange_backend.Progress.Submissions.{create_submission-Moves, create_review-Moves}
use test_exchange_backend.Progress.Disputes.{apply_to_campaign-Moves, resolve_dispute-Moves}
use test_exchange_backend.Progress.Closing.{HasUniqueIds, transition_campaign-Moves}

last_guard :
    (b : Bool) (detail : String) (code : ℕ) (s : Session)
    → Post (λ s'. s ≡ s') (raise_if b detail code) s
unfolding raise_if
last_guard true detail code s = record { at = tt }
last_guard false detail code s = record { at = refl }

module _ {B : Type 0} {Q : Session → Type 0} where
  on_user :
      (user : CurrentUser) (f : Unit {0} → M B) (s : Session)
      → Post Q (f tt) s
      → Post Q (get_active_user user >>= f) s
  unfolding get_active_user
  on_user user f s h =
      on_call (λ s'. s ≡ s') (get_active_user user) f s (on_gets _ _ s (last_guard _ _ _ s))
        λ _ s' e. subst (Post Q (f tt)) e h

module _ {B : Type 0} {Q : Session → Type 0} where
  on_valid :
      (b : Bool) (f : Unit {0} → M B) (s : Session)
      → Post Q (f tt) s
      → Post Q (require_valid b >>= f) s
  unfolding require_valid ◌>>=◌
  on_valid true f s h = record { at = h.at }
  on_valid false f s h = record { at = tt }

module _ {A B C : Type 0} {Q : Session → Type 0} where
  -- a service, its response, and the rest
  on_service :
      (m : M A) (f : A → M B) (g : B → M C) (s : Session)
      → Post Q m s
      → ((a : A) → Keeps Q (f a))
      → ((b : B) → Keeps Q (g b))
      → Post Q (m >>= f >>= g) s
  on_service m f g s h kf kg = on_then _ g s (on_then m f s h kf) kg

module _ {B : Type 0} {Q : Session → Type 0} where
  on_moderator :
      (settings : Settings) (user : CurrentUser) (f : Unit {0} → M B) (s : Session)
      → Post Q (f tt) s
      → Post Q (get_moderator settings user >>= f) s
  unfolding get_moderator
  on_moderator settings user f s h =
      on_call (λ s'. s ≡ s') (get_moderator settings user) f s
        (on_user user _ s (last_guard _ _ _ s)) λ _ s' e. subst (Post Q (f tt)) e h

route-Moves :
    (settings : Settings) (user : CurrentUser) (request : Request) (s : Session)
    → HasUniqueIds s.assignments
    → Post (MovesFrom s.assignments) (route settings user request) s
unfolding route
route-Moves settings user (Request.transition campaign_id action) s unique = on_user user _ s (
    on_service _ _ _ s (transition_campaign-Moves campaign_id user.id action s unique)
      (search (rest_rules, response_rules)) (search rest_rules))
route-Moves settings user (Request.apply campaign_id text) s unique = on_user user _ s (
    on_valid _ _ s (
      on_service _ _ _ s (apply_to_campaign-Moves campaign_id user.id text s)
        (search (rest_rules, response_rules)) (search rest_rules)))
route-Moves settings user (Request.accept assignment_id) s unique = on_user user _ s (
    on_service _ _ _ s (accept-Moves assignment_id user.id s) (search (rest_rules, response_rules))
      (search rest_rules))
route-Moves settings user (Request.decline assignment_id) s unique = on_user user _ s (
    on_service _ _ _ s (decline-Moves assignment_id user.id s) (search (rest_rules, response_rules))
      (search rest_rules))
route-Moves settings user (Request.withdraw assignment_id) s unique = on_user user _ s (
    on_service _ _ _ s (withdraw-Moves assignment_id user.id s)
      (search (rest_rules, response_rules)) (search rest_rules))
route-Moves settings user (Request.start assignment_id) s unique = on_user user _ s (
    on_service _ _ _ s (start-Moves assignment_id user.id s) (search (rest_rules, response_rules))
      (search rest_rules))
route-Moves settings user (Request.submit assignment_id payload) s unique = on_user user _ s (
    on_valid _ _ s (
      on_service _ _ _ s (create_submission-Moves assignment_id user.id payload s)
        (search (rest_rules, response_rules)) (search rest_rules)))
route-Moves settings user (Request.review submission_id decision text) s unique = on_user user _ s (
    on_valid _ _ s (
      on_service _ _ _ s (create_review-Moves submission_id user.id decision text s)
        (search (rest_rules, response_rules)) (search rest_rules)))
route-Moves settings user (Request.resolve dispute_id payload) s unique =
    on_moderator settings user _ s (
      on_valid _ _ s (
        on_service _ _ _ s (resolve_dispute-Moves dispute_id user.id payload s)
          (search (rest_rules, response_rules)) (search rest_rules)))
route-Moves settings user _ s unique = Post-Keeps _ s (Moves-refl s.assignments) (
    search
      (
        route_rules, Keeps-get_active_user, Keeps-get_moderator, MovesFrom-IsQuiet,
        MovesFrom-IsCreditStable,
      )
      depth 20)

commit-Moves :
    (s : Session) (r : Result (Unit {0} × Session))
    → After (MovesFrom s.assignments) r
    → Moves s.assignments (commit_or_rollback s r).assignments
unfolding commit_or_rollback
commit-Moves s (ok (a, s')) h = h
commit-Moves s (err e) h = Moves-refl s.assignments

-- Whatever one request does, and where it fails too: from assignments with different ids, every
-- assignment is still there under its id, with its campaign and its tester, and its status is the
-- same or one arrow of the workflow further on.
pub handle-Moves :
    (settings : Settings) (s : Session) (c : Call)
    → HasUniqueIds s.assignments
    → Moves s.assignments (handle settings s c).assignments
unfolding handle begin
handle-Moves settings s c unique =
    commit-Moves s _ (route-Moves settings c.user c.request (begin c.supply s) unique).at
