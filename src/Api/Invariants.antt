-- ===== src/Api/Invariants.antt =====
-- From the services to any run of requests: what every service keeps, a run of requests keeps.
use test_exchange_backend.Base.{List, [], ◌∷◌}
use test_exchange_backend.Session.{Session, Result, ok, err}
use test_exchange_backend.Session.Keeps.{Keeps, After, IsQuiet, IsStable}
use test_exchange_backend.Api.Requests.{
  CurrentUser, Settings, Request, Supply, Call, get_active_user, get_moderator, route, begin,
  commit_or_rollback, handle, serve,
}
use test_exchange_backend.Stability.Basics.{
  IsCreditStable, service_rules, Keeps-mark_notification_read, Keeps-mark_all_notifications_read,
}
use test_exchange_backend.Stability.Campaigns.{
  Keeps-create_campaign, Keeps-update_campaign, Keeps-upsert_contract, Keeps-get_contract,
  Keeps-publish_campaign, Keeps-launch_campaign, Keeps-transition_campaign,
}
use test_exchange_backend.Stability.Workflow.{
  Keeps-apply_to_campaign, Keeps-accept_assignment, Keeps-decline_assignment,
  Keeps-withdraw_assignment, Keeps-start_assignment, Keeps-record_testing_session,
  Keeps-create_submission, Keeps-create_review, Keeps-add_message, Keeps-open_dispute,
}
use test_exchange_backend.Stability.Moderation.{Keeps-claim_dispute, Keeps-resolve_dispute}
use test_exchange_backend.Stability.Profiles.{
  Keeps-upsert_profile, Keeps-join_waitlist, Keeps-suspend_participant, Keeps-restore_participant,
}
use test_exchange_backend.Stability.Routes.{Keeps-moderator_evidence_url, response_rules}

pub ruleset route_rules = (
  service_rules, Keeps-mark_notification_read, Keeps-mark_all_notifications_read,
  Keeps-create_campaign, Keeps-update_campaign, Keeps-upsert_contract, Keeps-get_contract,
  Keeps-publish_campaign, Keeps-launch_campaign, Keeps-transition_campaign, Keeps-apply_to_campaign,
  Keeps-accept_assignment, Keeps-decline_assignment, Keeps-withdraw_assignment,
  Keeps-start_assignment, Keeps-record_testing_session, Keeps-create_submission,
  Keeps-create_review, Keeps-add_message, Keeps-open_dispute, Keeps-claim_dispute,
  Keeps-resolve_dispute, Keeps-upsert_profile, Keeps-join_waitlist, Keeps-suspend_participant,
  Keeps-restore_participant, Keeps-moderator_evidence_url, response_rules,
)

module _ {P : Session → Type 0} (st : IsQuiet P) (cr : IsCreditStable P) where
  pub Keeps-get_active_user : (user : CurrentUser) → Keeps P (get_active_user user)
  unfolding get_active_user
  Keeps-get_active_user user = search service_rules

  pub Keeps-get_moderator :
      (settings : Settings) (user : CurrentUser) → Keeps P (get_moderator settings user)
  unfolding get_moderator
  Keeps-get_moderator settings user = search (service_rules, Keeps-get_active_user)

module _ {P : Session → Type 0} (st : IsStable P) (cr : IsCreditStable P) where
  Keeps-route :
      (settings : Settings) (user : CurrentUser) (request : Request)
      → Keeps P (route settings user request)
  unfolding route
  Keeps-route settings user (Request.save_profile payload) =
      search (route_rules, Keeps-get_active_user, Keeps-get_moderator) depth 20
  Keeps-route settings user _ =
      search (route_rules, Keeps-get_active_user, Keeps-get_moderator) depth 20

module _ (P : Session → Type 0) where
  Keeps-commit :
      {A : Type 0} (s : Session) (r : Result (A × Session))
      → P s
      → After P r
      → P (commit_or_rollback s r)
  unfolding commit_or_rollback
  Keeps-commit s (ok (a, s')) h k = k
  Keeps-commit s (err e) h k = h

module _ {P : Session → Type 0} (st : IsStable P) (cr : IsCreditStable P)
    (begins : (w : Supply) (s : Session) → P s → P (begin w s)) where
  pub handle_keeps : (settings : Settings) (s : Session) (c : Call) → P s → P (handle settings s c)
  unfolding handle
  handle_keeps settings s c h =
      Keeps-commit P s (route settings c.user c.request (begin c.supply s)) h
        ((Keeps-route st cr settings c.user c.request).at (begin c.supply s) (begins c.supply s h))

  pub serve_keeps :
      (settings : Settings) (s : Session) (calls : List Call) → P s → P (serve settings s calls)
  unfolding serve
  serve_keeps settings s [] h = h
  serve_keeps settings s (c ∷ rest) h =
      serve_keeps settings (handle settings s c) rest (handle_keeps settings s c h)
