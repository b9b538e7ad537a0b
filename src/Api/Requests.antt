-- ===== src/Api/Requests.antt =====
-- The requests that change the database, their authorisation, and the transaction round each.
use test_exchange_backend.Base.{
  ℕ, String, Bool, false, not, Option, none, some, List, [], ◌∷◌, ◌==◌, any, find,
}
use test_exchange_backend.Model.Enums.{ReviewDecision}
use test_exchange_backend.Model.Entities.{Profile}
use test_exchange_backend.Session.{
  Session, M, Result, ok, err, gets, raise_if, require_valid, pure, ◌>>=◌, ◌>>◌,
}
use test_exchange_backend.Campaigns.{
  CampaignCreate, CampaignUpdate, CampaignLaunch, ContractUpsert, Action,
}
use test_exchange_backend.Workflow.{SubmissionCreate}
use test_exchange_backend.Moderation.{DisputeResolve}
use test_exchange_backend.Profiles.{ProfileUpsert, BetaSettings}
use test_exchange_backend.EvidenceLinks.{StorageSettings, StorageRequest, StorageReply}
use test_exchange_backend.Schemas.{
  campaign_create_valid, campaign_launch_valid, campaign_update_valid, contract_upsert_valid,
  dispute_create_valid, dispute_resolve_valid, message_create_valid, participant_suspension_valid,
  profile_upsert_valid, review_create_valid, short_note_valid, submission_create_valid,
}
use test_exchange_backend.Waitlist.Addresses.{waitlist_create_valid}
use test_exchange_backend.Routes.CampaignRoutes
use test_exchange_backend.Routes.WorkflowRoutes
use test_exchange_backend.Routes.ModerationRoutes
use test_exchange_backend.Routes.AccountRoutes

-- `CurrentUser`, as the verified token gives it
pub record CurrentUser : Type 0 where
  pub id : ℕ
  pub email : Option String

-- the settings that the routes read
pub record Settings : Type 0 where
  pub beta : BetaSettings
  pub moderator_user_ids : List ℕ
  pub storage : StorageSettings

-- One constructor for each route that writes, named after the function of the route. The request for
-- a link to evidence comes with what the storage service answers meanwhile, and that of the waitlist
-- with what Python's `str.strip` and `str.lower` make of a text.
pub data Request : Type 0 where
  save_profile : ProfileUpsert → Request
  create : CampaignCreate → Request
  launch : CampaignLaunch → Request
  update : ℕ → CampaignUpdate → Request
  save_contract : ℕ → ContractUpsert → Request
  publish : ℕ → Request
  transition : ℕ → Action → Request
  apply : ℕ → Option String → Request
  accept decline withdraw start : ℕ → Request
  testing_session : ℕ → Option String → Request
  submit : ℕ → SubmissionCreate → Request
  review : ℕ → ReviewDecision → String → Request
  message : ℕ → String → Request
  dispute : ℕ → Option ℕ → String → Request
  balance : Request
  read_notification : ℕ → Request
  read_all_notifications : Request
  evidence_url : ℕ → ℕ → (StorageRequest → StorageReply) → Request
  claim : ℕ → Request
  resolve : ℕ → DisputeResolve → Request
  suspend : ℕ → String → Request
  restore : ℕ → Request
  waitlist : (String → String) → String → Request

unfoldable pub is_suspended : Option Profile → Bool
is_suspended none = false
is_suspended (some p) = p.is_suspended

-- `get_active_user`: an HTTPException with status 403 for a suspended account
unfoldable pub get_active_user : CurrentUser → M (Unit {0})
unfolding is_suspended
get_active_user user = do
  profile ← gets (λ s. find (λ p. p.id == user.id) s.profiles)
  raise_if (is_suspended profile)
      "This account is suspended. Contact support if you believe this is an error." 403

-- `get_moderator`
unfoldable pub get_moderator : Settings → CurrentUser → M (Unit {0})
get_moderator settings user = do
  get_active_user user
  raise_if (not (any (λ id. id == user.id) settings.moderator_user_ids)) "Moderator access required"
      403

-- What each route does: its dependencies, then its body, then its function. The response goes to the
-- client, and the transaction does not need it.
unfoldable pub route : Settings → CurrentUser → Request → M (Unit {0})
unfolding AccountRoutes.save_profile CampaignRoutes.create CampaignRoutes.launch
    CampaignRoutes.update CampaignRoutes.save_contract CampaignRoutes.publish
    CampaignRoutes.transition WorkflowRoutes.apply WorkflowRoutes.accept WorkflowRoutes.decline
    WorkflowRoutes.withdraw WorkflowRoutes.start WorkflowRoutes.testing_session
    WorkflowRoutes.submit WorkflowRoutes.review WorkflowRoutes.message WorkflowRoutes.dispute
    AccountRoutes.balance AccountRoutes.read_notification AccountRoutes.read_all_notifications
    ModerationRoutes.evidence_url ModerationRoutes.claim ModerationRoutes.resolve
    ModerationRoutes.suspend ModerationRoutes.restore AccountRoutes.waitlist campaign_create_valid
    campaign_launch_valid campaign_update_valid contract_upsert_valid dispute_create_valid
    dispute_resolve_valid message_create_valid participant_suspension_valid profile_upsert_valid
    review_create_valid short_note_valid submission_create_valid waitlist_create_valid
route settings user (save_profile payload) = do
  get_active_user user
  require_valid (profile_upsert_valid payload)
  AccountRoutes.save_profile payload user.id user.email settings.beta
  pure tt
route settings user (create payload) = do
  get_active_user user
  require_valid (campaign_create_valid payload)
  CampaignRoutes.create payload user.id
  pure tt
route settings user (launch payload) = do
  get_active_user user
  require_valid (campaign_launch_valid payload)
  CampaignRoutes.launch payload user.id
  pure tt
route settings user (update campaign_id payload) = do
  get_active_user user
  require_valid (campaign_update_valid payload)
  CampaignRoutes.update campaign_id payload user.id
  pure tt
route settings user (save_contract campaign_id payload) = do
  get_active_user user
  require_valid (contract_upsert_valid payload)
  CampaignRoutes.save_contract campaign_id payload user.id
  pure tt
route settings user (publish campaign_id) = do
  get_active_user user
  CampaignRoutes.publish campaign_id user.id
  pure tt
route settings user (transition campaign_id action) = do
  get_active_user user
  CampaignRoutes.transition campaign_id action user.id
  pure tt
route settings user (apply campaign_id text) = do
  get_active_user user
  require_valid (short_note_valid text)
  WorkflowRoutes.apply campaign_id text user.id
  pure tt
route settings user (accept assignment_id) = do
  get_active_user user
  WorkflowRoutes.accept assignment_id user.id
  pure tt
route settings user (decline assignment_id) = do
  get_active_user user
  WorkflowRoutes.decline assignment_id user.id
  pure tt
route settings user (withdraw assignment_id) = do
  get_active_user user
  WorkflowRoutes.withdraw assignment_id user.id
  pure tt
route settings user (start assignment_id) = do
  get_active_user user
  WorkflowRoutes.start assignment_id user.id
  pure tt
route settings user (testing_session assignment_id text) = do
  get_active_user user
  require_valid (short_note_valid text)
  WorkflowRoutes.testing_session assignment_id text user.id
  pure tt
route settings user (submit assignment_id payload) = do
  get_active_user user
  require_valid (submission_create_valid payload)
  WorkflowRoutes.submit assignment_id payload user.id
  pure tt
route settings user (review submission_id decision notes) = do
  get_active_user user
  require_valid (review_create_valid notes)
  WorkflowRoutes.review submission_id decision notes user.id
  pure tt
route settings user (message assignment_id body) = do
  get_active_user user
  require_valid (message_create_valid body)
  WorkflowRoutes.message assignment_id body user.id
  pure tt
route settings user (dispute assignment_id submission_id reason) = do
  get_active_user user
  require_valid (dispute_create_valid reason)
  WorkflowRoutes.dispute assignment_id submission_id reason user.id
  pure tt
route settings user balance = do get_active_user user; AccountRoutes.balance user.id; pure tt
route settings user (read_notification notification_id) = do
  get_active_user user
  AccountRoutes.read_notification notification_id user.id
  pure tt
route settings user read_all_notifications = do
  get_active_user user
  AccountRoutes.read_all_notifications user.id
  pure tt
route settings user (evidence_url dispute_id evidence_id post) = do
  get_moderator settings user
  ModerationRoutes.evidence_url settings.storage post dispute_id evidence_id user.id
  pure tt
route settings user (claim dispute_id) = do
  get_moderator settings user
  ModerationRoutes.claim dispute_id user.id
  pure tt
route settings user (resolve dispute_id payload) = do
  get_moderator settings user
  require_valid (dispute_resolve_valid payload)
  ModerationRoutes.resolve dispute_id payload user.id
  pure tt
route settings user (suspend participant_id reason) = do
  get_moderator settings user
  require_valid (participant_suspension_valid reason)
  ModerationRoutes.suspend participant_id reason user.id
  pure tt
route settings user (restore participant_id) = do
  get_moderator settings user
  ModerationRoutes.restore participant_id user.id
  pure tt
route settings user (waitlist normalize email) = do
  require_valid (waitlist_create_valid normalize email)
  AccountRoutes.waitlist (normalize email)
  pure tt

-- What comes from outside during one request: fresh UUIDs and readings of the clock.
pub record Supply : Type 0 where
  pub uuids : ℕ → ℕ
  pub clock : ℕ → ℕ

pub record Call : Type 0 where
  pub user : CurrentUser
  pub request : Request
  pub supply : Supply

unfoldable pub begin : Supply → Session → Session
begin w s = record s { uuids = w.uuids; drawn = 0; clock = w.clock; ticks = 0 }

-- `get_db`: commit what the request did, or roll back to where it began
unfoldable pub commit_or_rollback : {A : Type 0} → Session → Result (A × Session) → Session
commit_or_rollback s (ok (a, s')) = s'
commit_or_rollback s (err e) = s

unfoldable pub handle : Settings → Session → Call → Session
unfolding begin commit_or_rollback
handle settings s c = commit_or_rollback s (route settings c.user c.request (begin c.supply s))

-- requests one after another
unfoldable pub serve : Settings → Session → List Call → Session
serve settings s [] = s
serve settings s (c ∷ rest) = serve settings (handle settings s c) rest
