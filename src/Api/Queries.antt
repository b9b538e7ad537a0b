-- ===== src/Api/Queries.antt =====
-- The requests that only read, and the responses to them.
use test_exchange_backend.Base.{ℕ, String, Bool, Option, List}
use test_exchange_backend.Model.Enums.{DisputeStatus}
use test_exchange_backend.Session.{M, pure, ◌>>=◌, ◌>>◌}
use test_exchange_backend.Quality.{QualityCheckRead}
use test_exchange_backend.Schemas.{
  AssignmentRead, AuditEventRead, BetaStatusRead, CampaignRead, CapabilitiesRead, ContractRead,
  CreditLedgerEntryRead, DisputeRead, MessageRead, ModerationDisputeCaseRead,
  ModerationParticipantRead, NotificationRead, ProfileRead, ReviewRead, SubmissionRead,
  TestingSessionRead, WaitlistRead,
}
use test_exchange_backend.Routes.CampaignRoutes
use test_exchange_backend.Routes.WorkflowRoutes
use test_exchange_backend.Routes.ModerationRoutes
use test_exchange_backend.Routes.AccountRoutes
use test_exchange_backend.Api.Requests.{CurrentUser, Settings, get_active_user, get_moderator}

-- One constructor for each route that reads; a moderator's lists of disputes and of the waitlist are
-- `all_disputes` and `read_waitlist`.
pub data Query : Type 0 where
  read_profile : Query
  capabilities : Query
  mine : Query
  read_contract : ℕ → Query
  assignments : Query
  assignment : ℕ → Query
  assignment_campaign : ℕ → Query
  assignment_contract : ℕ → Query
  testing_sessions : ℕ → Query
  submission : ℕ → Query
  submission_quality_check : ℕ → Query
  submissions : ℕ → Query
  reviews : ℕ → Query
  messages : ℕ → Query
  disputes : Query
  audit : ℕ → Query
  ledger : Query
  notifications : Query
  all_disputes : Option DisputeStatus → Query
  dispute_case : ℕ → Query
  participants : Query
  read_waitlist : Query
  public_beta_status : Query
  public_campaigns : Query
  public_campaign : String → Query

pub data Response : Type 0 where
  one_profile : ProfileRead → Response
  one_capabilities : CapabilitiesRead → Response
  many_campaign : List CampaignRead → Response
  one_contract : ContractRead → Response
  many_assignment : List AssignmentRead → Response
  one_assignment : AssignmentRead → Response
  one_campaign : CampaignRead → Response
  many_testing_session : List TestingSessionRead → Response
  one_submission : SubmissionRead → Response
  one_quality_check : QualityCheckRead → Response
  many_submission : List SubmissionRead → Response
  many_review : List ReviewRead → Response
  many_message : List MessageRead → Response
  many_dispute : List DisputeRead → Response
  many_audit_event : List AuditEventRead → Response
  many_credit_ledger_entry : List CreditLedgerEntryRead → Response
  many_notification : List NotificationRead → Response
  one_moderation_dispute_case : ModerationDisputeCaseRead → Response
  many_moderation_participant : List ModerationParticipantRead → Response
  many_waitlist : List WaitlistRead → Response
  one_beta_status : BetaStatusRead → Response

unfoldable pub respond : {A : Type 0} → (A → Response) → M A → M Response
respond make m = do a ← m; pure (make a)

-- the dependencies of a route: none, `AuthenticatedUser` or `ModeratorUser`
unfoldable pub authorise : Settings → CurrentUser → Query → M (Unit {0})
authorise settings user (all_disputes status_filter) = get_moderator settings user
authorise settings user (dispute_case dispute_id) = get_moderator settings user
authorise settings user participants = get_moderator settings user
authorise settings user read_waitlist = get_moderator settings user
authorise settings user public_beta_status = pure tt
authorise settings user public_campaigns = pure tt
authorise settings user (public_campaign slug) = pure tt
authorise settings user _ = get_active_user user

-- The parameters are those of the quality check.
module _ (is_space : ℕ → Bool) (lower : List ℕ → List ℕ) where
  -- what a route answers once its dependencies have passed
  unfoldable pub response : Settings → CurrentUser → Query → M Response
  unfolding respond AccountRoutes.read_profile AccountRoutes.capabilities CampaignRoutes.mine
      CampaignRoutes.read_contract WorkflowRoutes.assignments WorkflowRoutes.assignment
      WorkflowRoutes.assignment_campaign WorkflowRoutes.assignment_contract
      WorkflowRoutes.testing_sessions WorkflowRoutes.submission
      WorkflowRoutes.submission_quality_check WorkflowRoutes.submissions WorkflowRoutes.reviews
      WorkflowRoutes.messages WorkflowRoutes.disputes WorkflowRoutes.audit AccountRoutes.ledger
      AccountRoutes.notifications ModerationRoutes.disputes ModerationRoutes.dispute_case
      ModerationRoutes.participants ModerationRoutes.waitlist AccountRoutes.public_beta_status
      AccountRoutes.public_campaigns AccountRoutes.public_campaign
  response settings user read_profile = respond one_profile (AccountRoutes.read_profile user.id)
  response settings user capabilities =
      respond one_capabilities (AccountRoutes.capabilities user.id settings.moderator_user_ids)
  response settings user mine = respond many_campaign (CampaignRoutes.mine user.id)
  response settings user (read_contract campaign_id) =
      respond one_contract (CampaignRoutes.read_contract campaign_id user.id)
  response settings user assignments = respond many_assignment (WorkflowRoutes.assignments user.id)
  response settings user (assignment assignment_id) =
      respond one_assignment (WorkflowRoutes.assignment assignment_id user.id)
  response settings user (assignment_campaign assignment_id) =
      respond one_campaign (WorkflowRoutes.assignment_campaign assignment_id user.id)
  response settings user (assignment_contract assignment_id) =
      respond one_contract (WorkflowRoutes.assignment_contract assignment_id user.id)
  response settings user (testing_sessions assignment_id) =
      respond many_testing_session (WorkflowRoutes.testing_sessions assignment_id user.id)
  response settings user (submission submission_id) =
      respond one_submission (WorkflowRoutes.submission submission_id user.id)
  response settings user (submission_quality_check submission_id) =
      respond one_quality_check
        (WorkflowRoutes.submission_quality_check is_space lower submission_id user.id)
  response settings user (submissions assignment_id) =
      respond many_submission (WorkflowRoutes.submissions assignment_id user.id)
  response settings user (reviews submission_id) =
      respond many_review (WorkflowRoutes.reviews submission_id user.id)
  response settings user (messages assignment_id) =
      respond many_message (WorkflowRoutes.messages assignment_id user.id)
  response settings user disputes = respond many_dispute (WorkflowRoutes.disputes user.id)
  response settings user (audit assignment_id) =
      respond many_audit_event (WorkflowRoutes.audit assignment_id user.id)
  response settings user ledger = respond many_credit_ledger_entry (AccountRoutes.ledger user.id)
  response settings user notifications =
      respond many_notification (AccountRoutes.notifications user.id)
  response settings user (all_disputes status_filter) =
      respond many_dispute (ModerationRoutes.disputes status_filter)
  response settings user (dispute_case dispute_id) =
      respond one_moderation_dispute_case (ModerationRoutes.dispute_case dispute_id)
  response settings user participants =
      respond many_moderation_participant ModerationRoutes.participants
  response settings user read_waitlist = respond many_waitlist ModerationRoutes.waitlist
  response settings user public_beta_status =
      respond one_beta_status (AccountRoutes.public_beta_status settings.beta)
  response settings user public_campaigns = respond many_campaign AccountRoutes.public_campaigns
  response settings user (public_campaign slug) =
      respond one_campaign (AccountRoutes.public_campaign slug)

  unfoldable pub answer : Settings → CurrentUser → Query → M Response
  unfolding response authorise
  answer settings user query = do authorise settings user query; response settings user query
