-- ===== src/Examples/Databases.antt =====
-- Databases and requests: a new database on which a campaign is launched, and one with an application
-- and an approved assignment.
use test_exchange_backend.Base.{
  ℕ, String, Bool, ◌==◌, ◌+◌, true, false, none, some, List, [], ◌∷◌, ◌*◌,
}
use test_exchange_backend.Model.Enums.{
  Platform, CampaignStatus, ContractStatus, AssignmentStatus, SubmissionStatus, EvidenceKind,
  DisputeStatus,
}
use test_exchange_backend.Model.Entities.{
  Profile, WaitlistEntry, Campaign, TestingContract, ContractTask, Assignment, EvidenceItem,
  EvidenceSubmission, Dispute,
}
use test_exchange_backend.Session.{Session}
use test_exchange_backend.Campaigns.{CampaignCreate, ContractUpsert}
use test_exchange_backend.Api.Requests.{Settings, Request, Call}

abbrev pub settings : Settings
settings = record {
  beta = record {
    signup_credit_grant = 100;
    public_beta_enabled = true;
    public_beta_max_users = 50;
  };
  moderator_user_ids = 9 ∷ [];
  storage = record {
    supabase_url = some "https://example.org/";
    supabase_service_role_key = some "secret";
  };
}

abbrev pub call : ℕ → ℕ → Request → Call
call user_id start request = record {
  user = record { id = user_id; email = none };
  request = request;
  supply = record { uuids = λ n. start + n; clock = λ n. start * 1000000 + n };
}

abbrev pub new_database : Session
new_database = record {
  profiles = [];
  beta_state = none;
  waitlist = [];
  campaigns = [];
  contracts = [];
  tasks = [];
  assignments = [];
  sessions = [];
  submissions = [];
  items = [];
  messages = [];
  notifications = [];
  reviews = [];
  accounts = [];
  ledger = [];
  disputes = [];
  audit = [];
  uuids = λ n. n;
  drawn = 0;
  clock = λ n. n;
  ticks = 0;
}

abbrev pub campaign_body : CampaignCreate
campaign_body = record {
  name = "Maps";
  slug = "maps";
  platform = Platform.android;
  category = "navigation";
  public_summary = "A map of every footpath";
  public_tester_requirements = "An Android phone";
  minimum_version = none;
  target_testers = 2;
  reward_credits = 10;
}

abbrev pub contract_body : ContractUpsert
contract_body = record {
  tester_instructions = "Walk a path near home";
  access_instructions = none;
  device_requirements = none;
  evidence_requirements = "A short note";
  review_window_hours = 72;
  minimum_duration_days = 0;
  required_sessions = 1;
  tasks =
      record { title = "Walk"; instructions = "From home and back"; evidence_required = false }
      ∷ [];
}

abbrev pub launch : Request
launch = Request.launch (record { campaign = campaign_body; contract = contract_body })

-- two registrations, a launch that succeeds and one that fails
abbrev pub first_calls : List Call
first_calls =
    call 1 100 (
      Request.save_profile
        (record { username = "ann"; display_name = "Ann"; bio = none; avatar_url = none }))
    ∷ call 2 200 (
        Request.save_profile
          (record { username = "bob"; display_name = "Bob"; bio = none; avatar_url = none }))
    ∷ call 1 300 launch
    ∷ call 1 400 launch
    ∷ []

abbrev pub profile : ℕ → Profile
profile id = record {
  id = id;
  email = none;
  username = "ann";
  display_name = "Ann";
  bio = none;
  avatar_url = none;
  is_suspended = false;
  suspended_at = none;
  suspension_reason = none;
}

abbrev pub campaign : Campaign
campaign = record {
  id = 10;
  owner_id = 1;
  name = "Maps";
  slug = "maps";
  platform = Platform.android;
  category = "navigation";
  public_summary = "A map of every footpath";
  public_tester_requirements = "An Android phone";
  minimum_version = none;
  target_testers = 2;
  reward_credits = 10;
  status = CampaignStatus.published;
  published_at = some 5;
}

abbrev pub assignment : ℕ → ℕ → AssignmentStatus → Assignment
assignment id tester_id status = record {
  id = id;
  campaign_id = 10;
  tester_id = tester_id;
  application_note = none;
  status = status;
  accepted_at = some 6;
  started_at = some 7;
  submitted_at = some 8;
  completed_at = none;
}

-- one application and one approved assignment
abbrev pub used_database : Session
used_database = record new_database {
  profiles = profile 1 ∷ profile 2 ∷ profile 3 ∷ [];
  campaigns = campaign ∷ [];
  assignments =
      assignment 20 2 AssignmentStatus.applied ∷ assignment 21 3 AssignmentStatus.approved ∷ [];
}

abbrev pub contract : TestingContract
contract = record {
  id = 30;
  campaign_id = 10;
  version = 1;
  tester_instructions = "Walk a path near home";
  access_instructions = none;
  device_requirements = none;
  evidence_requirements = "A short note";
  review_window_hours = 72;
  minimum_duration_days = 0;
  required_sessions = 0;
  status = ContractStatus.locked;
  locked_at = some 5;
}

abbrev pub task : ContractTask
task = record {
  id = 40;
  contract_id = 30;
  position = 0;
  title = "Walk";
  instructions = "From home and back";
  evidence_required = true;
}

abbrev pub storage_key : String
storage_key = "00000000-0000-0000-0000-000000000014/a b.png"

abbrev pub item : EvidenceItem
item = record {
  id = 60;
  submission_id = 50;
  task_id = some 40;
  kind = EvidenceKind.screenshot;
  storage_key = some storage_key;
  external_url = none;
  note = none;
  created_at = 1;
}

abbrev pub submission : EvidenceSubmission
submission = record {
  id = 50;
  assignment_id = 20;
  version = 1;
  summary = "Every path was found on the map";
  status = SubmissionStatus.submitted;
  submitted_at = 9;
}

abbrev pub dispute : Dispute
dispute = record {
  id = 70;
  assignment_id = 20;
  submission_id = some 50;
  opened_by = 2;
  reason = "The review is late";
  status = DisputeStatus.opened;
  assigned_to = none;
  assigned_at = none;
  resolution = none;
  remedy = none;
  resolved_by = none;
  resolved_at = none;
}

-- an assignment under test, with a contract, a submission and a dispute
abbrev pub tested_database : Session
tested_database = record used_database {
  contracts = contract ∷ [];
  tasks = task ∷ [];
  assignments = assignment 20 2 AssignmentStatus.in_progress ∷ [];
  submissions = submission ∷ [];
  items = item ∷ [];
  disputes = dispute ∷ [];
  clock = λ n. n + 100;
}

-- white space and lower case for the quality check
abbrev pub is_blank_char : ℕ → Bool
is_blank_char c = c == b' '

abbrev pub same_text : List ℕ → List ℕ
same_text text = text

-- the owner accepts the application, the tester starts, and a restart fails
abbrev pub later_calls : List Call
later_calls =
    call 1 500 (Request.accept 20)
    ∷ call 2 600 (Request.start 20)
    ∷ call 3 700 (Request.start 21)
    ∷ []

-- tester 2 is suspended
abbrev pub suspended_database : Session
suspended_database = record used_database {
  profiles = record (profile 2) { is_suspended = true } ∷ [];
}

abbrev pub entry : WaitlistEntry
entry = record { id = 0; email = "eve@example.org" }

abbrev pub joined_database : Session
joined_database = record new_database { drawn = 1; waitlist = entry ∷ [] }
