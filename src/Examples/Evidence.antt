-- ===== src/Examples/Evidence.antt =====
-- The theorems on evidence: a moderator's case, the quality check, and signed links.
use test_exchange_backend.Base.{
  ℕ, String, Option, update_if, ◌≤◌, ◌↔◌, ◌==◌, ltb, false, true, none, some, List, [], ◌∷◌, ◌++◌,
  ◌≡◌, refl, find, all, any, select, count_if, order_by, insert_by, reverse,
}
use test_exchange_backend.Model.Enums.{
  SubmissionStatus, AssignmentStatus, assignment_is, submission_is,
}
use test_exchange_backend.Model.Entities.{TestingContract, EvidenceItem, EvidenceSubmission, Json}
use test_exchange_backend.Session.{
  Session, Result, ok, gets, or_raise, raise_if, err, now, uuid4, pure, decimal, insert,
  insert_audit_event, insert_submission, insert_item, insert_notification, set_assignment, ◌>>=◌,
}
use test_exchange_backend.Common.{
  add_audit_event, get_assignment, get_campaign, require_assignment_participant,
}
use test_exchange_backend.Workflow.{
  SubmissionCreate, check_submission, started_time, contract_for_assignment, tasks_valid,
  tasks_covered, is_task, is_submitted, check_items, check_key, create_submission, latest_version,
  insert_items, or_crash, tester_name, display_name_of,
}
use test_exchange_backend.Workflow.StorageKey.{
  codes_eq, starts_with, contains, path_parts, in_folder, uuid_text, hex, split_slash, is_component,
  bad_storage_key, validate_storage_key, codes,
}
use test_exchange_backend.Notifications.{add_notification, insert_if_new}
use test_exchange_backend.Model.Keys.{notification_key_eq, key_kind, key_id}
use test_exchange_backend.StoragePolicies.{can_upload_evidence, can_delete_orphan_evidence}
use test_exchange_backend.StoragePolicies.Frozen.{create_submission-freezes}
use test_exchange_backend.Reading.{
  get_submission, get_moderation_case, evidence_groups, group, append_item, is_in, in_order,
}
use test_exchange_backend.Schemas.{
  SubmissionRead, ModerationDisputeCaseRead, submission_read, dispute_read, assignment_read,
  campaign_read, contract_read,
}
use test_exchange_backend.Routes.{submission_response, assignment_response, campaign_response}
use test_exchange_backend.Routes.ModerationRoutes.{
  evidence_of, submission_reads, case_response, dispute_case,
}
use test_exchange_backend.Routes.Evidence.{dispute_case-evidence}
use test_exchange_backend.Quality.{
  ready_for_review, quality_check_read, is_passed, coverage_check, content_check,
}
use test_exchange_backend.Quality.Scores.{quality_check_read-ready}
use test_exchange_backend.Quality.Agreement.{
  Stores, stores_nothing, stores_item, check_submission-passes_quality,
}
use test_exchange_backend.EvidenceLinks.{
  StorageRequest, StorageReply, signed_path, moderator_evidence_url, sign_storage_evidence,
  sign_path, service_base, checked_path, attachment, with_key, is_blank, submission_id_of,
  storage_request,
}
use test_exchange_backend.EvidenceLinks.Quoting.{
  quote, quote_bytes, quote_byte, encode, utf8, is_safe, upper_digit, rstrip_slash, lstrip_slash,
}
use test_exchange_backend.EvidenceLinks.Links.{OpensEvidence, moderator_evidence_url-opens}
use test_exchange_backend.EvidenceLinks.Escapes.{unquote, sign_path-decodes}
use test_exchange_backend.Examples.Databases.{
  settings, assignment, tested_database, item, submission, storage_key, dispute, profile, campaign,
  contract, task, is_blank_char, same_text,
}

quality_check_read-ready_example :
    let report =
      quality_check_read is_blank_char same_text submission 20 tested_database.tasks (item ∷ []) in
    (report.score ≤ 100)
    × ((report.status ≡ ready_for_review) ↔ (
        (submission_is submission.status SubmissionStatus.submitted ≡ true) × (report.score ≡ 100)))
quality_check_read-ready_example =
    quality_check_read-ready is_blank_char same_text submission 20 tested_database.tasks (item ∷ [])

abbrev body : SubmissionCreate
body = record {
  summary = "Every path was found on the map";
  items =
      record {
        task_id = some 40;
        kind = item.kind;
        storage_key = some storage_key;
        external_url = none;
        note = none;
      }
      ∷ [];
}

stored : Stores body.items (item ∷ [])
stored = stores_item refl refl refl refl stores_nothing

checked :
    check_submission (assignment 20 2 AssignmentStatus.in_progress) 2 body tested_database
    ≡ ok (tt, record tested_database { ticks = 1 })
unfolding check_submission started_time contract_for_assignment tasks_valid tasks_covered is_task
    is_submitted check_items check_key validate_storage_key bad_storage_key codes_eq starts_with
    contains path_parts in_folder uuid_text any all select find count_if hex split_slash
    is_component gets or_raise raise_if now pure assignment_is ◌>>=◌
checked = refl

check_submission-passes_quality_example :
    (c : TestingContract) × ((find (λ c. c.campaign_id == 10) tested_database.contracts ≡ some c)
      × ((is_passed
              (coverage_check
                (order_by
                  (λ t. t.position)
                  (select (λ t. t.contract_id == c.id) tested_database.tasks))
                (item ∷ [])).status
            ≡ true)
          × (is_passed (content_check (item ∷ [])).status ≡ true)))
check_submission-passes_quality_example =
    check_submission-passes_quality (assignment 20 2 AssignmentStatus.in_progress) 2 body
      (item ∷ []) tested_database (tt, record tested_database { ticks = 1 }) stored checked

-- the service signs whatever it is asked
abbrev sign_all : StorageRequest → StorageReply
sign_all request = signed_path (sign_path storage_key ++ codes "?token=t")

abbrev url : List ℕ
url = service_base settings.storage ++ (sign_path storage_key ++ codes "?token=t")

abbrev opened_database : Session
opened_database = record tested_database {
  drawn = 1;
  audit =
      record {
        id = 0;
        actor_id = some 9;
        action = "moderation.evidence_opened";
        entity_type = "assignment";
        entity_id = 20;
        details = ("dispute_id", Json.uuid 70) ∷ ("evidence_id", Json.uuid 60) ∷ [];
      }
      ∷ [];
}

opened :
    moderator_evidence_url settings.storage sign_all 70 60 9 tested_database
    ≡ ok (url, opened_database)
unfolding moderator_evidence_url sign_storage_evidence sign_path service_base checked_path
    attachment with_key is_blank submission_id_of storage_request quote quote_bytes quote_byte
    encode utf8 is_safe upper_digit rstrip_slash lstrip_slash reverse validate_storage_key
    bad_storage_key codes_eq starts_with contains path_parts in_folder uuid_text any select find hex
    split_slash is_component add_audit_event insert_audit_event insert uuid4 gets or_raise raise_if
    pure ◌>>=◌
opened = refl

moderator_evidence_url-opens_example : OpensEvidence settings.storage tested_database 70 60 url
moderator_evidence_url-opens_example =
    moderator_evidence_url-opens settings.storage sign_all 70 60 9 tested_database opened_database
      url opened

known_points : all (λ c. ltb c 1114112) (codes storage_key) ≡ true
unfolding all
known_points = refl

sign_path-decodes_example :
    unquote (sign_path storage_key)
    ≡ codes "/object/sign/test-evidence/" ++ encode (codes storage_key)
sign_path-decodes_example = sign_path-decodes storage_key known_points

-- every folder is that of assignment 20
abbrev parse_uuid : String → Option ℕ
parse_uuid folder = some 20

abbrev state_of : {A : Type 0} → Result (A × Session) → Session
state_of (ok (a, s)) = s
state_of (err e) = tested_database

abbrev value_of : Result (EvidenceSubmission × Session) → EvidenceSubmission
value_of (ok (e, s)) = e
value_of (err e) = submission

abbrev outcome : Result (EvidenceSubmission × Session)
outcome = create_submission 20 2 body tested_database

sent : outcome ≡ ok (value_of outcome, state_of outcome)
unfolding create_submission get_assignment get_campaign latest_version insert_submission
    insert_items insert_item set_assignment update_if tester_name display_name_of add_notification
    insert_if_new insert_notification notification_key_eq key_kind key_id decimal check_submission
    started_time contract_for_assignment tasks_valid tasks_covered is_task is_submitted check_items
    check_key validate_storage_key bad_storage_key codes_eq starts_with contains path_parts
    in_folder uuid_text any all select find count_if hex split_slash is_component add_audit_event
    insert_audit_event insert uuid4 gets or_raise raise_if now pure assignment_is ◌>>=◌
sent = refl

create_submission-freezes_example :
    (can_upload_evidence parse_uuid "20" 2 (state_of outcome) ≡ false)
    × (can_delete_orphan_evidence parse_uuid "20" storage_key 2 (state_of outcome) ≡ false)
create_submission-freezes_example =
    create_submission-freezes parse_uuid 20 2 body tested_database (state_of outcome)
      (value_of outcome) "20" storage_key 2 refl sent

-- an item that was stored before the other, under a later id
abbrev earlier : EvidenceItem
earlier = record item { id = 61; created_at = 0 }

abbrev two_items : Session
two_items = record tested_database { items = item ∷ earlier ∷ [] }

abbrev shown : SubmissionRead
shown = submission_read submission (earlier ∷ item ∷ [])

abbrev shown_case : ModerationDisputeCaseRead
shown_case = record {
  dispute = dispute_read dispute;
  assignment = assignment_read (profile 2) (assignment 20 2 AssignmentStatus.in_progress);
  campaign = campaign_read (profile 1) campaign;
  contract = contract_read contract (task ∷ []);
  submissions = shown ∷ [];
  reviews = [];
  messages = [];
  audit_events = [];
}

case_answers : dispute_case 70 two_items ≡ ok (shown_case, two_items)
unfolding dispute_case get_moderation_case case_response assignment_response campaign_response
    get_campaign evidence_groups group append_item is_in in_order evidence_of submission_reads
    or_crash gets or_raise pure find any select order_by insert_by update_if reverse ◌>>=◌
case_answers = refl

submission_answers : submission_response 50 2 two_items ≡ ok (shown, two_items)
unfolding submission_response get_submission get_assignment require_assignment_participant
    get_campaign in_order gets or_raise raise_if pure find select order_by insert_by ◌>>=◌
submission_answers = refl

is_shown : find (λ x. x.id == 50) shown_case.submissions ≡ some shown
unfolding find submission_read
is_shown = refl

dispute_case-evidence_example : shown.items ≡ shown.items
dispute_case-evidence_example =
    dispute_case-evidence 70 50 2 two_items two_items two_items shown_case shown shown case_answers
      submission_answers is_shown
