-- ===== src/StoragePolicies.antt =====
-- The SQL functions of the migrations that decide who may read, upload and delete files of evidence
-- in the storage bucket, as migrations/versions/d82e41f6a903_repair_release_security.sql leaves them
-- (docs/supabase-storage-policies.sql has the same text). PostgreSQL's cast of a text to a UUID is a
-- parameter, with none for its invalid_text_representation; `uid` is what `auth.uid()` gives.
pub mod Frozen
use text.Mathlib.Text.{◌==◌ as str_eq}
use test_exchange_backend.Base.{
  ℕ, String, Bool, true, false, not, ◌&&◌, ◌||◌, Option, none, some, List, ◌==◌, any,
}
use test_exchange_backend.Model.Enums.{AssignmentStatus}
use test_exchange_backend.Model.Entities.{Profile, Campaign, Assignment, EvidenceItem}
use test_exchange_backend.Session.{Session}

-- `assignment.status IN ('accepted', 'in_progress', 'changes_requested')`
unfoldable pub takes_uploads : AssignmentStatus → Bool
takes_uploads AssignmentStatus.accepted = true
takes_uploads AssignmentStatus.in_progress = true
takes_uploads AssignmentStatus.changes_requested = true
takes_uploads _ = false

-- `assignment.status IN ('in_progress', 'changes_requested')`
unfoldable pub takes_deletions : AssignmentStatus → Bool
takes_deletions AssignmentStatus.in_progress = true
takes_deletions AssignmentStatus.changes_requested = true
takes_deletions _ = false

-- `participant.id = auth.uid() and not participant.is_suspended`
unfoldable pub is_participant : ℕ → List Profile → Bool
is_participant uid = any (λ p. p.id == uid && not p.is_suspended)

-- the tester's own assignment, in a status that passes the test
unfoldable pub open_to : (AssignmentStatus → Bool) → ℕ → ℕ → List Profile → List Assignment → Bool
unfolding is_participant
open_to test id uid profiles =
    any (λ a. a.id == id && (is_participant uid profiles && (a.tester_id == uid && test a.status)))

-- the join of the assignment with its campaign
unfoldable pub read_by : ℕ → ℕ → Session → Bool
unfolding is_participant
read_by id uid s =
    any
      (λ a.
        a.id == id
        && any
            (λ c.
              c.id == a.campaign_id
              && (is_participant uid s.profiles && (a.tester_id == uid || c.owner_id == uid)))
            s.campaigns)
      s.assignments

-- `evidence.storage_key = object_name`, which is not true of NULL
unfoldable pub has_name : String → Option String → Bool
has_name object_name none = false
has_name object_name (some key) = str_eq key object_name

-- the exception handler: a folder that names no UUID is no assignment's
abbrev if_uuid : Option ℕ → (ℕ → Bool) → Bool
if_uuid none test = false
if_uuid (some id) test = test id

module _ (parse_uuid : String → Option ℕ) where
  unfoldable pub can_read_evidence : String → ℕ → Session → Bool
  unfolding read_by
  can_read_evidence folder uid s = if_uuid (parse_uuid folder) (λ id. read_by id uid s)

  unfoldable pub can_upload_evidence : String → ℕ → Session → Bool
  unfolding open_to takes_uploads
  can_upload_evidence folder uid s =
      if_uuid (parse_uuid folder) (λ id. open_to takes_uploads id uid s.profiles s.assignments)

  unfoldable pub can_delete_orphan_evidence : String → String → ℕ → Session → Bool
  unfolding open_to takes_deletions has_name
  can_delete_orphan_evidence folder object_name uid s = if_uuid (parse_uuid folder) (λ id.
      open_to takes_deletions id uid s.profiles s.assignments
      && not (any (λ i. has_name object_name i.storage_key) s.items))
