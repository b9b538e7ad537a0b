-- ===== src/EvidenceLinks.antt =====
-- app/services/evidence.py: a moderator's signed link to a stored attachment. A text that the code
-- puts together is walked as its code points. The storage service behind `httpx.post` is a
-- parameter: what it answers to a request.
pub mod Quoting
pub mod Links
pub mod Escapes
use test_exchange_backend.Base.{
  ℕ, String, Bool, true, false, not, ◌||◌, Option, none, some, List, [], ◌∷◌, ◌++◌, ◌==◌,
  if◌then◌else◌, find,
}
use test_exchange_backend.Model.Entities.{Dispute, EvidenceItem, EvidenceSubmission, Json}
use test_exchange_backend.Session.{
  M, throw, unhandled_error, domain_error, gets, or_raise, raise_if, pure, ◌>>=◌, ◌>>◌,
}
use test_exchange_backend.Common.{add_audit_event}
use test_exchange_backend.Workflow.StorageKey.{codes, starts_with, validate_storage_key}
use test_exchange_backend.EvidenceLinks.Quoting.{quote, rstrip_slash}

-- the settings that the link reads
pub record StorageSettings : Type 0 where
  pub supabase_url : Option String
  pub supabase_service_role_key : Option String

-- the arguments of `httpx.post`
pub record StorageRequest : Type 0 where
  pub url : List ℕ
  pub apikey : String
  pub authorization : List ℕ
  pub expires_in : ℕ

-- What comes of the call and of reading its JSON: a text under `signedURL`, another value there, an
-- exception that the code catches (`httpx.HTTPError`, `ValueError`, `KeyError` or `TypeError`), or
-- one that it does not.
pub data StorageReply : Type 0 where
  signed_path : List ℕ → StorageReply
  other_value caught uncaught : StorageReply

-- `not value`, of a text that may be None
unfoldable pub is_blank : Option String → Bool
is_blank none = true
is_blank (some String.[]) = true
is_blank (some (String.◌∷◌ c text)) = false

abbrev or_empty : Option String → String
or_empty none = ""
or_empty (some text) = text

-- `base + "/storage/v1"`
unfoldable pub service_base : StorageSettings → List ℕ
service_base settings = rstrip_slash (codes (or_empty settings.supabase_url)) ++ codes "/storage/v1"

-- `path`
unfoldable pub sign_path : String → List ℕ
sign_path storage_key = codes "/object/sign/test-evidence/" ++ quote (codes storage_key)

unfoldable pub storage_request : StorageSettings → String → StorageRequest
unfolding service_base sign_path
storage_request settings storage_key =
    let secret = or_empty settings.supabase_service_role_key in
    record {
      url = service_base settings ++ sign_path storage_key;
      apikey = secret;
      authorization = codes "Bearer " ++ codes secret;
      expires_in = 60;
    }

-- the end of the `try`, with its `except`
unfoldable pub checked_path : List ℕ → StorageReply → M (List ℕ)
checked_path path (StorageReply.signed_path text) = do
  raise_if (not (starts_with text (path ++ codes "?token=")))
      "Unable to open this attachment. Please try again." 502
  pure text
checked_path path StorageReply.other_value =
    throw (domain_error "Unable to open this attachment. Please try again." 502)
checked_path path StorageReply.caught =
    throw (domain_error "Unable to open this attachment. Please try again." 502)
checked_path path StorageReply.uncaught = throw unhandled_error

unfoldable pub sign_storage_evidence :
    StorageSettings → (StorageRequest → StorageReply) → String → M (List ℕ)
unfolding is_blank service_base sign_path storage_request checked_path
sign_storage_evidence settings post storage_key = do
  raise_if (is_blank settings.supabase_url || is_blank settings.supabase_service_role_key)
      "Moderator evidence access is not configured. Contact support." 503
  text ← checked_path (sign_path storage_key) (post (storage_request settings storage_key))
  pure (service_base settings ++ text)

-- an item's key, if it is not blank
unfoldable pub with_key : Dispute → Option String → Option (Dispute × String)
unfolding is_blank
with_key dispute none = none
with_key dispute (some key) = if is_blank (some key) then none else some (dispute, key)

-- The rows of the condition: where it holds there is no attachment, and else there are the dispute
-- and the key of the item.
unfoldable pub attachment :
    Option Dispute → Option EvidenceItem → Option EvidenceSubmission → Option (Dispute × String)
unfolding with_key
attachment none item submission = none
attachment (some dispute) none submission = none
attachment (some dispute) (some item) none = none
attachment (some dispute) (some item) (some submission) =
    if submission.assignment_id == dispute.assignment_id
    then with_key dispute item.storage_key
    else none

unfoldable pub submission_id_of : Option EvidenceItem → ℕ → Bool
submission_id_of none id = false
submission_id_of (some item) id = id == item.submission_id

unfoldable pub moderator_evidence_url :
    StorageSettings → (StorageRequest → StorageReply) → ℕ → ℕ → ℕ → M (List ℕ)
unfolding attachment submission_id_of
moderator_evidence_url settings post dispute_id evidence_id moderator_id = do
  found ← gets (λ s. find (λ d. d.id == dispute_id) s.disputes)
  item ← gets (λ s. find (λ i. i.id == evidence_id) s.items)
  submission ← gets (λ s. find (λ e. submission_id_of item e.id) s.submissions)
  (dispute, storage_key) ←
      or_raise (attachment found item submission) "Attachment not found in this moderation case" 404
  validate_storage_key dispute.assignment_id storage_key
  url ← sign_storage_evidence settings post storage_key
  add_audit_event moderator_id "moderation.evidence_opened" "assignment" dispute.assignment_id
      (("dispute_id", Json.uuid dispute_id) ∷ ("evidence_id", Json.uuid evidence_id) ∷ [])
  pure url
