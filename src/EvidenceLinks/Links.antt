-- ===== src/EvidenceLinks/Links.antt =====
-- What a moderator's link opens.
use test_exchange_backend.Base.{
  ℕ, String, Bool, true, false, not, Option, none, some, List, [], ◌∷◌, ◌++◌, ◌≡◌, refl, sym, ap,
  ◌∙◌, arith, ◌==◌, ==_iff, find, if◌then◌else◌,
}
use mathlib.Core.Path.{subst}
use test_exchange_backend.Model.Entities.{Dispute, EvidenceItem, EvidenceSubmission}
use test_exchange_backend.Session.{Session, ok, throw, pure}
use test_exchange_backend.Session.Inversion.{gets-ok, or_raise-ok, bind-ok, raise_if-ok, ok-value}
use test_exchange_backend.Workflow.StorageKey.{
  codes, starts_with, bad_storage_key, validate_storage_key,
}
use test_exchange_backend.EvidenceLinks.{
  StorageSettings, StorageRequest, StorageReply, is_blank, with_key, attachment, submission_id_of,
  service_base, sign_path, storage_request, checked_path, sign_storage_evidence,
  moderator_evidence_url,
}

-- The link `url` opens the stored evidence of one item of the case of the dispute.
pub record OpensEvidence (settings : StorageSettings) (s : Session) (dispute_id evidence_id : ℕ)
    (url : List ℕ) : Type 0 where
  pub dispute : Dispute
  pub item : EvidenceItem
  pub submission : EvidenceSubmission
  pub storage_key : String
  pub found_dispute : find (λ d. d.id == dispute_id) s.disputes ≡ some dispute
  pub found_item : find (λ i. i.id == evidence_id) s.items ≡ some item
  pub found_submission : find (λ e. e.id == item.submission_id) s.submissions ≡ some submission
  pub same_case : submission.assignment_id ≡ dispute.assignment_id
  pub has_key : item.storage_key ≡ some storage_key
  pub in_folder : bad_storage_key dispute.assignment_id (codes storage_key) ≡ false
  pub signed :
      starts_with url (service_base settings ++ (sign_path storage_key ++ codes "?token=")) ≡ true

starts_with-append :
    (base text prefix : List ℕ)
    → starts_with text prefix ≡ true
    → starts_with (base ++ text) (base ++ prefix) ≡ true
unfolding starts_with
starts_with-append [] text prefix h = h
starts_with-append (c ∷ base) text prefix h = ground (arith, starts_with-append base text prefix h)

not-false : (b : Bool) → not b ≡ false → b ≡ true
not-false true h = refl
not-false false h = cc

checked_path-ok :
    (path : List ℕ) (reply : StorageReply) (s s' : Session) (text : List ℕ)
    → checked_path path reply s ≡ ok (text, s')
    → starts_with text (path ++ codes "?token=") ≡ true
unfolding checked_path throw pure
checked_path-ok path (StorageReply.signed_path given) s s' text h =
    let (signed, h') = raise_if-ok _ _ _ (pure given) s (text, s') h in
    let same : given ≡ text = cc in rw (sym same) (not-false _ signed)
checked_path-ok path StorageReply.other_value s s' text h = cc
checked_path-ok path StorageReply.caught s s' text h = cc
checked_path-ok path StorageReply.uncaught s s' text h = cc

sign_storage_evidence-ok :
    (settings : StorageSettings) (post : StorageRequest → StorageReply) (storage_key : String)
    (s s' : Session) (url : List ℕ)
    → sign_storage_evidence settings post storage_key s ≡ ok (url, s')
    → starts_with url (service_base settings ++ (sign_path storage_key ++ codes "?token=")) ≡ true
unfolding sign_storage_evidence pure
sign_storage_evidence-ok settings post storage_key s s' url h =
    let (_, h1) = raise_if-ok _ _ _ _ s (url, s') h in
    let (text, (s1, (checked, h2))) =
      bind-ok (checked_path (sign_path storage_key) (post (storage_request settings storage_key))) _
        s (url, s') h1 in
    let same : service_base settings ++ text ≡ url = cc in
    rw (sym same) (
      starts_with-append (service_base settings) text _
        (checked_path-ok (sign_path storage_key) _ s s1 text checked))

-- the rows behind an attachment
record Attached (found : Option Dispute) (row : Option EvidenceItem)
    (owner : Option EvidenceSubmission) (dispute : Dispute) (key : String) : Type 0 where
  item : EvidenceItem
  submission : EvidenceSubmission
  is_found : found ≡ some dispute
  is_item : row ≡ some item
  is_submission : owner ≡ some submission
  same_assignment : submission.assignment_id ≡ dispute.assignment_id
  is_key : item.storage_key ≡ some key

with_key-some :
    (d dispute : Dispute) (o : Option String) (key : String)
    → with_key d o ≡ some (dispute, key)
    → (d ≡ dispute) × (o ≡ some key)
unfolding with_key is_blank
with_key-some d dispute none key h = cc
with_key-some d dispute (some String.[]) key h = cc
with_key-some d dispute (some (String.◌∷◌ c t)) key h = (cc, cc)

only_if :
    {A : Type 0} (b : Bool) (o : Option A) (a : A)
    → (if b then o else none) ≡ some a
    → (b ≡ true) × (o ≡ some a)
only_if true o a h = (refl, h)
only_if false o a h = cc

attachment-some :
    (found : Option Dispute) (row : Option EvidenceItem) (owner : Option EvidenceSubmission)
    (dispute : Dispute) (key : String)
    → attachment found row owner ≡ some (dispute, key)
    → Attached found row owner dispute key
unfolding attachment
attachment-some none row owner dispute key h = cc
attachment-some (some d) none owner dispute key h = cc
attachment-some (some d) (some i) none dispute key h = cc
attachment-some (some d) (some i) (some e) dispute key h =
    let (same, h1) = only_if (e.assignment_id == d.assignment_id) _ _ h in
    let (is_dispute, has_key) = with_key-some d dispute i.storage_key key h1 in
    record {
      item = i;
      submission = e;
      is_found = ap some is_dispute;
      is_item = refl;
      is_submission = refl;
      same_assignment =
          (==_iff e.assignment_id d.assignment_id).0 same ∙ ap (λ x. x.assignment_id) is_dispute;
      is_key = has_key;
    }

-- A link that the moderator gets opens the evidence of one item: the item and its submission are
-- there, the submission is of the assignment in dispute, the key has passed the test for that
-- assignment's folder, and the link is the storage service's address for the key with a token.
pub moderator_evidence_url-opens :
    (settings : StorageSettings) (post : StorageRequest → StorageReply)
    (dispute_id evidence_id moderator_id : ℕ) (s s' : Session) (url : List ℕ)
    → moderator_evidence_url settings post dispute_id evidence_id moderator_id s ≡ ok (url, s')
    → OpensEvidence settings s dispute_id evidence_id url
unfolding moderator_evidence_url validate_storage_key pure submission_id_of
moderator_evidence_url-opens settings post dispute_id evidence_id moderator_id s s' url h =
    let g1 = gets-ok _ _ s (url, s') h in
    let g2 = gets-ok _ _ s (url, s') g1 in
    let g3 = gets-ok _ _ s (url, s') g2 in
    let ((dispute, key), (attached, h1)) = or_raise-ok _ _ _ _ s (url, s') g3 in
    let (in_folder, h2) = raise_if-ok _ _ _ _ s (url, s') h1 in
    let (given, (s1, (signed, h3))) = bind-ok _ _ s (url, s') h2 in
    let (_, (s2, (_, h4))) = bind-ok _ _ s1 (url, s') h3 in
    let row = find (λ (i : EvidenceItem). i.id == evidence_id) s.items in
    let rows =
      attachment-some (find (λ d. d.id == dispute_id) s.disputes) row
        (find (λ e. submission_id_of row e.id) s.submissions) dispute key attached in
    let same = ok-value given url s2 s' h4 in
    record {
      dispute = dispute;
      item = rows.item;
      submission = rows.submission;
      storage_key = key;
      found_dispute = rows.is_found;
      found_item = rows.is_item;
      found_submission =
          ap (λ o. find (λ (e : EvidenceSubmission). submission_id_of o e.id) s.submissions)
            (sym rows.is_item)
          ∙ rows.is_submission;
      same_case = rows.same_assignment;
      has_key = rows.is_key;
      in_folder = in_folder;
      signed =
          subst
            (λ text.
              starts_with text (service_base settings ++ (sign_path key ++ codes "?token=")) ≡ true)
            same (sign_storage_evidence-ok settings post key s s1 given signed);
    }
