-- ===== src/Routes/Evidence.antt =====
-- The evidence that a moderator's case shows, against what the route of a submission shows to its
-- tester and the owner.
use mathlib.Core.Path.{subst}
use test_exchange_backend.Base.{
  ℕ, Bool, some, find, true, false, List, [], ◌∷◌, ◌++◌, map, ◌≡◌, refl, sym, ap, ◌∙◌, inl, inr,
  arith, ◌==◌, ==_iff, Bool-cases, if◌then◌else◌, any, select, order_by, update_if, select-order_by,
}
use test_exchange_backend.Model.Entities.{EvidenceItem, EvidenceSubmission}
use test_exchange_backend.Session.{Session, ok, gets, pure, ◌>>=◌}
use test_exchange_backend.Session.Inversion.{or_raise-ok, bind-ok, ok-value}
use test_exchange_backend.Session.Reads.{read-ok}
use test_exchange_backend.Reading.{
  in_order, append_item, group, is_in, evidence_groups, get_submission, get_moderation_case,
  ModerationCase,
}
use test_exchange_backend.Schemas.{
  SubmissionRead, ModerationDisputeCaseRead, submission_read, evidence_item_read,
}
use test_exchange_backend.Routes.Responses.{submission_response}
use test_exchange_backend.Routes.ModerationRoutes.{
  evidence_of, submission_reads, case_response, dispute_case,
}
use test_exchange_backend.Routes.Unlocking.{get_assignment-ok}
use test_exchange_backend.Stability.Reading.{
  Reads-get_campaign, Reads-require_assignment_participant, Reads-get_moderation_case,
}

abbrev items_of : ℕ → List EvidenceItem → List EvidenceItem
items_of id = select (λ i. i.submission_id == id)

abbrev Groups : Type 0
Groups = ℕ → List EvidenceItem

abbrev table : Groups → List ℕ → List (ℕ × List EvidenceItem)
table f ids = map (λ id. (id, f id)) ids

abbrev with_item : EvidenceItem → Groups → Groups
with_item item f id = if id == item.submission_id then f id ++ item ∷ [] else f id

abbrev ids_of : List EvidenceSubmission → List ℕ
ids_of = map (λ (e : EvidenceSubmission). e.id)

append_assoc : (x y z : List EvidenceItem) → (x ++ y) ++ z ≡ x ++ (y ++ z)
append_assoc [] y z = refl
append_assoc (a ∷ x) y z = ap (λ l. a ∷ l) (append_assoc x y z)

append_nil : (x : List EvidenceItem) → x ++ [] ≡ x
append_nil [] = refl
append_nil (a ∷ x) = ap (λ l. a ∷ l) (append_nil x)

append_item-table :
    (item : EvidenceItem) (f : Groups) (ids : List ℕ)
    → append_item item (table f ids) ≡ table (with_item item f) ids
unfolding append_item update_if
append_item-table item f [] = refl
append_item-table item f (id ∷ rest) = elim (Bool-cases (id == item.submission_id)) [
  | inl same ↦ rw (append_item-table item f rest, same) refl
  | inr other ↦ rw (append_item-table item f rest, other) refl
]

table-cong :
    (f g : Groups) (ids : List ℕ)
    → ((id : ℕ) → is_in ids id ≡ true → f id ≡ g id)
    → table f ids ≡ table g ids
unfolding is_in any
table-cong f g [] h = refl
table-cong f g (id ∷ rest) h =
    rw (h id (ground arith), table-cong f g rest λ j known. h j (ground (arith, known))) refl

with_item-rest :
    (item : EvidenceItem) (f : Groups) (rest : List EvidenceItem) (id : ℕ)
    → with_item item f id ++ items_of id rest ≡ f id ++ items_of id (item ∷ rest)
unfolding select
with_item-rest item f rest id = elim (Bool-cases (id == item.submission_id)) [
  | inl same ↦
      let back : (item.submission_id == id) ≡ true = ground arith in
      rw (same, back) (append_assoc (f id) (item ∷ []) (items_of id rest))
  | inr other ↦
      let back : (item.submission_id == id) ≡ false = ground arith in rw (other, back) refl
]

group-table :
    (items : List EvidenceItem) (f : Groups) (ids : List ℕ)
    → group items (table f ids) ≡ table (λ id. f id ++ items_of id items) ids
unfolding group select
group-table [] f ids = table-cong f _ ids λ id _. sym (append_nil (f id))
group-table (item ∷ rest) f ids =
    ap (group rest) (append_item-table item f ids)
    ∙ group-table rest (with_item item f) ids
    ∙ table-cong _ _ ids λ id _. with_item-rest item f rest id

items_of-chosen :
    (ids : List ℕ) (id : ℕ) (items : List EvidenceItem)
    → is_in ids id ≡ true
    → items_of id (select (λ i. is_in ids i.submission_id) items) ≡ items_of id items
unfolding select
items_of-chosen ids id [] known = refl
items_of-chosen ids id (i ∷ rest) known = elim (Bool-cases (i.submission_id == id)) [
  | inl same ↦
      let chosen : is_in ids i.submission_id ≡ true =
        rw ((==_iff i.submission_id id).0 same) known in
      rw (chosen, same, items_of-chosen ids id rest known) refl
  | inr other ↦ elim (Bool-cases (is_in ids i.submission_id)) [
    | inl chosen ↦ rw (chosen, other) (items_of-chosen ids id rest known)
    | inr dropped ↦ rw (dropped, other) (items_of-chosen ids id rest known)
  ]
]

in_order-select :
    (p : EvidenceItem → Bool) (items : List EvidenceItem)
    → select p (in_order items) ≡ in_order (select p items)
unfolding in_order
in_order-select p items =
    select-order_by (λ i. i.created_at) p (order_by (λ i. i.id) items)
    ∙ ap (order_by (λ i. i.created_at)) (select-order_by (λ i. i.id) p items)

evidence_groups-table :
    (submission_ids : List ℕ) (items : List EvidenceItem)
    → evidence_groups submission_ids items
      ≡ table (λ id. in_order (items_of id items)) submission_ids
unfolding evidence_groups
evidence_groups-table submission_ids items =
    group-table _ (λ _. []) submission_ids
    ∙ table-cong _ _ submission_ids λ id known.
      in_order-select (λ i. i.submission_id == id) _
      ∙ ap in_order (items_of-chosen submission_ids id items known)

evidence_of-table :
    (f : Groups) (ids : List ℕ) (id : ℕ) → is_in ids id ≡ true → evidence_of id (table f ids) ≡ f id
unfolding evidence_of is_in any
evidence_of-table f [] id known = cc
evidence_of-table f (j ∷ rest) id known = elim (Bool-cases (j == id)) [
  | inl same ↦ rw same (ap f ((==_iff j id).0 same))
  | inr other ↦
      let behind : is_in rest id ≡ true = ground arith in
      rw other (evidence_of-table f rest id behind)
]

-- a submission of the response has the items of its group
shown_items :
    (groups : List (ℕ × List EvidenceItem)) (rows : List EvidenceSubmission) (id : ℕ)
    (shown : SubmissionRead)
    → find (λ x. x.id == id) (submission_reads groups rows) ≡ some shown
    → (is_in (ids_of rows) id ≡ true)
      × (shown.items ≡ map evidence_item_read (evidence_of id groups))
unfolding submission_reads submission_read is_in any find
shown_items groups [] id shown h = cc
shown_items groups (e ∷ rest) id shown h = elim (Bool-cases (e.id == id)) [
  | inl same ↦
      let read : submission_read e (evidence_of e.id groups) ≡ shown = ground arith in
      let id_is : e.id ≡ id = (==_iff e.id id).0 same in
      (
        ground arith,
        sym (ap (λ (x : SubmissionRead). x.items) read)
            ∙ ap (λ (j : ℕ). map evidence_item_read (evidence_of j groups)) id_is,
      )
  | inr other ↦
      let (known, items) = shown_items groups rest id shown (ground arith) in (ground arith, items)
]

submission_response-items :
    (submission_id user_id : ℕ) (s s' : Session) (read : SubmissionRead)
    → submission_response submission_id user_id s ≡ ok (read, s')
    → read.items ≡ map evidence_item_read (in_order (items_of submission_id s.items))
unfolding submission_response get_submission pure submission_read gets ◌>>=◌
submission_response-items submission_id user_id s s' read h =
    let (pair, (s1, (h1, h2))) = bind-ok (get_submission submission_id user_id) _ s (read, s') h in
    let (e, (_, h3)) = or_raise-ok _ _ _ _ s (pair, s1) h1 in
    let (a, (_, h4)) = get_assignment-ok e.assignment_id _ s (pair, s1) h3 in
    let (_, (_, h5)) =
      read-ok _ _ s (pair, s1) (Reads-require_assignment_participant a user_id) h4 in
    let same = ok-value _ _ s s1 h5 in
    let shown = ok-value _ _ s1 s' h2 in
    sym (ap (λ (x : SubmissionRead). x.items) shown)
    ∙ ap (λ (p : EvidenceSubmission × List EvidenceItem). map evidence_item_read p.1) (sym same)

get_moderation_case-groups :
    (dispute_id : ℕ) (s s' : Session) (c : ModerationCase)
    → get_moderation_case dispute_id s ≡ ok (c, s')
    → c.evidence_by_submission ≡ evidence_groups (ids_of c.submissions) s.items
unfolding get_moderation_case gets pure ◌>>=◌
get_moderation_case-groups dispute_id s s' c h =
    let (dispute, (_, h1)) = or_raise-ok _ _ _ _ s (c, s') h in
    let (a, (_, h2)) = or_raise-ok _ _ _ _ s (c, s') h1 in
    let (campaign, (_, h3)) = read-ok _ _ s (c, s') (Reads-get_campaign a.campaign_id) h2 in
    let (contract, (_, h4)) = or_raise-ok _ _ _ _ s (c, s') h3 in
    let same = ok-value _ _ s s' h4 in
    subst
      (λ (x : ModerationCase).
        x.evidence_by_submission ≡ evidence_groups (ids_of x.submissions) s.items)
      same refl

dispute_case-ok :
    (dispute_id : ℕ) (s s' : Session) (r : ModerationDisputeCaseRead)
    → dispute_case dispute_id s ≡ ok (r, s')
    → (c : ModerationCase) × ((c.evidence_by_submission
          ≡ evidence_groups (ids_of c.submissions) s.items)
        × (r.submissions ≡ submission_reads c.evidence_by_submission c.submissions))
unfolding dispute_case case_response pure
dispute_case-ok dispute_id s s' r h =
    let (c, (h1, h2)) =
      read-ok (get_moderation_case dispute_id) _ s (r, s') (Reads-get_moderation_case dispute_id)
        h in
    let (_, (s2, (_, h3))) = bind-ok _ _ s (r, s') h2 in
    let (_, (s3, (_, h4))) = bind-ok _ _ s2 (r, s') h3 in
    let same = ok-value _ _ s3 s' h4 in
    (
      c,
      (
        get_moderation_case-groups dispute_id s s c h1,
        sym (ap (λ (x : ModerationDisputeCaseRead). x.submissions) same),
      ),
    )

-- A moderator's case shows under each of its submissions the very items, in the very order, that the
-- route of the submission shows to its tester and to the owner of the campaign: where both answer
-- from one session, the items of the submission in the two responses are equal.
pub dispute_case-evidence :
    (dispute_id submission_id user_id : ℕ) (s s1 s2 : Session) (r : ModerationDisputeCaseRead)
    (read shown : SubmissionRead)
    → dispute_case dispute_id s ≡ ok (r, s1)
    → submission_response submission_id user_id s ≡ ok (read, s2)
    → find (λ x. x.id == submission_id) r.submissions ≡ some shown
    → shown.items ≡ read.items
dispute_case-evidence dispute_id submission_id user_id s s1 s2 r read shown cased answered listed =
    let (c, (groups, submissions)) = dispute_case-ok dispute_id s s1 r cased in
    let (known, items) = shown_items c.evidence_by_submission c.submissions submission_id shown (
      subst (λ (l : List SubmissionRead). find (λ x. x.id == submission_id) l ≡ some shown)
        submissions listed) in
    items
    ∙ ap
        (λ (g : List (ℕ × List EvidenceItem)). map evidence_item_read (evidence_of submission_id g))
        (groups ∙ evidence_groups-table (ids_of c.submissions) s.items)
    ∙ ap (map evidence_item_read) (evidence_of-table _ (ids_of c.submissions) submission_id known)
    ∙ sym (submission_response-items submission_id user_id s s2 read answered)
