-- ===== src/Routes/Listing.antt =====
-- The public page of a campaign, and the public list.
use test_exchange_backend.Base.{
  ℕ, ◌+◌, ◌<◌, String, Bool, true, false, ◌&&◌, Option, some, List, [], ◌∷◌, ◌++◌, ◌≡◌, ◌⊎◌, refl,
  sym, ap, ◌∙◌, arith, inl, inr, Bool-cases, ◌==◌, ltb, leb, find, select, count_if, order_by,
  reverse, if◌then◌else◌, count_if-order_by,
}
use text.Mathlib.Text.{◌==◌ as str_eq}
use test_exchange_backend.Model.Enums.{CampaignStatus, campaign_is}
use test_exchange_backend.Model.Entities.{Campaign}
use test_exchange_backend.Session.{Session, ok, gets, pure}
use test_exchange_backend.Session.Inversion.{gets-ok, or_raise-ok, raise_if-ok, bind-ok, ok-value}
use test_exchange_backend.Reading.{list_public_campaigns, time_or_zero, slots_taken, is_open}
use test_exchange_backend.Schemas.{CampaignRead, campaign_read}
use test_exchange_backend.Routes.Responses.{campaign_response}
use test_exchange_backend.Routes.AccountRoutes.{public_campaign}

module _ {A : Type 0} where
  count_if-append :
      (p : A → Bool) (x y : List A) → count_if p (x ++ y) ≡ count_if p x + count_if p y
  unfolding count_if
  count_if-append p [] y = omega arith
  count_if-append p (a ∷ x) y = rw (count_if-append p x y) (omega arith)

  count_if-reverse : (p : A → Bool) (x : List A) → count_if p (reverse x) ≡ count_if p x
  unfolding count_if reverse
  count_if-reverse p [] = refl
  count_if-reverse p (a ∷ x) =
      count_if-append p (reverse x) (a ∷ []) ∙ rw (count_if-reverse p x) (omega arith)

  found_cases :
      (b : Bool) (x a : A) (o : Option A)
      → (if b then some x else o) ≡ some a
      → ((b ≡ true) × (x ≡ a)) ⊎ ((b ≡ false) × (o ≡ some a))
  found_cases true x a o h = inl (refl, cc)
  found_cases false x a o h = inr (refl, h)

  -- a row that is found passes both tests where it passes the second
  found-selected :
      (p q r : A → Bool) (rows : List A) (a : A)
      → find p rows ≡ some a
      → q a ≡ true
      → r a ≡ true
      → 0 < count_if r (select q rows)
  unfolding find select count_if
  found-selected p q r [] a found chosen counted = cc
  found-selected p q r (x ∷ rest) a found chosen counted =
      elim (found_cases (p x) x a (find p rest) found) [
        | inl (_, same) ↦
            let here : q x ≡ true = rw same chosen in
            let one : r x ≡ true = rw same counted in rw (here, one) (omega arith)
        | inr (_, later) ↦
            let more = found-selected p q r rest a later chosen counted in
            elim (Bool-cases (q x)) [
              | inl here ↦ rw here (omega arith)
              | inr absent ↦ rw absent more
            ]
      ]

  found-passes : (p : A → Bool) (rows : List A) (a : A) → find p rows ≡ some a → p a ≡ true
  unfolding find
  found-passes p [] a found = cc
  found-passes p (x ∷ rest) a found = elim (found_cases (p x) x a (find p rest) found) [
    | inl (here, same) ↦ rw (sym same) here
    | inr (_, later) ↦ found-passes p rest a later
  ]

campaign_response-id :
    (c : Campaign) (s s' : Session) (r : CampaignRead)
    → campaign_response c s ≡ ok (r, s')
    → r.id ≡ c.id
unfolding campaign_response campaign_read pure
campaign_response-id c s s' r h =
    let (owner, (s1, (_, h1))) = bind-ok _ _ s (r, s') (gets-ok _ _ s (r, s') h) in
    ap (λ x. x.id) (sym (ok-value (campaign_read owner c) r s1 s' h1))

room : (target taken : ℕ) → leb target taken ≡ false → ltb taken target ≡ true
room target taken h = ground arith

and-parts : (a b : Bool) → (a && b) ≡ true → (a ≡ true) × (b ≡ true)
and-parts true b h = (refl, h)
and-parts false b h = cc

listed :
    (slug : String) (s : Session) (c : Campaign)
    → find (λ x. str_eq x.slug slug && campaign_is x.status CampaignStatus.published) s.campaigns
      ≡ some c
    → leb c.target_testers (slots_taken c s) ≡ false
    → 0
      < count_if
          (λ x. x.id == c.id)
          (reverse (order_by (λ x. time_or_zero x.published_at) (select (is_open s) s.campaigns)))
unfolding is_open
listed slug s c found free =
    let passes =
      found-passes (λ x. str_eq x.slug slug && campaign_is x.status CampaignStatus.published)
        s.campaigns c found in
    let (_, published) = and-parts (str_eq c.slug slug) _ passes in
    let open_ : is_open s c ≡ true =
      rw (published, room c.target_testers (slots_taken c s) free) refl in
    let self : (c.id == c.id) ≡ true = ground arith in
    rw
      (
        count_if-reverse (λ x. x.id == c.id)
            (order_by (λ x. time_or_zero x.published_at) (select (is_open s) s.campaigns)),
        count_if-order_by (λ x. time_or_zero x.published_at) (λ x. x.id == c.id)
            (select (is_open s) s.campaigns),
      )
      (found-selected (λ x. str_eq x.slug slug && campaign_is x.status CampaignStatus.published)
        (is_open s) (λ x. x.id == c.id) s.campaigns c found open_ self)

-- A campaign whose public page is shown is on the public list of campaigns: the two queries agree
-- on which campaigns are open.
pub public_campaign-listed :
    (slug : String) (s s' : Session) (r : CampaignRead)
    → public_campaign slug s ≡ ok (r, s')
    → (rows : List Campaign) × ((list_public_campaigns s ≡ ok (rows, s))
        × (0 < count_if (λ c. c.id == r.id) rows))
unfolding public_campaign list_public_campaigns gets is_open
public_campaign-listed slug s s' r h =
    let (c, (found, h1)) =
      or_raise-ok
        (find (λ x. str_eq x.slug slug && campaign_is x.status CampaignStatus.published)
          s.campaigns)
        _ _ _ s (r, s') (gets-ok _ _ s (r, s') h) in
    let (free, h2) = raise_if-ok _ _ _ _ s (r, s') (gets-ok _ _ s (r, s') h1) in
    let same = campaign_response-id c s s' r h2 in (_, (refl, rw same (listed slug s c found free)))
