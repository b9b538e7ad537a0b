-- ===== src/Progress/Reach.antt =====
-- The workflow over any run of requests.
use mathlib.Core.Path.{subst}
use test_exchange_backend.Base.{ℕ, List, [], ◌∷◌, some, ◌≡◌, ◌⊎◌, inl, inr, refl}
use test_exchange_backend.Model.Enums.{AssignmentStatus}
use test_exchange_backend.Model.Entities.{Assignment}
use test_exchange_backend.Session.{Session}
use test_exchange_backend.Workflow.Steps.{Step, Moves, Evolves, assignment_at}
use test_exchange_backend.Api.Requests.{Settings, Call, handle, serve}
use test_exchange_backend.Progress.Closing.{HasUniqueIds}
use test_exchange_backend.Progress.Ids.{handle-HasUniqueIds}
use test_exchange_backend.Progress.Requests.{handle-Moves}

-- some arrows of the workflow, one after the other
pub data Reaches : AssignmentStatus → AssignmentStatus → Type 0 where
  stays : {from : AssignmentStatus} → Reaches from from
  and_then : {from via to : AssignmentStatus} → Step from via → Reaches via to → Reaches from to

-- the same application, further on in the workflow
pub record Continues (a b : Assignment) : Type 0 where
  pub same_campaign : b.campaign_id ≡ a.campaign_id
  pub same_tester : b.tester_id ≡ a.tester_id
  pub status : Reaches a.status b.status

abbrev pub Follows : List Assignment → List Assignment → Type 0
Follows old new =
    (id : ℕ) (a : Assignment)
    → assignment_at id old ≡ some a
    → (b : Assignment) × (assignment_at id new ≡ some b) × Continues a b

further :
    (from via to : AssignmentStatus)
    → (via ≡ from) ⊎ Step from via
    → Reaches via to
    → Reaches from to
further from via to (inl e) rest = subst (λ (x : AssignmentStatus). Reaches x to) e rest
further from via to (inr step) rest = and_then step rest

continue_on : (a b c : Assignment) → Evolves a b → Continues b c → Continues a c
continue_on a b c e f = record {
  same_campaign = cc (e.same_campaign, f.same_campaign);
  same_tester = cc (e.same_tester, f.same_tester);
  status = further a.status b.status c.status e.status f.status;
}

Follows-Moves : (old mid new : List Assignment) → Moves old mid → Follows mid new → Follows old new
Follows-Moves old mid new moves follows id a at_id =
    let (b, at_b, evolves) = moves id a at_id in
    let (c, at_c, continues) = follows id b at_b in (c, at_c, continue_on a b c evolves continues)

Follows-refl : (rows : List Assignment) → Follows rows rows
Follows-refl rows id a h =
    (a, h, record { same_campaign = refl; same_tester = refl; status = stays })

-- Over any run of requests, failed ones included, from assignments with different ids: no
-- assignment goes away, none changes its campaign or its tester, and the status of each is one that
-- the arrows of the workflow reach from the status that it had.
pub serve-Follows :
    (settings : Settings) (s : Session) (calls : List Call)
    → HasUniqueIds s.assignments
    → Follows s.assignments (serve settings s calls).assignments
unfolding serve
serve-Follows settings s [] unique = Follows-refl s.assignments
serve-Follows settings s (c ∷ rest) unique =
    Follows-Moves _ _ _ (handle-Moves settings s c unique)
      (serve-Follows settings (handle settings s c) rest (handle-HasUniqueIds settings s c unique))

from_approved :
    (to : AssignmentStatus) → Reaches AssignmentStatus.approved to → to ≡ AssignmentStatus.approved
from_approved _ stays = refl
from_approved to (and_then step _) = elim step [ ]

from_cancelled :
    (to : AssignmentStatus)
    → Reaches AssignmentStatus.cancelled to
    → to ≡ AssignmentStatus.cancelled
from_cancelled _ stays = refl
from_cancelled to (and_then step _) = elim step [ ]

stays_final :
    (from to : AssignmentStatus)
    → (from ≡ AssignmentStatus.approved) ⊎ (from ≡ AssignmentStatus.cancelled)
    → Reaches from to
    → to ≡ from
stays_final from to (inl e) path =
    cc (e, from_approved to (subst (λ (x : AssignmentStatus). Reaches x to) e path))
stays_final from to (inr e) path =
    cc (e, from_cancelled to (subst (λ (x : AssignmentStatus). Reaches x to) e path))

-- Approval and cancellation are final: over any run of requests, failed ones included, from
-- assignments with different ids, an assignment that is approved stays approved, and one that is
-- cancelled stays cancelled.
pub serve-keeps_final :
    (settings : Settings) (s : Session) (calls : List Call) (id : ℕ) (a : Assignment)
    → HasUniqueIds s.assignments
    → assignment_at id s.assignments ≡ some a
    → (a.status ≡ AssignmentStatus.approved) ⊎ (a.status ≡ AssignmentStatus.cancelled)
    → (b : Assignment) × (assignment_at id (serve settings s calls).assignments ≡ some b)
      × (b.status ≡ a.status)
serve-keeps_final settings s calls id a unique at_id final =
    let (b, at_b, continues) = serve-Follows settings s calls unique id a at_id in
    (b, at_b, stays_final a.status b.status final continues.status)
