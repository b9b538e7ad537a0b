-- ===== src/Routes/Unlocking.antt =====
-- Who may read the private contract, and which one.
use test_exchange_backend.Base.{
  ℕ, true, false, ◌&&◌, Option, none, some, List, ◌≡◌, refl, sym, ap, ◌∙◌, arith, ◌⊎◌, inl, inr,
  ◌==◌, is_none, find, select, order_by,
}
use test_exchange_backend.Model.Entities.{Assignment, Campaign, TestingContract, ContractTask}
use test_exchange_backend.Session.{Session, M, ok, gets, pure, ◌>>=◌}
use test_exchange_backend.Session.Inversion.{or_raise-ok, raise_if-ok, bind-ok, ok-value}
use test_exchange_backend.Session.Reads.{read-ok}
use test_exchange_backend.Common.{get_assignment, get_campaign, require_assignment_participant}
use test_exchange_backend.Campaigns.{get_contract}
use test_exchange_backend.Reading.{is_own_assignment, takes_part}
use test_exchange_backend.Schemas.{ContractRead, contract_read}
use test_exchange_backend.Routes.Responses.{contract_response}
use test_exchange_backend.Stability.Reading.{Reads-require_assignment_participant}
use test_exchange_backend.Routes.WorkflowRoutes.{assignment_contract}

pub get_assignment-ok :
    {B : Type 0} (id : ℕ) (f : Assignment → M B) (s : Session) (r : B × Session)
    → (get_assignment id >>= f) s ≡ ok r
    → (a : Assignment) × ((find (λ x. x.id == id) s.assignments ≡ some a) × (f a s ≡ ok r))
unfolding get_assignment gets ◌>>=◌
get_assignment-ok id f s r h = or_raise-ok (find (λ x. x.id == id) s.assignments) _ _ f s r h

-- the tasks of a contract, in the order of their positions
unfoldable pub tasks_of : TestingContract → Session → List ContractTask
tasks_of c s = order_by (λ t. t.position) (select (λ t. t.contract_id == c.id) s.tasks)

unlocked :
    (user_id tester_id : ℕ) (accepted_at : Option ℕ)
    → (user_id == tester_id && is_none accepted_at) ≡ false
    → ((user_id == tester_id) ≡ false) ⊎ ((t : ℕ) × (accepted_at ≡ some t))
unlocked user_id tester_id none h = inl (ground arith)
unlocked user_id tester_id (some t) h = inr (t, refl)

require_assignment_participant-ok :
    (a : Assignment) (user_id : ℕ) (s : Session) (r : Campaign × Session)
    → require_assignment_participant a user_id s ≡ ok r
    → is_own_assignment user_id s a ≡ true
unfolding require_assignment_participant get_campaign gets is_own_assignment takes_part ◌>>=◌
require_assignment_participant-ok a user_id s r h =
    let (c, (found, h1)) =
      or_raise-ok (find (λ x. x.id == a.campaign_id) s.campaigns) _ _ _ s r h in
    let (part, _) = raise_if-ok _ _ _ _ s r h1 in rw found (ground (arith, part))

contract_response-ok :
    (campaign_id : ℕ) (s s' : Session) (shown : ContractRead)
    → contract_response campaign_id s ≡ ok (shown, s')
    → (c : TestingContract) × ((find (λ x. x.campaign_id == campaign_id) s.contracts ≡ some c)
        × (shown ≡ contract_read c (tasks_of c s)))
unfolding contract_response get_contract gets pure tasks_of ◌>>=◌
contract_response-ok campaign_id s s' shown h =
    let (pair, (s1, (h1, h2))) = bind-ok (get_contract campaign_id) _ s (shown, s') h in
    let (c, (found, h3)) = or_raise-ok _ _ _ _ s (pair, s1) h1 in
    let same = ok-value _ _ s s1 h3 in
    let read = ok-value _ _ s1 s' h2 in
    (
      c,
      (
        found,
        sym read
            ∙ ap (λ (p : TestingContract × List ContractTask). contract_read p.0 p.1) (sym same),
      ),
    )

-- Whoever gets a private contract by an assignment is its tester or the owner of its campaign, the
-- tester only once the assignment has the time of its acceptance; and what is shown is the contract
-- of the assignment's campaign with all its tasks, in the order of their positions.
pub assignment_contract-unlocked :
    (assignment_id user_id : ℕ) (s s' : Session) (shown : ContractRead)
    → assignment_contract assignment_id user_id s ≡ ok (shown, s')
    → (a : Assignment) × ((find (λ x. x.id == assignment_id) s.assignments ≡ some a)
        × ((is_own_assignment user_id s a ≡ true)
            × ((((user_id == a.tester_id) ≡ false) ⊎ ((t : ℕ) × (a.accepted_at ≡ some t)))
                × ((c : TestingContract) × ((find (λ x. x.campaign_id == a.campaign_id) s.contracts
                        ≡ some c)
                      × (shown ≡ contract_read c (tasks_of c s)))))))
unfolding assignment_contract
assignment_contract-unlocked assignment_id user_id s s' shown h =
    let (a, (found, h1)) = get_assignment-ok assignment_id _ s (shown, s') h in
    let (_, (part, h2)) =
      read-ok _ _ s (shown, s') (Reads-require_assignment_participant a user_id) h1 in
    let (open_, h3) = raise_if-ok _ _ _ _ s (shown, s') h2 in
    (
      a,
      (
        found,
        (
          require_assignment_participant-ok a user_id s _ part,
          (
            unlocked user_id a.tester_id a.accepted_at open_,
            contract_response-ok a.campaign_id s s' shown h3,
          ),
        ),
      ),
    )
