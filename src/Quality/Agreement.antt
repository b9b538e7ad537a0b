-- ===== src/Quality/Agreement.antt =====
-- The quality check against the checks that a submission passes when it is made.
use test_exchange_backend.Base.{
  ℕ, ◌+◌, String, Bool, true, false, Option, none, some, List, [], ◌∷◌, ◌≡◌, refl, ◌∙◌, arith, not,
  ◌&&◌, ◌||◌, if◌then◌else◌, any, all, is_some, is_none, ◌==◌, find, select, order_by, all-order_by,
}
use test_exchange_backend.Model.Entities.{Assignment, TestingContract, ContractTask, EvidenceItem}
use test_exchange_backend.Session.{Session, M, ok, gets, now, pure, or_raise, ◌>>=◌}
use test_exchange_backend.Session.Inversion.{or_raise-ok, continue-ok, raise_if-ok}
use test_exchange_backend.Workflow.{
  EvidenceItemCreate, tasks_covered, is_submitted, check_key, check_items, contract_for_assignment,
  check_submission, started_time, SubmissionCreate,
}
use test_exchange_backend.Quality.{
  is_covered, is_missing, coverage_complete, has_content, is_passed, check, coverage_check,
  content_check,
}

-- the rows hold what the items of the body do, in the same order
pub data Stores : List EvidenceItemCreate → List EvidenceItem → Type 0 where
  stores_nothing : Stores [] []
  stores_item :
      {i : EvidenceItemCreate} {row : EvidenceItem} {body : List EvidenceItemCreate}
      {rows : List EvidenceItem}
      → row.task_id ≡ i.task_id
      → row.storage_key ≡ i.storage_key
      → row.external_url ≡ i.external_url
      → row.note ≡ i.note
      → Stores body rows
      → Stores (i ∷ body) (row ∷ rows)

is_covered-stored :
    (body : List EvidenceItemCreate) (rows : List EvidenceItem) (id : ℕ)
    → Stores body rows
    → is_covered rows id ≡ is_submitted id body
unfolding is_covered is_submitted any
is_covered-stored _ _ id stores_nothing = refl
is_covered-stored (i ∷ body) (row ∷ rows) id (stores_item task key url text rest) =
    rw (task, is_covered-stored body rows id rest) refl

coverage-stored :
    (tasks : List ContractTask) (body : List EvidenceItemCreate) (rows : List EvidenceItem)
    → Stores body rows
    → coverage_complete tasks rows ≡ tasks_covered tasks body
unfolding coverage_complete tasks_covered is_missing all
coverage-stored [] body rows h = refl
coverage-stored (t ∷ rest) body rows h =
    ground (arith, is_covered-stored body rows t.id h, coverage-stored rest body rows h)

with_tasks :
    {B : Type 0} (o : Option TestingContract) (detail : String) (code : ℕ)
    (f : TestingContract × List ContractTask → M B) (s : Session) (r : B × Session)
    → ((or_raise o detail code >>= λ contract.
            gets (λ s'. select (λ t. t.contract_id == contract.id) s'.tasks) >>= λ tasks.
            pure (contract, tasks))
          >>= f)
        s
      ≡ ok r
    → (contract : TestingContract) × ((o ≡ some contract)
        × (f (contract, select (λ t. t.contract_id == contract.id) s.tasks) s ≡ ok r))
unfolding gets pure or_raise ◌>>=◌
with_tasks none detail code f s r h = cc
with_tasks (some contract) detail code f s r h = (contract, (refl, h))

contract_for_assignment-ok :
    {B : Type 0} (a : Assignment) (f : TestingContract × List ContractTask → M B) (s : Session)
    (r : B × Session)
    → (contract_for_assignment a >>= f) s ≡ ok r
    → (contract : TestingContract) × ((find (λ c. c.campaign_id == a.campaign_id) s.contracts
          ≡ some contract)
        × (f (contract, select (λ t. t.contract_id == contract.id) s.tasks) s ≡ ok r))
unfolding contract_for_assignment gets ◌>>=◌
contract_for_assignment-ok a f s r h =
    with_tasks (find (λ c. c.campaign_id == a.campaign_id) s.contracts) _ _ f s r h

some_content :
    (key url text : Option String) (rest : Bool)
    → (is_none key && is_none url && is_none text) ≡ false
    → rest ≡ true
    → (if is_some key || is_some url || is_some text then rest else false) ≡ true
some_content none none none rest h later = cc
some_content none none (some t) rest h later = later
some_content none (some u) text rest h later = later
some_content (some k) url text rest h later = later

has_content-stored :
    (assignment_id : ℕ) (body : List EvidenceItemCreate) (rows : List EvidenceItem) (s : Session)
    (r : Unit {0} × Session)
    → Stores body rows
    → check_items assignment_id body s ≡ ok r
    → all has_content rows ≡ true
unfolding check_items ◌>>=◌ all has_content
has_content-stored assignment_id _ _ s r stores_nothing h = refl
has_content-stored assignment_id (i ∷ body) (row ∷ rows) s r (stores_item task key url text rest)
      h =
    let (content, h') = raise_if-ok _ _ _ _ s r h in
    let (_, (s', (_, h''))) = continue-ok _ (check_key assignment_id i.storage_key s) r h' in
    let later = has_content-stored assignment_id body rows s' r rest h'' in
    rw (key, url, text) (some_content _ _ _ _ content later)

not-false : (b : Bool) → not b ≡ false → b ≡ true
not-false true h = refl
not-false false h = cc

coverage-ordered :
    (tasks : List ContractTask) (body : List EvidenceItemCreate) (rows : List EvidenceItem)
    → Stores body rows
    → tasks_covered tasks body ≡ true
    → coverage_complete (order_by (λ t. t.position) tasks) rows ≡ true
unfolding coverage_complete
coverage-ordered tasks body rows h covered =
    all-order_by (λ t. t.position) (λ t. not (is_missing rows t)) tasks
    ∙ coverage-stored tasks body rows h
    ∙ covered

-- Where the checks of a new submission pass, the assignment's campaign has a contract, and the
-- quality check of rows that hold the submission's items passes both of its structural tests: every
-- required task of that contract has linked evidence, and every item has content.
pub check_submission-passes_quality :
    (assignment : Assignment) (tester_id : ℕ) (payload : SubmissionCreate)
    (rows : List EvidenceItem) (s : Session) (r : Unit {0} × Session)
    → Stores payload.items rows
    → check_submission assignment tester_id payload s ≡ ok r
    → (contract : TestingContract) × ((find
            (λ c. c.campaign_id == assignment.campaign_id)
            s.contracts
          ≡ some contract)
        × ((is_passed
                (coverage_check
                  (order_by (λ t. t.position) (select (λ t. t.contract_id == contract.id) s.tasks))
                  rows).status
              ≡ true)
            × (is_passed (content_check rows).status ≡ true)))
unfolding check_submission started_time now gets is_passed ◌>>=◌ coverage_check content_check check
check_submission-passes_quality assignment tester_id payload rows s r stored h =
    let (_, h1) = raise_if-ok _ _ _ _ s r h in
    let (_, h2) = raise_if-ok _ _ _ _ s r h1 in
    let (contract, (found, h3)) = contract_for_assignment-ok assignment _ s r h2 in
    let (_, (_, h4)) =
      or_raise-ok assignment.started_at _ _ _ (record s { ticks = s.ticks + 1 }) r h3 in
    let (_, h5) = raise_if-ok _ _ _ _ _ r h4 in
    let (_, h6) = raise_if-ok _ _ _ _ _ r h5 in
    let (_, h7) = raise_if-ok _ _ _ _ _ r h6 in
    let (covered, h8) = raise_if-ok _ _ _ _ _ r h7 in
    let complete = coverage-ordered _ payload.items rows stored (not-false _ covered) in
    let content = has_content-stored assignment.id payload.items rows _ r stored h8 in
    (contract, (found, (rw complete refl, rw content refl)))
