-- ===== src/Examples/Reading.antt =====
-- The theorems on the reading routes.
use test_exchange_backend.Base.{
  ℕ, ◌<◌, ◌⊎◌, ◌==◌, true, false, none, some, List, [], ◌∷◌, ◌≡◌, refl, find, select, count_if,
  order_by, insert_by,
}
use test_exchange_backend.Model.Entities.{Campaign, Assignment, TestingContract}
use test_exchange_backend.Session.{ok, gets, or_raise, raise_if, pure, ◌>>=◌}
use test_exchange_backend.Session.Reads.{Reads}
use test_exchange_backend.Common.{get_assignment, get_campaign, require_assignment_participant}
use test_exchange_backend.Campaigns.{get_contract}
use test_exchange_backend.Workflow.{or_crash}
use test_exchange_backend.Reading.{
  is_own_assignment, takes_part, slots_taken, list_public_campaigns,
}
use test_exchange_backend.Schemas.{contract_read, campaign_read}
use test_exchange_backend.Routes.{campaign_response, contract_response}
use test_exchange_backend.Routes.WorkflowRoutes.{assignment_contract}
use test_exchange_backend.Routes.AccountRoutes.{public_campaign}
use test_exchange_backend.Routes.Unlocking.{assignment_contract-unlocked, tasks_of}
use test_exchange_backend.Routes.Listing.{public_campaign-listed}
use test_exchange_backend.Api.Queries.{Query, answer}
use test_exchange_backend.Api.Unchanged.{answer-Reads}
use test_exchange_backend.Api.Workspaces.{answer-private, workspace_of, reads_from, moderates}
use test_exchange_backend.Api.Access.{Raises}
use test_exchange_backend.Model.Enums.{AssignmentStatus, campaign_is, occupied}
use test_exchange_backend.Examples.Databases.{
  settings, assignment, campaign, profile, used_database, tested_database, contract, task,
  is_blank_char, same_text,
}

answer-Reads_example :
    Reads (
      answer is_blank_char same_text settings (record { id = 2; email = none }) (Query.messages 20))
answer-Reads_example =
    answer-Reads is_blank_char same_text settings (record { id = 2; email = none })
      (Query.messages 20)

at_20 :
    find (λ a. a.id == 20) used_database.assignments
    ≡ some (assignment 20 2 AssignmentStatus.applied)
unfolding find
at_20 = refl

not_own : is_own_assignment 3 used_database (assignment 20 2 AssignmentStatus.applied) ≡ false
unfolding is_own_assignment takes_part find
not_own = refl

messages_of_20 : reads_from used_database (Query.messages 20) ≡ some 20
unfolding reads_from workspace_of
messages_of_20 = refl

no_case : moderates settings (record { id = 3; email = none }) (Query.messages 20) ≡ false
unfolding moderates
no_case = refl

answer-private_example :
    Raises
      (answer is_blank_char same_text settings
        (record { id = 3; email = none })
        (Query.messages 20))
      used_database
answer-private_example =
    answer-private is_blank_char same_text settings (record { id = 3; email = none })
      (Query.messages 20) used_database 20 (assignment 20 2 AssignmentStatus.applied) messages_of_20
      at_20 not_own no_case

contract_read_by_tester :
    assignment_contract 20 2 tested_database
    ≡ ok (contract_read contract (task ∷ []), tested_database)
unfolding assignment_contract get_assignment get_campaign require_assignment_participant
    contract_response get_contract gets or_raise raise_if pure find select order_by insert_by ◌>>=◌
contract_read_by_tester = refl

assignment_contract-unlocked_example :
    (a : Assignment) × ((find (λ x. x.id == 20) tested_database.assignments ≡ some a)
      × ((is_own_assignment 2 tested_database a ≡ true)
          × ((((2 == a.tester_id) ≡ false) ⊎ ((t : ℕ) × (a.accepted_at ≡ some t)))
              × ((c : TestingContract) × ((find
                        (λ x. x.campaign_id == a.campaign_id)
                        tested_database.contracts
                      ≡ some c)
                    × (contract_read contract (task ∷ [])
                        ≡ contract_read c (tasks_of c tested_database)))))))
assignment_contract-unlocked_example =
    assignment_contract-unlocked 20 2 tested_database tested_database
      (contract_read contract (task ∷ [])) contract_read_by_tester

page : public_campaign "maps" used_database ≡ ok (campaign_read (profile 1) campaign, used_database)
unfolding public_campaign campaign_response slots_taken gets or_raise raise_if pure or_crash find
    campaign_is occupied count_if ◌>>=◌
page = refl

public_campaign-listed_example :
    (rows : List Campaign) × ((list_public_campaigns used_database ≡ ok (rows, used_database))
      × (0 < count_if (λ c. c.id == (campaign_read (profile 1) campaign).id) rows))
public_campaign-listed_example =
    public_campaign-listed "maps" used_database used_database (campaign_read (profile 1) campaign)
      page
