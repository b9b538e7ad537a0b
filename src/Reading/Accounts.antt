-- ===== src/Reading/Accounts.antt =====
-- The lists of campaigns, credits, notifications and people: the queries of
-- app/services/campaigns.py, credits.py, notifications.py, profiles.py and common.py.
use text.Mathlib.Text.{◌==◌ as str_eq}
use test_exchange_backend.Base.{
  ℕ, Bool, ◌&&◌, Option, none, some, List, ◌==◌, ltb, count_if, select, order_by, reverse, take,
}
use test_exchange_backend.Model.Enums.{CampaignStatus, campaign_is, occupied}
use test_exchange_backend.Model.Entities.{
  Profile, WaitlistEntry, Campaign, Notification, CreditLedgerEntry, AuditEvent,
}
use test_exchange_backend.Session.{Session, M, gets}

abbrev pub time_or_zero : Option ℕ → ℕ
time_or_zero none = 0
time_or_zero (some t) = t

-- `occupied_slots`, of one campaign
unfoldable pub slots_taken : Campaign → Session → ℕ
slots_taken campaign s =
    count_if (λ a. a.campaign_id == campaign.id && occupied a.status) s.assignments

-- published, with a free slot
unfoldable pub is_open : Session → Campaign → Bool
unfolding slots_taken
is_open s campaign =
    campaign_is campaign.status CampaignStatus.published
    && ltb (slots_taken campaign s) campaign.target_testers

-- A published campaign has the time of its publication.
unfoldable pub list_public_campaigns : M (List Campaign)
unfolding is_open
list_public_campaigns =
    gets
      (λ s. reverse (order_by (λ c. time_or_zero c.published_at) (select (is_open s) s.campaigns)))

unfoldable pub list_owned_campaigns : ℕ → M (List Campaign)
list_owned_campaigns owner_id = gets (λ s. select (λ c. c.owner_id == owner_id) s.campaigns)

unfoldable pub list_credit_entries : ℕ → M (List CreditLedgerEntry)
list_credit_entries user_id = gets (λ s. select (λ e. e.user_id == user_id) s.ledger)

unfoldable pub list_notifications : ℕ → M (List Notification)
list_notifications user_id =
    gets (λ s. take 100 (select (λ n. n.user_id == user_id) s.notifications))

unfoldable pub list_waitlist : M (List WaitlistEntry)
list_waitlist = gets (λ s. reverse s.waitlist)

unfoldable pub list_participants : M (List Profile)
list_participants = gets (λ s. take 500 s.profiles)

-- `AuditEvent.entity_type == "assignment", AuditEvent.entity_id == assignment_id`
unfoldable pub list_assignment_audit : ℕ → M (List AuditEvent)
list_assignment_audit assignment_id = gets (λ s.
    reverse
      (select (λ e. str_eq e.entity_type "assignment" && e.entity_id == assignment_id) s.audit))
