-- ===== src/Routes/AccountRoutes.antt =====
-- app/api/routes/profiles.py, credits.py, notifications.py and public.py
use text.Mathlib.Text.{◌==◌ as str_eq}
use test_exchange_backend.Base.{ℕ, String, ◌&&◌, Option, List, map, ◌==◌, leb, any, find}
use test_exchange_backend.Model.Enums.{CampaignStatus, campaign_is}
use test_exchange_backend.Session.{M, gets, or_raise, raise_if, pure, ◌>>=◌, ◌>>◌}
use test_exchange_backend.Common.{get_profile}
use test_exchange_backend.Notifications.{mark_notification_read, mark_all_notifications_read}
use test_exchange_backend.Credits.{ensure_credit_account}
use test_exchange_backend.Profiles.{
  ProfileUpsert, BetaSettings, upsert_profile, beta_status, join_waitlist,
}
use test_exchange_backend.Reading.{
  list_credit_entries, list_notifications, list_public_campaigns, slots_taken,
}
use test_exchange_backend.Schemas.{
  BetaStatusRead, CampaignRead, CapabilitiesRead, CreditBalanceRead, CreditLedgerEntryRead,
  NotificationRead, ProfileRead, WaitlistRead, credit_ledger_entry_read, notification_read,
  profile_read, waitlist_read,
}
use test_exchange_backend.Routes.Responses.{for_each, campaign_response}

unfoldable pub read_profile : ℕ → M ProfileRead
read_profile user_id = do
  found ← gets (λ s. find (λ p. p.id == user_id) s.profiles)
  profile ← or_raise found "Profile not found" 404
  pure (profile_read profile)

unfoldable pub save_profile : ProfileUpsert → ℕ → Option String → BetaSettings → M ProfileRead
save_profile payload user_id email settings = do
  profile ← upsert_profile user_id email payload settings
  pure (profile_read profile)

unfoldable pub capabilities : ℕ → List ℕ → M CapabilitiesRead
capabilities user_id moderator_user_ids =
    pure (record { is_moderator = any (λ id. id == user_id) moderator_user_ids })

unfoldable pub balance : ℕ → M CreditBalanceRead
balance user_id = do
  get_profile user_id
  account ← ensure_credit_account user_id
  pure (record { user_id = user_id; balance = account.balance })

unfoldable pub ledger : ℕ → M (List CreditLedgerEntryRead)
ledger user_id = do
  get_profile user_id
  rows ← list_credit_entries user_id
  pure (map credit_ledger_entry_read rows)

unfoldable pub notifications : ℕ → M (List NotificationRead)
notifications user_id = do rows ← list_notifications user_id; pure (map notification_read rows)

unfoldable pub read_notification : ℕ → ℕ → M NotificationRead
read_notification notification_id user_id = do
  row ← mark_notification_read notification_id user_id
  pure (notification_read row)

unfoldable pub read_all_notifications : ℕ → M (Unit {0})
read_all_notifications user_id = do mark_all_notifications_read user_id; pure tt

unfoldable pub public_beta_status : BetaSettings → M BetaStatusRead
public_beta_status settings = do
  (claimed, remaining, is_full) ←
      gets (beta_status settings.public_beta_enabled settings.public_beta_max_users)
  pure (record {
    enabled = settings.public_beta_enabled;
    max_users = settings.public_beta_max_users;
    claimed_seats = claimed;
    remaining_seats = remaining;
    is_full = is_full;
  })

unfoldable pub waitlist : String → M WaitlistRead
waitlist email = do entry ← join_waitlist email; pure (waitlist_read entry)

unfoldable pub public_campaigns : M (List CampaignRead)
public_campaigns = do rows ← list_public_campaigns; for_each campaign_response rows

unfoldable pub public_campaign : String → M CampaignRead
public_campaign slug = do
  found ← gets (λ s.
      find (λ c. str_eq c.slug slug && campaign_is c.status CampaignStatus.published) s.campaigns)
  campaign ← or_raise found "Campaign not found" 404
  occupied_slots ← gets (slots_taken campaign)
  raise_if (leb campaign.target_testers occupied_slots) "Campaign not found" 404
  campaign_response campaign
