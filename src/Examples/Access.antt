-- ===== src/Examples/Access.antt =====
-- The theorems on users without access, on the waitlist, and on the seats of the beta.
use test_exchange_backend.Base.{
  select, false, ◌+◌, ◌==◌, any, true, false, some, ◌≡◌, refl, find, none, length, arith,
}
use test_exchange_backend.Session.{
  Session, ok, gets, uuid4, insert_waitlist_entry, insert, pure, ◌>>=◌,
}
use test_exchange_backend.Api.Requests.{Request, CurrentUser, Supply, handle}
use test_exchange_backend.Api.Access.{
  handle-suspended, handle-no_moderator, asks_for_user, asks_for_moderator,
}
use test_exchange_backend.Workflow.StorageKey.{
  codes_eq, starts_with, contains, path_parts, in_folder, uuid_text, hex, split_slash, is_component,
  bad_storage_key, codes,
}
use test_exchange_backend.Profiles.{
  ProfileUpsert, BetaSettings, join_waitlist, existing_or_add, add_entry, retry, upsert_profile,
  seats_claimed,
}
use test_exchange_backend.Profiles.Seats.{HasSeats, IsCapped, upsert_profile-IsCapped}
use test_exchange_backend.Session.Keeps.{After}
use test_exchange_backend.Waitlist.{join_waitlist-again, entry_for}
use test_exchange_backend.Examples.Databases.{
  settings, call, new_database, profile, used_database, suspended_database, entry, joined_database,
}

suspended_profile :
    find (λ q. q.id == 2) suspended_database.profiles
    ≡ some (record (profile 2) { is_suspended = true })
unfolding find
suspended_profile = refl

asks_for_user-start : asks_for_user (Request.start 20) ≡ true
unfolding asks_for_user
asks_for_user-start = refl

handle-suspended_example :
    handle settings suspended_database (call 2 600 (Request.start 20)) ≡ suspended_database
handle-suspended_example =
    handle-suspended settings suspended_database (call 2 600 (Request.start 20))
      (record (profile 2) { is_suspended = true }) asks_for_user-start suspended_profile refl

asks_for_moderator-suspend : asks_for_moderator (Request.suspend 2 "spam") ≡ true
unfolding asks_for_moderator
asks_for_moderator-suspend = refl

not_on_the_list : any (λ id. id == 1) settings.moderator_user_ids ≡ false
unfolding any
not_on_the_list = refl

handle-no_moderator_example :
    handle settings used_database (call 1 600 (Request.suspend 2 "spam")) ≡ used_database
handle-no_moderator_example =
    handle-no_moderator settings used_database (call 1 600 (Request.suspend 2 "spam"))
      asks_for_moderator-suspend not_on_the_list

joined : join_waitlist "eve@example.org" new_database ≡ ok (entry, joined_database)
unfolding join_waitlist existing_or_add add_entry retry gets uuid4 insert_waitlist_entry insert any
    find pure ◌>>=◌
joined = refl

join_waitlist-again_example :
    (entry_for "eve@example.org" joined_database.waitlist ≡ some entry)
    × (join_waitlist "eve@example.org" joined_database ≡ ok (entry, joined_database))
join_waitlist-again_example =
    join_waitlist-again "eve@example.org" new_database joined_database entry joined

-- A key that does not begin with the name of its folder passes.
dot_first : bad_storage_key 1 (codes "./00000000-0000-0000-0000-000000000001/a") ≡ false
unfolding bad_storage_key codes_eq starts_with contains path_parts in_folder uuid_text any select
    hex split_slash is_component
dot_first = refl

abbrev seated_database : Session
seated_database = record used_database { beta_state = some (record { claimed_seats = 5 }) }

abbrev saved_profile : ProfileUpsert
saved_profile = record { username = "ada"; display_name = "Ada"; bio = none; avatar_url = none }

abbrev beta_of_six : BetaSettings
beta_of_six = record {
  signup_credit_grant = 3;
  public_beta_enabled = true;
  public_beta_max_users = 6;
}

seats_counted : HasSeats seated_database
unfolding seats_claimed
seats_counted = omega arith

upsert_profile-IsCapped_example :
    After
      (IsCapped (length seated_database.profiles) 6)
      (upsert_profile 77 none saved_profile beta_of_six seated_database)
upsert_profile-IsCapped_example =
    upsert_profile-IsCapped 77 none saved_profile beta_of_six seated_database seats_counted

abbrev visitor : CurrentUser
visitor = record { id = 0; email = none }

abbrev one_id : Supply
one_id = record { uuids = λ n. 7 + n; clock = λ n. n }
