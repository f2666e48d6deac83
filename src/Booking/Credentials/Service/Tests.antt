-- ===== src/Booking/Credentials/Service/Tests.antt =====
-- The operations on the credentials of a venue, at concrete tables.
use squash_bot.Prelude.{◌≡◌, sym, Option, none, some, true, false, [], ◌∷◌, pos, negsuc, arith}
use mathlib.Core.List.{Perm}
use squash_bot.Prelude.Text.{Text, codes}
use squash_bot.Store.{World}
use squash_bot.Store.Hoare.{After, Settled}
use squash_bot.Venues.Tables.{VenueRow}
use squash_bot.Booking.Credentials.{list_for_booking}
use squash_bot.Booking.Credentials.Service.{Tables, of_venue, add, remove, offered}
use squash_bot.Booking.Credentials.Service.Roundtrip.{IsFresh, IsReadable, get_decrypted_by_id-add}
use squash_bot.Booking.Credentials.Service.Removed.{HasRemoved, remove-HasRemoved}
use squash_bot.Booking.Credentials.Service.Offered.{IsOrdered, offered_lem}

abbrev hall : VenueRow
hall = record {
  id = 3;
  group_id = negsuc 99;
  name = codes "Hall";
  time_slots = [];
  address = none;
  created_at = 1;
  grace_period_hours = pos 24;
  game_days = [];
  booking_opens_days = pos 14;
  fraction = codes "1/2";
  last_booking_reminder_at = none;
  preferred_game_times = [];
  last_auto_booking_at = none;
  auto_booking_enabled = true;
  auto_booking_courts = [];
  auto_booking_courts_count = pos 2;
}

-- A venue with two credentials, one of which has a booking to come.
abbrev tables : Tables
tables = record {
  venue_tables = record {
    groups = record { chat_id = negsuc 99; timezone = [] } ∷ [];
    venues = hall ∷ [];
    sports = [];
    bookings =
        record { venue_id = 3; credential_id = some 1; game_date = 30; canceled = false } ∷ [];
    next_venue = 4;
    now = 50;
  };
  credentials =
      record {
        id = 1;
        venue_id = 3;
        login = codes "a";
        priority = 5;
        max_courts = 1;
        last_error_at = none;
        encrypted_password = codes "p";
      }
      ∷ record {
        id = 2;
        venue_id = 3;
        login = codes "b";
        priority = 0;
        max_courts = 2;
        last_error_at = some 40;
        encrypted_password = codes "q";
      }
      ∷ [];
  next_credential = 3;
}

abbrev start : World Tables (Unit {0})
start = record { db = tables; log = []; down = [] }

-- A cipher that leaves the text as it is.
abbrev keep : Text → Option Text
keep t = some t

get_decrypted_by_id-add_example :
    Settled tables
      (λ c t.
        IsFresh t
        × IsReadable keep keep (λ p c e. sym e) 3 (negsuc 99) (codes "c") (codes "r") 1 3 c t)
      (add keep 3 (negsuc 99) (codes "c") (codes "r") 1 3 start)
get_decrypted_by_id-add_example =
    get_decrypted_by_id-add keep keep (λ p c e. sym e) 3 (negsuc 99) (codes "c") (codes "r") 1 3
      start (omega arith, (omega arith, tt))

remove-HasRemoved_example :
    Settled tables
      (λ _ t. HasRemoved (λ _. 20) true 2 3 (negsuc 99) tables t)
      (remove (λ _. 20) true 2 3 (negsuc 99) start)
remove-HasRemoved_example = remove-HasRemoved (λ _. 20) true 2 3 (negsuc 99) start

offered_lem_example :
    After
      (λ ds t.
        IsOrdered ds
        × Perm ds (list_for_booking keep 60 10 (of_venue 3 tables.credentials))
        × (t ≡ tables))
      (offered keep 60 10 3 start)
offered_lem_example = offered_lem keep 60 10 3 start
