-- ===== src/Venues/Tests.antt =====
-- Examples for the theorems on venues.
use squash_bot.Prelude.{◌≡◌, inr, refl, none, true, false, [], ◌∷◌, pos, negsuc, arith, some}
use squash_bot.Prelude.Text.{codes, text_ops}
use squash_bot.Prelude.Text.Sets.{member}
use squash_bot.Courts.Labels.{trimmed, split_courts, split_preferred_times}
use squash_bot.Store.{World}
use squash_bot.Venues.Service.Updated.{update_venue_lem, IsUpdated, IsAllowed, requested}
use squash_bot.Venues.Tables.{venue_by_id}
use squash_bot.Venues.Service.{update_venue}
use squash_bot.Store.Hoare.{After, Settled}
use squash_bot.Store.Calm.{Succeeds}
use squash_bot.Sports
use squash_bot.Sports.{squash}
use squash_bot.Venues.{
  Venue, validate_venue, settled, fill_sports, is_fraction, slot_set, is_integer,
}
use squash_bot.Venues.Accepted.{IsAcceptable, validate_venue_iff}
use squash_bot.Venues.Tables.{Tables, VenueRow}
use squash_bot.Venues.Service.{has_active_by_venue_id, delete_venue, create_venue}
use squash_bot.Venues.Service.Deleted.{IsDeleted, delete_venue_lem}
use squash_bot.Venues.Service.Stored.{IsStored}
use squash_bot.Venues.Service.Created.{create_venue-IsStored}

-- A request of the old form, with automatic booking.
abbrev hall : Venue
hall = record {
  id = 0;
  group_id = negsuc 99;
  name = codes "Hall";
  courts = codes "1, 2";
  sports = [];
  time_slots = codes "18:00, 19:00";
  address = [];
  created_at = 0;
  grace_period_hours = pos 24;
  game_days = codes "0,3";
  booking_opens_days = pos 14;
  fraction = codes "1/2";
  last_booking_reminder_at = none;
  preferred_game_times = codes "19:00";
  last_auto_booking_at = none;
  auto_booking_enabled = true;
  auto_booking_courts = codes "7, 8";
  auto_booking_courts_count = pos 2;
}

hall-IsAcceptable : IsAcceptable (fill_sports hall)
unfolding fill_sports slot_set is_integer split_courts split_preferred_times trimmed member
    Sports.valid Sports.get text_ops
hall-IsAcceptable = (
  refl,
  (((refl, refl, tt), tt), (refl, tt)),
  λ _. refl,
  (refl, tt),
  ((refl, (refl, tt)), (refl, (refl, tt))),
)

validate_venue_iff_example : validate_venue hall ≡ inr (settled hall)
validate_venue_iff_example = (validate_venue_iff hall).1 hall-IsAcceptable

abbrev stored_hall : VenueRow
stored_hall = record {
  id = 3;
  group_id = negsuc 99;
  name = codes "Old hall";
  time_slots = [];
  address = none;
  created_at = 1;
  grace_period_hours = pos 24;
  game_days = [];
  booking_opens_days = pos 14;
  fraction = codes "1/2";
  last_booking_reminder_at = none;
  preferred_game_times = [];
  last_auto_booking_at = none;
  auto_booking_enabled = false;
  auto_booking_courts = [];
  auto_booking_courts_count = pos 0;
}

-- A group with a venue, whose only booking is past.
abbrev tables : Tables
tables = record {
  groups = record { chat_id = negsuc 99; timezone = [] } ∷ [];
  venues = stored_hall ∷ [];
  sports =
      record {
        venue_id = 3;
        offer = record { sport = squash; courts = codes "1"; players_per_court = none };
      }
      ∷ [];
  bookings = record { venue_id = 3; credential_id = none; game_date = 10; canceled = false } ∷ [];
  next_venue = 4;
  now = 50;
}

abbrev start : World Tables (Unit {0})
start = record { db = tables; log = []; down = [] }

delete_venue_lem_example :
    Settled tables
      (λ _ new.
        (has_active_by_venue_id (λ _. 20) 3 tables ≡ false) × IsDeleted 3 (negsuc 99) tables new)
      (delete_venue (λ _. 20) 3 (negsuc 99) start)
delete_venue_lem_example = delete_venue_lem (λ _. 20) 3 (negsuc 99) start

create_venue-IsStored_example : Succeeds (IsStored (settled hall) tables) (create_venue hall start)
create_venue-IsStored_example =
    create_venue-IsStored hall start refl (unfold is_fraction text_ops in refl) hall-IsAcceptable
      (refl, unfold text_ops in refl) ((omega arith, tt), (omega arith, tt))

update_venue_lem_example :
    After
      (λ r new.
        IsAllowed (some (codes "2/3"))
        × ((u : Venue) × (validate_venue
                (record hall { id = 3; fraction = requested (some (codes "2/3")) })
              ≡ inr u)
            × IsUpdated u tables new
            × (venue_by_id u.id new ≡ some r)))
      (update_venue (record hall { id = 3 }) (some (codes "2/3")) start)
update_venue_lem_example = update_venue_lem (record hall { id = 3 }) (some (codes "2/3")) start
