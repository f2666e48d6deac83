-- ===== src/AutoBooking/Tests.antt =====
-- The automatic booking job, at concrete groups and venues.
use squash_bot.Prelude.{◌≡◌, none, some, true, false, List, [], ◌∷◌, if◌then◌else◌, pos, negsuc}
use squash_bot.Prelude.Text.{codes}
use squash_bot.Store.{World}
use squash_bot.Store.Hoare.{After}
use squash_bot.Sports.{squash}
use squash_bot.Venues.{Venue}
use squash_bot.AutoBooking.Notify.{
  Admin, Notice, notify, is_person, received, received-notify, success,
}
use squash_bot.AutoBooking.State.{State}
use squash_bot.AutoBooking.Slot.{Answers}
use squash_bot.AutoBooking.State.History.{IsTidy}
use squash_bot.AutoBooking.Job.{Group, Clock, run_auto_booking}
use squash_bot.AutoBooking.Job.Once.{run_auto_booking-IsTidy}

abbrev admins : List Admin
admins =
    record { user_id = 5; is_bot = false }
    ∷ record { user_id = 6; is_bot = true }
    ∷ record { user_id = 5; is_bot = false }
    ∷ []

abbrev booked : Notice
booked = success 2 (codes "Hall") (codes "2026-05-01") (codes "18:00")

received-notify_example :
    received 5 (notify booked (some admins)) ≡ (if is_person 5 admins then 1 else 0)
received-notify_example = received-notify 5 booked admins

abbrev hall : Venue
hall = record {
  id = 3;
  group_id = negsuc 99;
  name = codes "Hall";
  courts = codes "1,2";
  sports = record { sport = squash; courts = codes "1,2"; players_per_court = none } ∷ [];
  time_slots = codes "18:00";
  address = [];
  created_at = 1;
  grace_period_hours = pos 24;
  game_days = codes "5";
  booking_opens_days = pos 14;
  fraction = codes "1/2";
  last_booking_reminder_at = none;
  preferred_game_times = codes "18:00,18:00";
  last_auto_booking_at = none;
  auto_booking_enabled = true;
  auto_booking_courts = [];
  auto_booking_courts_count = pos 1;
}

-- Every call of the booking service succeeds.
abbrev answers : Answers
answers = record {
  parse_in_location = λ _. true;
  credentials = some (
      record {
        id = 10;
        venue_id = 3;
        login = codes "x";
        password = [];
        priority = 0;
        max_courts = 2;
      }
      ∷ []);
  courts = some (record { id = codes "101"; uuid = codes "a"; name = codes "Court 1" } ∷ []);
  slots = some [];
  matches =
      record {
        result = some (record { match_id = codes "m"; booking_uuid = codes "u" });
        save_ok = true;
      }
      ∷ [];
  admins = λ _. some admins;
  cooldown = 60;
  has_games = true;
}

abbrev clock : Clock
clock = record {
  hour = 0;
  minute = 2;
  weekday_after = λ _. 5;
  date_after =
      λ _. record { day = 40; text = codes "2026-05-01"; instant = 100; at_time = λ h m. 200 };
}

abbrev state : State
state = record {
  game_tables = record {
    venue_tables = record {
      groups = [];
      venues = [];
      sports = [];
      bookings = [];
      next_venue = 4;
      now = 50;
    };
    games = [];
    next_game = 1;
  };
  results = [];
  next_result = 1;
  sent = [];
  rounds = [];
}

abbrev start : World State (Unit {0})
start = record { db = state; log = []; down = [] }

abbrev groups : List Group
groups = record { chat_id = negsuc 99; timezone = []; auto_booking_allowed = true } ∷ []

run_auto_booking-IsTidy_example :
    After
      (λ _ t. IsTidy t)
      (run_auto_booking
        (λ _. answers)
        (λ t. none)
        (codes "UTC")
        (λ _. clock)
        (λ _. some (hall ∷ []))
        true
        false
        (some groups)
        start)
run_auto_booking-IsTidy_example =
    run_auto_booking-IsTidy (λ _. answers) (λ t. none) (codes "UTC") (λ _. clock)
      (λ _. some (hall ∷ [])) true false (some groups) start (tt, tt)
