-- ===== src/Games/Tests.antt =====
-- Examples for the theorems on games.
use squash_bot.Prelude.{
  ℕ, ◌≡◌, inl, inr, refl, Option, none, some, true, false, List, [], ◌∷◌, pos, negsuc, arith,
}
use squash_bot.Prelude.Text.{codes, text_ops}
use squash_bot.Store.{World}
use squash_bot.Store.Hoare.{After}
use squash_bot.Cancellation.{CourtBooking}
use squash_bot.Cancellation.Cancel.{CredReply}
use squash_bot.Results.{Lookup}
use squash_bot.Sports
use squash_bot.Sports.{squash}
use squash_bot.Venues.Tables.{VenueRow, Tables as VenueTables}
use squash_bot.Games.{GameRow, Tables, requested_sport, create_game, scan_game_with_venue}
use squash_bot.Games.Created.{IsCreated, create_game_lem}
use squash_bot.Games.Courts.{RemoveGame}
use squash_bot.Games.Booked.{
  LocalTime, Replies, BookError, book_game_courts, book_game_courts_never,
}
use squash_bot.Games.Publish.{Board, Answers, publish_game, here, next, IsTidy, Requests-IsTidy}

-- A venue that books automatically.
abbrev hall : VenueRow
hall = record {
  id = 3;
  group_id = negsuc 99;
  name = codes "Hall";
  time_slots = codes "18:00";
  address = none;
  created_at = 1;
  grace_period_hours = pos 24;
  game_days = [];
  booking_opens_days = pos 14;
  fraction = codes "1/2";
  last_booking_reminder_at = none;
  preferred_game_times = codes "18:00";
  last_auto_booking_at = none;
  auto_booking_enabled = true;
  auto_booking_courts = codes "7";
  auto_booking_courts_count = pos 1;
}

abbrev venue_tables : VenueTables
venue_tables = record {
  groups = record { chat_id = negsuc 99; timezone = [] } ∷ [];
  venues = hall ∷ [];
  sports =
      record {
        venue_id = 3;
        offer = record { sport = squash; courts = codes "1,2"; players_per_court = some (pos 4) };
      }
      ∷ [];
  bookings = [];
  next_venue = 4;
  now = 50;
}

abbrev start : World Tables (Unit {0})
start = record {
  db = record { venue_tables = venue_tables; games = []; next_game = 1 };
  log = [];
  down = [];
}

create_game_lem_example :
    After
      (λ g t. IsCreated (negsuc 99) 60 (codes "1,2") (some 3) (requested_sport []) start.db g.row)
      (create_game (negsuc 99) 60 (codes "1,2") (some 3) [] start)
create_game_lem_example =
    create_game_lem (negsuc 99) 60 (codes "1,2") (some 3) [] start
      (
        (
          unfold Sports.valid text_ops in refl,
          refl,
          (refl, omega arith, unfold Sports.get text_ops in omega arith),
        ),
        tt,
      )
      tt

abbrev game : RemoveGame
game = record { courts = codes "1,2,2"; cancelable = true }

abbrev entries : List CourtBooking
entries =
    (record { court_label = codes "2"; match_id = codes "a"; credential_id = some 5 })
    ∷ (record { court_label = codes "2"; match_id = codes "b"; credential_id = some 5 })
    ∷ []

abbrev creds : Option (ℕ → CredReply)
creds = some (λ id. CredReply.found (codes "me") (codes "secret"))

abbrev row : GameRow
row = record {
  id = 1;
  chat_id = negsuc 99;
  message_id = none;
  game_date = 60;
  courts_count = 2;
  courts = codes "1,2";
  sport = squash;
  players_per_court = pos 2;
  venue_id = some 3;
}

abbrev replies : Replies
replies = record {
  parse_in_location = λ _. true;
  credentials = some [];
  courts = some [];
  slots = some [];
  matches = [];
  update_ok = true;
  has_results = true;
  has_result = false;
  save_ok = true;
}

abbrev evening : LocalTime
evening = record { is_midnight = false; date = codes "2026-05-01"; time = codes "18:00" }

book_game_courts_never_example :
    book_game_courts true replies evening 1 (Lookup.found (scan_game_with_venue row venue_tables))
    ≡ inl BookError.not_available
book_game_courts_never_example = book_game_courts_never true replies evening 1 row venue_tables

-- The id cannot be recorded, then it can.
abbrev unrecorded : Answers
unrecorded = record { read = Lookup.found tt; sent = some 8; update_ok = false; delete_ok = true }

abbrev recorded : Answers
recorded = record { read = Lookup.found tt; sent = some 9; update_ok = true; delete_ok = false }

abbrev board : Board
board = record { message_id = none; live = [] }

Requests-IsTidy_example : IsTidy (publish_game recorded (publish_game unrecorded board).1).1
Requests-IsTidy_example =
    Requests-IsTidy board (publish_game recorded (publish_game unrecorded board).1).1
      (next recorded (next unrecorded here (inr refl)) (inl refl)) refl
