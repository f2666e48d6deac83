-- ===== src/Participation/Tests.antt =====
-- The capacity of a game and the requests on it, at concrete tables.
use squash_bot.Prelude.{true, false, [], ◌∷◌}
use squash_bot.Store.{World}
use squash_bot.Participation.{Tables, add_guest}
use squash_bot.Participation.Capacity.{IsAdded, add_guest_lem}

-- One court for two players, with one of them registered.
abbrev tables : Tables
tables = record {
  games = record { id = 3; courts_count = 1; players_per_court = 2 } ∷ [];
  participations =
      record { game_id = 3; player_id = 7; registered = true }
      ∷ record { game_id = 3; player_id = 8; registered = false }
      ∷ [];
  guests = [];
  next_guest = 1;
  players = record { id = 7; user_id = 70 } ∷ [];
  next_player = 9;
}

abbrev world : World Tables (Unit {0})
world = record { db = tables; log = []; down = [] }

add_guest_lem_example : IsAdded 3 7 tables (add_guest 3 7 world)
add_guest_lem_example = add_guest_lem 3 7 world
