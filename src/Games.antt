-- ===== src/Games.antt =====
-- Games: internal/models/game.go, the rows and reads of cmd/management/storage/game_repo.go, and the
-- creation of cmd/management/service/game_service.go.
pub mod Players
pub mod Created
pub mod Courts
pub mod Booked
pub mod Publish
mod Tests
use squash_bot.Prelude.{
  ℕ, zero, suc, ◌+◌, ◌-◌, ◌*◌, ◌/◌, ◌%◌, ◌^◌, ◌≤◌, ◌<◌, min, ◌≡◌, ◌≢◌, ◌⊎◌, ◌↔◌, inl, inr, refl,
  sym, ap, ◌∙◌, Option, none, some, Bool, true, false, ◌&&◌, ◌||◌, not, List, [], ◌∷◌, ◌++◌, map,
  append_assoc, append-nil, length, length-append, take, ltb, leb, is_nil, ◌==◌, if◌then◌else◌, ℤ,
  pos, negsuc, arith, Bool-cases, Option-cases, All, All-append, All-map, ==_iff, ltb→lt, lt→ltb,
  leb→le, String,
}
use squash_bot.Prelude.Int.{eqb_ℤ}
use squash_bot.Prelude.Text.{Text, text_eq, split}
use squash_bot.Store.{World, Prog, pure, raise, stmt, require, or_raise, ◌>>=◌}
use squash_bot.Sports
use squash_bot.Sports.{squash}
use squash_bot.Venues.{VenueSport, Venue}
use squash_bot.Venues.Tables.{VenueRow, find_venue, offers, venue_of, Tables as VenueTables}

-- A row of games. An instant is a number.
pub record GameRow : Type 0 where
  pub id : ℕ
  pub chat_id : ℤ
  pub message_id : Option ℕ
  pub game_date : ℕ
  pub courts_count : ℕ
  pub courts : Text
  pub sport : Text
  pub players_per_court : ℤ
  pub venue_id : Option ℕ

-- Game: the row, and the venue that a query joined to it.
pub record Game : Type 0 where
  pub row : GameRow
  pub venue : Option Venue

pub record Tables : Type 0 where
  pub venue_tables : VenueTables
  pub games : List GameRow
  pub next_game : ℕ

-- The venue that scanGameWithVenue builds: the query reads neither the sports nor whether, and how
-- many, courts are booked automatically.
pub joined_venue : List VenueSport → VenueRow → Venue
joined_venue sports r = record (venue_of sports r) {
  sports = [];
  auto_booking_enabled = false;
  auto_booking_courts_count = pos 0;
}

-- LEFT JOIN venues v ON v.id = g.venue_id
pub join_venue : Option ℕ → VenueTables → Option Venue
unfolding joined_venue
join_venue none t = none
join_venue (some id) t = elim (find_venue id t.venues) [
  | none ↦ none
  | some r ↦ some (joined_venue (offers id t.sports) r)
]

-- scanGameWithVenue
pub scan_game_with_venue : GameRow → VenueTables → Game
scan_game_with_venue g t = record { row = g; venue = join_venue g.venue_id t }

pub find_game : ℕ → List GameRow → Option GameRow
find_game id [] = none
find_game id (g ∷ gs) = let rest = find_game id gs in if g.id == id then some g else rest

-- The query of GameRepo.GetByID.
pub game_by_id : ℕ → Tables → Option Game
unfolding find_game
game_by_id id t = elim (find_game id t.games) [
  | none ↦ none
  | some g ↦ some (scan_game_with_venue g t.venue_tables)
]

-- The errors that the services of games tell apart.
pub data GameError : Type 0 where
  invalid_sport no_such_venue not_configured needs_venue : GameError
  database not_found : GameError

abbrev pub GameProg : Type 0 → Type 0
GameProg A = Prog Tables (Unit {0}) GameError A

-- sportName
pub requested_sport : List Text → Text
requested_sport [] = squash
requested_sport (s ∷ ss) = if is_nil s then squash else s

or_default : ℕ → Option ℤ → ℤ
or_default n none = pos n
or_default n (some p) = p

-- The loop over venue.Sports: the players of the sport, if the venue has it.
pub players_in : Text → List VenueSport → Option ℤ
unfolding or_default
players_in name [] = none
players_in name (v ∷ vs) =
    let rest = players_in name vs in
    if text_eq v.sport name
    then some (or_default (Sports.get name).default_players_per_court v.players_per_court)
    else rest

-- The sports that GetByIDAndGroupID finds, if the group has the venue. Their order does not matter
-- here.
pub sports_of_venue : ℕ → ℤ → VenueTables → Option (List VenueSport)
sports_of_venue id group t = elim (find_venue id t.venues) [
  | none ↦ none
  | some r ↦ if eqb_ℤ r.group_id group then some (offers id t.sports) else none
]

-- The choice of playersPerCourt.
pub players_per_court : Text → ℤ → Option ℕ → GameProg ℤ
players_per_court name chat none = require (text_eq name squash) GameError.needs_venue >>= λ _.
    pure (pos (Sports.get name).default_players_per_court)
players_per_court name chat (some id) =
    stmt GameError.no_such_venue (λ t. (sports_of_venue id chat t.venue_tables, t)) >>= λ r.
    or_raise r GameError.no_such_venue >>= λ sports.
    or_raise (players_in name sports) GameError.not_configured

-- The `if`s at the head of GameRepo.Create.
pub with_defaults : GameRow → GameRow
with_defaults g =
    let sport = if is_nil g.sport then squash else g.sport in
    record g {
      sport = sport;
      players_per_court =
          if eqb_ℤ g.players_per_court (pos 0)
          then pos (Sports.get sport).default_players_per_court
          else g.players_per_court;
    }

-- INSERT INTO games … RETURNING, by the id.
pub insert_game : GameRow → Tables → ℕ × Tables
unfolding with_defaults
insert_game g t = (
  t.next_game,
  record t {
    games = t.games ++ record (with_defaults g) { id = t.next_game } ∷ [];
    next_game = t.next_game + 1;
  },
)

-- len(strings.Split(courts, ","))
abbrev pub count_courts : Text → ℕ
count_courts courts = length (split courts b',')

-- The game that CreateGame passes to the repository.
pub new_game : ℤ → ℕ → Text → Text → ℤ → Option ℕ → GameRow
new_game chat date courts sport players venue = record {
  id = 0;
  chat_id = chat;
  message_id = none;
  game_date = date;
  courts_count = count_courts courts;
  courts = courts;
  sport = sport;
  players_per_court = players;
  venue_id = venue;
}

-- GameRepo.GetByID
pub get_by_id : ℕ → GameProg Game
get_by_id id =
    stmt GameError.database (λ t. (game_by_id id t, t)) >>= λ g. or_raise g GameError.not_found

-- CreateGame
pub create_game : ℤ → ℕ → Text → Option ℕ → List Text → GameProg Game
unfolding insert_game
create_game chat date courts venue requested =
    let name = requested_sport requested in
    require (Sports.valid name) GameError.invalid_sport >>= λ _.
    players_per_court name chat venue >>= λ players.
    stmt GameError.database (insert_game (new_game chat date courts name players venue)) >>= λ id.
    get_by_id id

set_courts : Text → ℕ → GameRow → GameRow
set_courts courts count g = record g { courts = courts; courts_count = count }

-- GameRepo.UpdateCourts
pub update_courts_row : ℕ → Text → ℕ → List GameRow → List GameRow
unfolding set_courts
update_courts_row id courts count [] = []
update_courts_row id courts count (g ∷ gs) =
    let rest = update_courts_row id courts count gs in
    (if g.id == id then set_courts courts count g else g) ∷ rest

-- UpdateCourts
pub update_courts : ℕ → Text → GameProg (Unit {0})
update_courts id courts =
    stmt GameError.database
      (λ t. (tt, record t { games = update_courts_row id courts (count_courts courts) t.games }))
