-- ===== src/Participation/Service/Refinement.antt =====
-- The operations of cmd/management/service/participation_service.go, seen from outside: each changes
-- the abstract roster of the games as its name says, or leaves it alone.
mod Players
mod Guests
pub mod Runs
use squash_bot.Prelude.{
  ℕ, zero, suc, ◌+◌, ◌-◌, ◌*◌, ◌/◌, ◌%◌, ◌^◌, ◌≤◌, ◌<◌, min, ◌≡◌, ◌≢◌, ◌⊎◌, ◌↔◌, inl, inr, refl,
  sym, ap, ◌∙◌, Option, none, some, Bool, true, false, ◌&&◌, ◌||◌, not, List, [], ◌∷◌, ◌++◌, map,
  append_assoc, append-nil, length, length-append, take, ltb, leb, is_nil, ◌==◌, if◌then◌else◌, ℤ,
  pos, negsuc, arith, Bool-cases, Option-cases, All, All-append, All-map, ==_iff, ltb→lt, lt→ltb,
  leb→le, String,
}
use squash_bot.Store.{World, pure, stmt, require, ◌>>=◌}
use squash_bot.Store.Hoare.{After, After-map, stmt-After, bind-After}
use squash_bot.Store.Checks.{require-After, or_raise-After}
use squash_bot.Participation.{
  Participation, Guest, PlayerRow, Game, Tables, Stop, GameProg, capacity_of, occupancy_of,
  find_game, add_guest,
}
use squash_bot.Participation.Capacity.{IsAdded, HasAdded, add_guest_lem}
use squash_bot.Participation.Service.View.{
  Roster, view, joined, left, one_more, one_less, plays_in, guests_by, Roster-ext, put-joined,
  put-left, delete_rows-left, is_registered-of_game, guests_by-append, first, first-holds,
  guests_by-delete_first,
}
use squash_bot.Participation.Service.{
  delete_latest, put_for, insert_unless, find_player, insert_player, get_player, upsert_player,
  is_row, has_row, put_participation, upsert_participation, of_game, get_by_game, get_guests,
  get_lists, join, is_registered, skip_registered, skip_player, skip, is_guest, latest_guest,
  delete_first, remove_latest_guest, lists_if, remove_guest_of, remove_guest, service_add_guest,
  delete_rows, delete_participation, kick_player, has_guest, delete_guest, kick_guest_by_id,
}

-- A user joins, skips, brings or takes back a guest; a player or a guest is removed by hand.
pub data Request : Type 0 where
  joins skips brings takes_back : ℕ → ℕ → Request
  kicks kicks_guest : ℕ → ℕ → Request

abbrev pub is_some : {A : Type 0} → Option A → Bool
is_some none = false
is_some (some a) = true

-- Whether the request changed anything.
pub run : Request → GameProg Bool
run (joins game user) = join game user >>= λ _. pure true
run (skips game user) = skip game user >>= λ r. pure (is_some r)
run (brings game user) = service_add_guest game user >>= λ r. pure (is_some r)
run (takes_back game user) = remove_guest game user >>= λ r. pure (is_some r)
run (kicks game player) = kick_player game player >>= λ r. pure (is_some r)
run (kicks_guest game id) = kick_guest_by_id game id >>= λ r. pure (is_some r)

-- The user is a player.
abbrev pub IsPlayer : ℕ → ℕ → Tables → Type 0
IsPlayer user player t = find_player user t.players ≡ some player

-- The game has a known capacity, which is not exceeded.
abbrev pub IsWithin : ℕ → Tables → Type 0
IsWithin game t = (c : ℕ) × (capacity_of game t ≡ some c) × (occupancy_of game t ≤ c)

-- What a request that changed something did to the roster.
abbrev pub Changed : Request → Tables → Tables → Type 0
Changed (joins game user) old new =
    (p : ℕ) × IsPlayer user p new × (view new ≡ joined game p (view old))
Changed (skips game user) old new =
    (p : ℕ) × IsPlayer user p old
    × ((view old).plays game p ≡ true)
    × (view new ≡ left game p (view old))
Changed (brings game user) old new =
    (p : ℕ) × IsPlayer user p new × (view new ≡ one_more game p (view old)) × IsWithin game new
Changed (takes_back game user) old new =
    (p : ℕ) × IsPlayer user p old
    × (1 ≤ (view old).guests game p)
    × (view new ≡ one_less game p (view old))
Changed (kicks game player) old new = view new ≡ left game player (view old)
Changed (kicks_guest game id) old new =
    (p : ℕ) × (1 ≤ (view old).guests game p) × (view new ≡ one_less game p (view old))

-- Joining always changes something, if only the status of a player who has joined.
abbrev pub IsStep : Request → Tables → Bool → Tables → Type 0
IsStep r old true new = Changed r old new
IsStep r old false new = view new ≡ view old
