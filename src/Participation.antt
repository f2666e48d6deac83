-- ===== src/Participation.antt =====
-- Who plays in a game: the tables of games, players, participations and guests, and AddGuest of
-- cmd/management/storage/guest_repo.go; the service over them is in Service. An advisory lock serialises the additions of guests
-- to a game, so that they are run one after another here.
pub mod Capacity
pub mod Service
mod Tests
use squash_bot.Prelude.{
  ℕ, zero, suc, ◌+◌, ◌-◌, ◌*◌, ◌/◌, ◌%◌, ◌^◌, ◌≤◌, ◌<◌, min, ◌≡◌, ◌≢◌, ◌⊎◌, ◌↔◌, inl, inr, refl,
  sym, ap, ◌∙◌, Option, none, some, Bool, true, false, ◌&&◌, ◌||◌, not, List, [], ◌∷◌, ◌++◌, map,
  append_assoc, append-nil, length, length-append, take, ltb, leb, is_nil, ◌==◌, if◌then◌else◌, ℤ,
  pos, negsuc, arith, Bool-cases, Option-cases, All, All-append, All-map, ==_iff, ltb→lt, lt→ltb,
  leb→le, String,
}
use squash_bot.Store.{World, Prog, pure, raise, stmt, ◌>>=◌, in_tx}

-- A row of game_participations.
pub record Participation : Type 0 where
  pub game_id : ℕ
  pub player_id : ℕ
  pub registered : Bool

-- A row of guest_participations; ids grow with the time of creation.
pub record Guest : Type 0 where
  pub id : ℕ
  pub game_id : ℕ
  pub invited_by : ℕ

-- A row of players: who of the users plays.
pub record PlayerRow : Type 0 where
  pub id : ℕ
  pub user_id : ℕ

pub record Game : Type 0 where
  pub id : ℕ
  pub courts_count : ℕ
  pub players_per_court : ℕ

pub record Tables : Type 0 where
  pub games : List Game
  pub participations : List Participation
  pub guests : List Guest
  pub next_guest : ℕ
  pub players : List PlayerRow
  pub next_player : ℕ

pub data Stop : Type 0 where
  database no_rows full : Stop

abbrev pub GameProg : Type 0 → Type 0
GameProg A = Prog Tables (Unit {0}) Stop A

pub find_game : ℕ → List Game → Option Game
find_game id [] = none
find_game id (g ∷ gs) = let rest = find_game id gs in if g.id == id then some g else rest

-- SELECT COUNT(*) FROM game_participations WHERE game_id = $1 AND status = 'registered'
abbrev pub registered_count : ℕ → List Participation → ℕ
registered_count game [] = 0
registered_count game (p ∷ ps) =
    (if p.game_id == game && p.registered then 1 else 0) + registered_count game ps

-- SELECT COUNT(*) FROM guest_participations WHERE game_id = $1
abbrev pub guest_count : ℕ → List Guest → ℕ
guest_count game [] = 0
guest_count game (g ∷ gs) = (if g.game_id == game then 1 else 0) + guest_count game gs

-- The two columns of countQ: the capacity and the occupancy.
pub capacity_of : ℕ → Tables → Option ℕ
unfolding find_game
capacity_of game t = elim (find_game game t.games) [
  | none ↦ none
  | some g ↦ some (g.courts_count * g.players_per_court)
]

abbrev pub occupancy_of : ℕ → Tables → ℕ
occupancy_of game t = registered_count game t.participations + guest_count game t.guests

insert_guest : ℕ → ℕ → Tables → Tables
insert_guest game inviter t = record t {
  guests = t.guests ++ record { id = t.next_guest; game_id = game; invited_by = inviter } ∷ [];
  next_guest = t.next_guest + 1;
}

-- if occupancy >= capacity
add_unless_full : ℕ → ℕ → Option ℕ × ℕ → GameProg (Unit {0})
add_unless_full game inviter (none, occupancy) = raise Stop.no_rows
add_unless_full game inviter (some capacity, occupancy) =
    if leb capacity occupancy
    then raise Stop.full
    else stmt Stop.database (λ t. (tt, insert_guest game inviter t))

-- The transaction of AddGuest; a full game leaves it by a return, and `defer` rolls it back.
add_in_tx : ℕ → ℕ → GameProg (Unit {0})
add_in_tx game inviter = in_tx Stop.database Stop.database (
    stmt Stop.database (λ t. (tt {0}, t)) >>= λ _.
    stmt Stop.database (λ t. ((capacity_of game t, occupancy_of game t), t))
    >>= add_unless_full game inviter)

-- What the caller of AddGuest gets: whether a guest was added, or an error.
added_of : Stop ⊎ Unit {0} → Stop ⊎ Bool
added_of (inr u) = inr true
added_of (inl Stop.full) = inr false
added_of (inl Stop.database) = inl Stop.database
added_of (inl Stop.no_rows) = inl Stop.no_rows

-- AddGuest
pub add_guest : ℕ → ℕ → GameProg Bool
unfolding added_of
add_guest game inviter w = let r = add_in_tx game inviter w in (added_of r.0, r.1)
