-- ===== src/Participation/Service.antt =====
-- ParticipationService of cmd/management/service/participation_service.go over the statements of
-- cmd/management/storage/participation_repo.go, guest_repo.go and player_repo.go. Edits of the chat
-- message, log lines and the profiles of the players are left out.
pub mod View
pub mod Refinement
use squash_bot.Prelude.{
  ℕ, ◌+◌, Option, none, some, Bool, true, false, ◌&&◌, ◌||◌, List, [], ◌∷◌, ◌++◌, ltb, ◌==◌,
  if◌then◌else◌,
}
use squash_bot.Store.{pure, stmt, require, or_raise, ◌>>=◌}
use squash_bot.Participation.{
  Participation, Guest, PlayerRow, Tables, Stop, GameProg, find_game, registered_count, guest_count,
  add_guest, Game,
}

abbrev pub find_player : ℕ → List PlayerRow → Option ℕ
find_player user [] = none
find_player user (p ∷ ps) = if p.user_id == user then some p.id else find_player user ps

-- PlayerRepo.Upsert: INSERT … ON CONFLICT (user_id) DO NOTHING, …
insert_unless : Option ℕ → ℕ → Tables → Unit {0} × Tables
insert_unless (some id) user t = (tt, t)
insert_unless none user t = (
  tt,
  record t {
    players = t.players ++ record { id = t.next_player; user_id = user } ∷ [];
    next_player = t.next_player + 1;
  },
)

insert_player : ℕ → Tables → Unit {0} × Tables
unfolding insert_unless
insert_player user t = insert_unless (find_player user t.players) user t

-- … and the read behind it.
pub get_player : ℕ → GameProg (Option ℕ)
get_player user = stmt Stop.database (λ t. (find_player user t.players, t))

pub upsert_player : ℕ → GameProg ℕ
unfolding insert_player
upsert_player user = stmt Stop.database (insert_player user) >>= λ _.
    get_player user >>= λ p. or_raise p Stop.no_rows

abbrev pub is_row : ℕ → ℕ → Participation → Bool
is_row game player p = p.game_id == game && p.player_id == player

abbrev pub has_row : ℕ → ℕ → List Participation → Bool
has_row game player [] = false
has_row game player (p ∷ ps) = is_row game player p || has_row game player ps

pub set_status : ℕ → ℕ → Bool → List Participation → List Participation
set_status game player registered [] = []
set_status game player registered (p ∷ ps) =
    (if is_row game player p then record p { registered = registered } else p)
    ∷ set_status game player registered ps

-- ON CONFLICT (game_id, player_id) DO UPDATE; the two columns are a key.
pub put_participation : ℕ → ℕ → Bool → List Participation → List Participation
unfolding set_status
put_participation game player registered ps =
    if has_row game player ps
    then set_status game player registered ps
    else ps ++ record { game_id = game; player_id = player; registered = registered } ∷ []

put_for : Option Game → ℕ → ℕ → Bool → Tables → Bool × Tables
put_for none game player registered t = (false, t)
put_for (some g) game player registered t =
    (true, record t { participations = put_participation game player registered t.participations })

-- ParticipationRepo.Upsert; false when there is no such game.
pub upsert_participation : ℕ → ℕ → Bool → Tables → Bool × Tables
unfolding put_for
upsert_participation game player registered t =
    put_for (find_game game t.games) game player registered t

abbrev pub of_game : ℕ → List Participation → List Participation
of_game game [] = []
of_game game (p ∷ ps) = if p.game_id == game then p ∷ of_game game ps else of_game game ps

-- ParticipationRepo.GetByGame: the rows stand in the order of their creation.
pub get_by_game : ℕ → GameProg (List Participation)
get_by_game game = stmt Stop.database (λ t. (of_game game t.participations, t))

abbrev guests_of_game : ℕ → List Guest → List Guest
guests_of_game game [] = []
guests_of_game game (g ∷ gs) =
    if g.game_id == game then g ∷ guests_of_game game gs else guests_of_game game gs

-- GuestRepo.GetByGame
pub get_guests : ℕ → GameProg (List Guest)
get_guests game = stmt Stop.database (λ t. (guests_of_game game t.guests, t))

-- Both lists, which most of the operations answer.
pub get_lists : ℕ → GameProg (List Participation × List Guest)
get_lists game = get_by_game game >>= λ ps. get_guests game >>= λ gs. pure (ps, gs)

-- Join
pub join : ℕ → ℕ → GameProg (List Participation)
join game user = upsert_player user >>= λ player.
    stmt Stop.database (upsert_participation game player true) >>= λ ok.
    require ok Stop.database >>= λ _. get_by_game game

abbrev pub is_registered : ℕ → List Participation → Bool
is_registered player [] = false
is_registered player (p ∷ ps) = (p.player_id == player && p.registered) || is_registered player ps

skip_registered : ℕ → ℕ → Bool → GameProg (Option (List Participation))
skip_registered game player false = pure none
skip_registered game player true =
    stmt Stop.database (upsert_participation game player false) >>= λ ok.
    require ok Stop.database >>= λ _. get_by_game game >>= λ ps. pure (some ps)

skip_player : ℕ → Option ℕ → GameProg (Option (List Participation))
unfolding skip_registered
skip_player game none = pure none
skip_player game (some player) =
    get_by_game game >>= λ ps. skip_registered game player (is_registered player ps)

-- Skip; `none` when nothing was changed.
pub skip : ℕ → ℕ → GameProg (Option (List Participation))
unfolding skip_player
skip game user = get_player user >>= skip_player game

abbrev pub is_guest : ℕ → ℕ → Guest → Bool
is_guest game inviter g = g.game_id == game && g.invited_by == inviter

-- The subquery of RemoveLatestGuest: a guest's id grows with the time of creation.
abbrev pub latest_guest : ℕ → ℕ → List Guest → Option ℕ
latest_guest game inviter [] = none
latest_guest game inviter (g ∷ gs) =
    let rest = latest_guest game inviter gs in
    if is_guest game inviter g
    then elim rest [ none ↦ some g.id | some later ↦ some (if ltb later g.id then g.id else later) ]
    else rest

-- DELETE … WHERE id = …; ids are unique, so that one row is deleted.
pub delete_first : (Guest → Bool) → List Guest → List Guest
delete_first f [] = []
delete_first f (g ∷ gs) = let rest = delete_first f gs in if f g then gs else g ∷ rest

delete_latest : Option ℕ → ℕ → ℕ → Tables → Bool × Tables
unfolding delete_first
delete_latest none game inviter t = (false, t)
delete_latest (some id) game inviter t =
    (true, record t { guests = delete_first (λ g. is_guest game inviter g && g.id == id) t.guests })

-- RemoveLatestGuest
pub remove_latest_guest : ℕ → ℕ → Tables → Bool × Tables
unfolding delete_latest
remove_latest_guest game inviter t =
    delete_latest (latest_guest game inviter t.guests) game inviter t

-- What follows a change: the lists, or nothing if no row was changed.
pub lists_if : ℕ → Bool → GameProg (Option (List Participation × List Guest))
lists_if game false = pure none
lists_if game true = get_lists game >>= λ l. pure (some l)

remove_guest_of : ℕ → Option ℕ → GameProg (Option (List Participation × List Guest))
unfolding lists_if
remove_guest_of game none = pure none
remove_guest_of game (some player) =
    stmt Stop.database (remove_latest_guest game player) >>= lists_if game

-- RemoveGuest
pub remove_guest : ℕ → ℕ → GameProg (Option (List Participation × List Guest))
unfolding remove_guest_of
remove_guest game user = get_player user >>= remove_guest_of game

-- AddGuest of the service, over that of the repository.
pub service_add_guest : ℕ → ℕ → GameProg (Option (List Participation × List Guest))
unfolding lists_if
service_add_guest game user =
    upsert_player user >>= λ player. add_guest game player >>= lists_if game

pub delete_rows : ℕ → ℕ → List Participation → List Participation
delete_rows game player [] = []
delete_rows game player (p ∷ ps) =
    let rest = delete_rows game player ps in if is_row game player p then rest else p ∷ rest

-- DeleteByGameAndPlayer
pub delete_participation : ℕ → ℕ → Tables → Bool × Tables
unfolding delete_rows
delete_participation game player t =
    if has_row game player t.participations
    then (true, record t { participations = delete_rows game player t.participations })
    else (false, t)

-- KickPlayer
pub kick_player : ℕ → ℕ → GameProg (Option (List Participation × List Guest))
unfolding lists_if
kick_player game player = stmt Stop.database (delete_participation game player) >>= lists_if game

abbrev pub has_guest : ℕ → ℕ → List Guest → Bool
has_guest game id [] = false
has_guest game id (g ∷ gs) = (g.id == id && g.game_id == game) || has_guest game id gs

-- DeleteByID
pub delete_guest : ℕ → ℕ → Tables → Bool × Tables
unfolding delete_first
delete_guest game id t =
    if has_guest game id t.guests
    then (true, record t { guests = delete_first (λ g. g.id == id && g.game_id == game) t.guests })
    else (false, t)

-- KickGuestByID
pub kick_guest_by_id : ℕ → ℕ → GameProg (Option (List Participation × List Guest))
unfolding lists_if
kick_guest_by_id game id = stmt Stop.database (delete_guest game id) >>= lists_if game

-- GetRegisteredCount and GetGuestCount
pub get_registered_count : ℕ → GameProg ℕ
get_registered_count game = stmt Stop.database (λ t. (registered_count game t.participations, t))

pub get_guest_count : ℕ → GameProg ℕ
get_guest_count game = stmt Stop.database (λ t. (guest_count game t.guests, t))
