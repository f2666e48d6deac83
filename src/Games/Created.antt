-- ===== src/Games/Created.antt =====
-- CreateGame of cmd/management/service/game_service.go: a game is created with a sport that its venue
-- has and with a number of players that the sport allows.
use squash_bot.Prelude.{
  ℕ, ◌+◌, ◌<◌, ◌≡◌, refl, sym, ap, ◌∙◌, Option, none, some, true, false, List, [], ◌∷◌, ◌++◌,
  is_nil, ℤ, pos, arith, All,
}
use squash_bot.Prelude.Int.{eqb_ℤ}
use squash_bot.Prelude.Text.{Text, text_ops}
use squash_bot.Prelude.Text.Bags.{occurrences, length-split}
use squash_bot.Store.{World}
use squash_bot.Store.Hoare.{After, After-map, stmt-After, bind-After}
use squash_bot.Store.Checks.{require-After, or_raise-After}
use squash_bot.Sports
use squash_bot.Sports.{squash, get-default}
use squash_bot.Venues.Accepted.{IsPlayable}
use squash_bot.Games.{
  GameRow, Game, Tables, GameError, scan_game_with_venue, find_game, game_by_id, requested_sport,
  with_defaults, insert_game, new_game, get_by_id, create_game,
}
use squash_bot.Games.Players.{AllOffered, IsChosen, players_per_court-After}

with_defaults-same :
    (g : GameRow)
    → is_nil g.sport ≡ false
    → IsPlayable g.sport (some g.players_per_court)
    → with_defaults g ≡ g
unfolding with_defaults
with_defaults-same g s p =
    let positive : eqb_ℤ g.players_per_court (pos 0) ≡ false = ground arith in rw (s, positive) refl

valid-filled : (s : Text) → Sports.valid s ≡ true → is_nil s ≡ false
unfolding Sports.valid text_ops
valid-filled [] h = cc
valid-filled (c ∷ s) h = refl

-- The row of a created game: a known sport, a number of players that it allows, chosen by the venue
-- or for squash; the rest is of the request, the id is new, and there is no message yet.
pub record IsCreated (chat : ℤ) (date : ℕ) (courts : Text) (venue : Option ℕ) (name : Text)
    (old : Tables) (g : GameRow) : Type 0 where
  pub known : Sports.valid name ≡ true
  pub playable : IsPlayable name (some g.players_per_court)
  pub chosen : IsChosen name chat venue old g.players_per_court
  pub sport : g.sport ≡ name
  pub id : g.id ≡ old.next_game
  pub chat_id : g.chat_id ≡ chat
  pub unpublished : g.message_id ≡ none
  pub game_date : g.game_date ≡ date
  pub court_list : g.courts ≡ courts
  pub counted : g.courts_count ≡ occurrences courts b',' + 1
  pub venue_id : g.venue_id ≡ venue

new_game-IsCreated :
    (chat : ℤ) (date : ℕ) (courts : Text) (venue : Option ℕ) (name : Text) (n : ℤ) (old : Tables)
    → Sports.valid name ≡ true
    → IsPlayable name (some n)
    → IsChosen name chat venue old n
    → IsCreated chat date courts venue name old
        (record (new_game chat date courts name n venue) { id = old.next_game })
unfolding new_game
new_game-IsCreated chat date courts venue name n old v p c = record {
  known = v;
  playable = p;
  chosen = c;
  sport = refl;
  id = refl;
  chat_id = refl;
  unpublished = refl;
  game_date = refl;
  court_list = refl;
  counted = length-split courts b',';
  venue_id = refl;
}

-- No game has the id that the sequence gives next.
abbrev pub IsFresh : Tables → Type 0
IsFresh t = All (λ (g : GameRow). g.id < t.next_game) t.games

find_game-append :
    (id : ℕ) (gs : List GameRow) (g : GameRow)
    → All (λ x. x.id < id) gs
    → g.id ≡ id
    → find_game id (gs ++ g ∷ []) ≡ some g
unfolding find_game
find_game-append id [] g h e = ground arith
find_game-append id (x ∷ gs) g h e = ground (arith, find_game-append id gs g h.1 e)

-- What the INSERT of CreateGame leaves: its id, and the tables with the row at the end.
abbrev Inserted : Tables → GameRow → ℕ → Tables → Type 0
Inserted old g id new =
    (id ≡ old.next_game) × (new.games ≡ old.games ++ record g { id = old.next_game } ∷ [])

insert_game-Inserted :
    (t : Tables) (g : GameRow)
    → with_defaults g ≡ g
    → Inserted t g (insert_game g t).0 (insert_game g t).1
unfolding insert_game
insert_game-Inserted t g same = (
  refl,
  ap {A = GameRow} {B = List GameRow} (λ x. t.games ++ record x { id = t.next_game } ∷ []) same,
)

game_by_id-row :
    (id : ℕ) (t : Tables) (g : GameRow) (r : Game)
    → find_game id t.games ≡ some g
    → game_by_id id t ≡ some r
    → r.row ≡ g
unfolding game_by_id scan_game_with_venue
game_by_id-row id t g r found e =
    let read : some (scan_game_with_venue g t.venue_tables) ≡ some r =
      rw (found, game_by_id) at e in
    let same : scan_game_with_venue g t.venue_tables ≡ r = cc in ap (λ x. x.row) (sym same)

read-Inserted :
    (old new : Tables) (g : GameRow) (id : ℕ) (r : Game)
    → IsFresh old
    → Inserted old g id new
    → game_by_id id new ≡ some r
    → r.row ≡ record g { id = old.next_game }
read-Inserted old new g id r fresh (i, gs) e =
    let row : GameRow = record g { id = old.next_game } in
    let found = find_game-append old.next_game old.games row fresh refl in
    game_by_id-row id new row r (rw (i, gs) found) e

get_by_id-After :
    (id : ℕ) (w : World Tables (Unit {0}))
    → After (λ r t. game_by_id id w.db ≡ some r) (get_by_id id w)
unfolding get_by_id
get_by_id-After id w =
    bind-After (λ r (t : Tables). game_by_id id w.db ≡ r) (λ r t. game_by_id id w.db ≡ some r) _ _ w
      (stmt-After _ GameError.database _ w refl)
      λ r v h. or_raise-After _ r GameError.not_found v (λ a e. h ∙ e)

-- A game that CreateGame answers is of a known sport, and of one that the group's venue offers, or
-- of squash without a venue; its number of players per court is that of the offer, or the sport's
-- default, and one that the sport allows; its courts, date, chat and venue are those of the request,
-- the courts are counted by their commas, its id is the next one, and it is not published.
-- The tables before hold sports of venues as they are accepted, and games below the sequence.
pub create_game_lem :
    (chat : ℤ) (date : ℕ) (courts : Text) (venue : Option ℕ) (requested : List Text)
    (w : World Tables (Unit {0}))
    → AllOffered w.db
    → IsFresh w.db
    → After
        (λ g t. IsCreated chat date courts venue (requested_sport requested) w.db g.row)
        (create_game chat date courts venue requested w)
unfolding create_game
create_game_lem chat date courts venue requested w offered fresh =
    let name = requested_sport requested in
    let Q : Game → Tables → Type 0 = λ g t. IsCreated chat date courts venue name w.db g.row in
    bind-After (λ (_ : Unit {0}) t. (t ≡ w.db) × (Sports.valid name ≡ true)) Q _ _ w
      (require-After _ (Sports.valid name) GameError.invalid_sport w (λ e. (refl, e)))
      λ _ v1 h1.
        bind-After (λ n t. (t ≡ w.db) × IsPlayable name (some n) × IsChosen name chat venue w.db n)
          Q _ _ v1 (rw (← h1.0) (players_per_court-After name chat venue v1 (rw h1.0 offered) h1.1))
          λ n v2 h2.
            let g = new_game chat date courts name n venue in
            bind-After (Inserted w.db g) Q _ _ v2
              (stmt-After (Inserted w.db g) GameError.database _ v2 (
                rw h2.0 (
                  insert_game-Inserted w.db g
                    (unfold new_game in with_defaults-same g (valid-filled name h1.1) h2.1))))
              λ id v3 h3.
                After-map (λ r t. game_by_id id v3.db ≡ some r) Q _
                  (λ r t e.
                    rw (read-Inserted w.db v3.db g id r fresh h3 e)
                      (new_game-IsCreated chat date courts venue name n w.db h1.1 h2.1 h2.2))
                  (get_by_id-After id v3)
