-- ===== src/Participation/Service/Refinement/Players.antt =====
-- Joining and skipping (participation_service.go, Join and Skip).
use squash_bot.Prelude.{ℕ, ◌≡◌, refl, sym, ap, ◌∙◌, Option, none, some, Bool, true, false, List}
use squash_bot.Store.{World, pure}
use squash_bot.Store.Hoare.{After, stmt-After, bind-After}
use squash_bot.Store.Checks.{require-After, or_raise-After}
use squash_bot.Participation.{Participation, Game, Tables, Stop, find_game}
use squash_bot.Participation.Service.View.{
  view, joined, left, Roster-ext, put-joined, put-left, is_registered-of_game,
}
use squash_bot.Participation.Service.{
  put_for, insert_unless, find_player, insert_player, get_player, upsert_player,
  upsert_participation, get_by_game, join, is_registered, skip_registered, skip_player, skip,
}
use squash_bot.Participation.Service.Refinement.{is_some, IsPlayer, Changed, IsStep, joins, skips}

insert_unless-view :
    (p : Option ℕ) (user : ℕ) (t : Tables) → view (insert_unless p user t).1 ≡ view t
unfolding insert_unless
insert_unless-view (some id) user t = refl
insert_unless-view none user t = refl

pub upsert_player-After :
    (user : ℕ) (w : World Tables (Unit {0}))
    → After (λ p t. IsPlayer user p t × (view t ≡ view w.db)) (upsert_player user w)
unfolding upsert_player get_player insert_player
upsert_player-After user w =
    bind-After (λ (_ : Unit {0}) t. view t ≡ view w.db) _ _ _ w
      (stmt-After (λ (_ : Unit {0}) t. view t ≡ view w.db) Stop.database _ w
        (insert_unless-view (find_player user w.db.players) user w.db))
      λ _ v1 h1.
        bind-After (λ r t. (r ≡ find_player user t.players) × (view t ≡ view w.db)) _ _ _ v1
          (stmt-After _ Stop.database _ v1 (refl, h1))
          λ r v2 h2. or_raise-After _ r Stop.no_rows v2 (λ p e. (sym h2.0 ∙ e, h2.1))

-- A participation that was written, unless there is no such game.
put_for-joined :
    (g : Option Game) (game player : ℕ) (t : Tables)
    → (put_for g game player true t).0 ≡ true
    → view (put_for g game player true t).1 ≡ joined game player (view t)
unfolding put_for
put_for-joined none game player t h = cc
put_for-joined (some g) game player t h =
    Roster-ext _ _ (λ x q. put-joined game player x q t.participations) (λ x q. refl)

put_for-left :
    (g : Option Game) (game player : ℕ) (t : Tables)
    → (put_for g game player false t).0 ≡ true
    → view (put_for g game player false t).1 ≡ left game player (view t)
unfolding put_for
put_for-left none game player t h = cc
put_for-left (some g) game player t h =
    Roster-ext _ _ (λ x q. put-left game player x q t.participations) (λ x q. refl)

put_for-players :
    (g : Option Game) (game player : ℕ) (b : Bool) (t : Tables)
    → (put_for g game player b t).1.players ≡ t.players
unfolding put_for
put_for-players none game player b t = refl
put_for-players (some g) game player b t = refl

pub join-After :
    (game user : ℕ) (w : World Tables (Unit {0}))
    → After (λ _ t. Changed (joins game user) w.db t) (join game user w)
unfolding join upsert_participation get_by_game
join-After game user w =
    bind-After (λ p t. IsPlayer user p t × (view t ≡ view w.db)) _ _ _ w
      (upsert_player-After user w)
      λ p v1 h1.
        bind-After (λ ok t. IsPlayer user p t × (ok ≡ true → view t ≡ joined game p (view w.db))) _
          _ _ v1
          (stmt-After _ Stop.database _ v1 (
            let g = find_game game v1.db.games in
            (
              rw (put_for-players g game p true v1.db) h1.0,
              λ ok. put_for-joined g game p v1.db ok ∙ ap (joined game p) h1.1,
            )))
          λ ok v2 h2.
            bind-After (λ (_ : Unit {0}) t. Changed (joins game user) w.db t) _ _ _ v2
              (require-After _ ok Stop.database v2 (λ e. (p, h2.0, h2.1 e)))
              λ _ v3 h3. stmt-After _ Stop.database _ v3 h3

skip_registered-After :
    (game user player : ℕ) (b : Bool) (old : Tables) (w : World Tables (Unit {0}))
    → w.db ≡ old
    → IsPlayer user player old
    → (view old).plays game player ≡ b
    → After (λ r t. IsStep (skips game user) old (is_some r) t) (skip_registered game player b w)
unfolding skip_registered upsert_participation get_by_game pure
skip_registered-After game user player false old w e i r = ap view e
skip_registered-After game user player true old w e i r =
    let Q : Tables → Type 0 = λ t. Changed (skips game user) old t in
    bind-After (λ ok t. ok ≡ true → Q t) _ _ _ w
      (stmt-After _ Stop.database _ w (λ ok. (
        player,
        i,
        r,
        put_for-left (find_game game w.db.games) game player w.db ok
            ∙ ap (λ x. left game player (view x)) e,
      )))
      λ ok v1 h1.
        bind-After (λ (_ : Unit {0}) t. Q t) _ _ _ v1 (require-After _ ok Stop.database v1 h1)
          λ _ v2 h2.
            bind-After (λ (_ : List Participation) t. Q t) _ _ _ v2
              (stmt-After _ Stop.database _ v2 h2) λ ps v3 h3. h3

skip_player-After :
    (game user : ℕ) (p : Option ℕ) (old : Tables) (w : World Tables (Unit {0}))
    → w.db ≡ old
    → p ≡ find_player user old.players
    → After (λ r t. IsStep (skips game user) old (is_some r) t) (skip_player game p w)
unfolding skip_player get_by_game pure
skip_player-After game user none old w e i = ap view e
skip_player-After game user (some player) old w e i =
    bind-After (λ ps t. (t ≡ old) × (is_registered player ps ≡ (view old).plays game player)) _ _ _
      w
      (stmt-After _ Stop.database _ w
        (e, rw e (is_registered-of_game game player old.participations)))
      λ ps v h.
        skip_registered-After game user player (is_registered player ps) old v h.0 (sym i) (sym h.1)

pub skip-After :
    (game user : ℕ) (w : World Tables (Unit {0}))
    → After (λ r t. IsStep (skips game user) w.db (is_some r) t) (skip game user w)
unfolding skip get_player
skip-After game user w =
    bind-After (λ p t. (t ≡ w.db) × (p ≡ find_player user w.db.players)) _ _ _ w
      (stmt-After _ Stop.database _ w (refl, refl))
      λ p v h. skip_player-After game user p w.db v h.0 h.1
