-- ===== src/Participation/Service/Refinement/Guests.antt =====
-- Guests, and removal by hand (participation_service.go, AddGuest to KickGuestByID).
use squash_bot.Prelude.{
  ℕ, ◌*◌, ◌≤◌, ◌≡◌, ◌≢◌, ◌⊎◌, inl, inr, refl, sym, ap, ◌∙◌, Option, none, some, Bool, true, false,
  ◌&&◌, List, [], ◌∷◌, ◌==◌, arith, Bool-cases, Option-cases,
}
use squash_bot.Store.{World, pure, stmt, ◌>>=◌}
use squash_bot.Store.Hoare.{After, After-map, stmt-After, bind-After}
use squash_bot.Participation.{Participation, Guest, Tables, Stop, capacity_of, find_game, add_guest}
use squash_bot.Participation.Capacity.{IsAdded, HasAdded, add_guest_lem}
use squash_bot.Participation.Service.View.{
  view, one_more, one_less, plays_in, guests_by, Roster-ext, delete_rows-left, guests_by-append,
  first, first-holds, guests_by-delete_first,
}
use squash_bot.Participation.Service.{
  delete_latest, find_player, get_player, has_row, get_by_game, get_guests, get_lists, is_guest,
  latest_guest, delete_first, remove_latest_guest, lists_if, remove_guest_of, remove_guest,
  service_add_guest, delete_participation, has_guest, delete_guest,
}
use squash_bot.Participation.Service.Refinement.{
  Request, is_some, IsPlayer, IsStep, takes_back, kicks_guest, brings, kicks,
}
use squash_bot.Participation.Service.Refinement.Players.{upsert_player-After}

get_lists-After :
    (game : ℕ) (w : World Tables (Unit {0})) → After (λ _ t. t ≡ w.db) (get_lists game w)
unfolding get_lists get_by_game get_guests pure
get_lists-After game w =
    bind-After (λ (_ : List Participation) t. t ≡ w.db) _ _ _ w
      (stmt-After _ Stop.database _ w refl)
      λ ps v1 h1.
        bind-After (λ (_ : List Guest) t. t ≡ w.db) _ _ _ v1 (stmt-After _ Stop.database _ v1 h1)
          λ gs v2 h2. h2

-- A change that `b` tells of, and the lists behind it.
pub lists_if-After :
    (r : Request) (old : Tables) (game : ℕ) (b : Bool) (w : World Tables (Unit {0}))
    → IsStep r old b w.db
    → After (λ l t. IsStep r old (is_some l) t) (lists_if game b w)
unfolding lists_if pure
lists_if-After r old game false w h = h
lists_if-After r old game true w h =
    bind-After (λ (_ : List Participation × List Guest) t. t ≡ w.db) _ _ _ w
      (get_lists-After game w) λ l v e. rw e h

latest_guest-first :
    (game player id : ℕ) (gs : List Guest)
    → first (λ y. is_guest game player y && y.id == id) gs ≡ none
    → latest_guest game player gs ≢ some id
latest_guest-first game player id [] h e = cc
latest_guest-first game player id (x ∷ gs) h e =
    ground (arith, latest_guest-first game player id gs)

-- A guest of the player that is taken out of the list.
first-one_less :
    (f : Guest → Bool) (game player : ℕ) (t : Tables) (x : Guest)
    → first f t.guests ≡ some x
    → is_guest game player x ≡ true
    → (1 ≤ guests_by game player t.guests)
      × (view (record t { guests = delete_first f t.guests }) ≡ one_less game player (view t))
first-one_less f game player t x e i = (
  rw (guests_by-delete_first game player f t.guests x e, i) (omega arith),
  Roster-ext _ _ (λ g q. refl)
      (λ g q. let less = guests_by-delete_first g q f t.guests x e in ground (arith, less)),
)

delete_latest-IsStep :
    (game user player : ℕ) (id : Option ℕ) (t : Tables)
    → IsPlayer user player t
    → latest_guest game player t.guests ≡ id
    → IsStep
        (takes_back game user)
        t
        (delete_latest id game player t).0
        (delete_latest id game player t).1
unfolding delete_latest
delete_latest-IsStep game user player none t i e = refl
delete_latest-IsStep game user player (some id) t i e =
    let f : Guest → Bool = λ y. is_guest game player y && y.id == id in
    elim (Option-cases (first f t.guests)) [
      | inl n ↦ absurd (latest_guest-first game player id t.guests n e)
      | inr (x, h) ↦
          let own = first-holds f t.guests x h in
          let (some_left, less) = first-one_less f game player t x h (ground arith) in
          (player, i, some_left, less)
    ]

-- A statement whose outcome is a step, and the lists behind it.
pub stmt_lists-After :
    (r : Request) (game : ℕ) (f : Tables → Bool × Tables) (w : World Tables (Unit {0}))
    → IsStep r w.db (f w.db).0 (f w.db).1
    → After (λ l t. IsStep r w.db (is_some l) t) ((stmt Stop.database f >>= lists_if game) w)
stmt_lists-After r game f w h =
    bind-After (λ b t. IsStep r w.db b t) _ _ _ w
      (stmt-After (λ b t. IsStep r w.db b t) Stop.database f w h)
      λ b v k. lists_if-After r w.db game b v k

remove_guest_of-After :
    (game user : ℕ) (p : Option ℕ) (old : Tables) (w : World Tables (Unit {0}))
    → w.db ≡ old
    → p ≡ find_player user old.players
    → After (λ l t. IsStep (takes_back game user) old (is_some l) t) (remove_guest_of game p w)
unfolding remove_guest_of remove_latest_guest pure
remove_guest_of-After game user none old w e i = ap view e
remove_guest_of-After game user (some player) old w e i = rw (← e) (
    stmt_lists-After (takes_back game user) game _ w (
      delete_latest-IsStep game user player (latest_guest game player w.db.guests) w.db
        (rw e (sym i)) refl))

pub remove_guest-After :
    (game user : ℕ) (w : World Tables (Unit {0}))
    → After (λ l t. IsStep (takes_back game user) w.db (is_some l) t) (remove_guest game user w)
unfolding remove_guest get_player
remove_guest-After game user w =
    bind-After (λ p t. (t ≡ w.db) × (p ≡ find_player user w.db.players)) _ _ _ w
      (stmt-After _ Stop.database _ w (refl, refl))
      λ p v h. remove_guest_of-After game user p w.db v h.0 h.1

-- What AddGuest of the repository leaves, by its answer.
Added : ℕ → ℕ → Tables → Bool → Tables → Type 0
Added game player old true new = HasAdded game player old new
Added game player old false new = new ≡ old

IsAdded-Added :
    (game player : ℕ) (old : Tables) (r : (Stop ⊎ Bool) × World Tables (Unit {0}))
    → IsAdded game player old r
    → After (λ b t. Added game player old b t) r
unfolding Added
IsAdded-Added game player old (inl e, w) h = tt
IsAdded-Added game player old (inr true, w) h = h
IsAdded-Added game player old (inr false, w) h = h

capacity_of-games :
    (game : ℕ) (a b : Tables) → a.games ≡ b.games → capacity_of game a ≡ capacity_of game b
unfolding capacity_of
capacity_of-games game a b e =
    ap
      (λ gs. elim (find_game game gs) [
        | none ↦ none
        | some g ↦ some (g.courts_count * g.players_per_court)
      ])
      e

HasAdded-view :
    (game player : ℕ) (old new : Tables)
    → HasAdded game player old new
    → view new ≡ one_more game player (view old)
HasAdded-view game player old new h =
    let x : Guest = record { id = old.next_guest; game_id = game; invited_by = player } in
    Roster-ext _ _ (λ g q. ap (plays_in g q) h.others.1)
      (λ g q. ap (guests_by g q) h.guests ∙ (guests_by-append g q old.guests x ∙ ground arith))

Added-IsStep :
    (game user player : ℕ) (b : Bool) (old mid new : Tables)
    → IsPlayer user player mid
    → view mid ≡ view old
    → Added game player mid b new
    → IsStep (brings game user) old b new
unfolding Added
Added-IsStep game user player false old mid new i v h = ap view h ∙ v
Added-IsStep game user player true old mid new i v h = (
  player,
  rw h.others.2 i,
  HasAdded-view game player mid new h ∙ ap (one_more game player) v,
  (h.capacity, capacity_of-games game new mid h.others.0 ∙ h.known, h.within),
)

pub service_add_guest-After :
    (game user : ℕ) (w : World Tables (Unit {0}))
    → After (λ l t. IsStep (brings game user) w.db (is_some l) t) (service_add_guest game user w)
unfolding service_add_guest
service_add_guest-After game user w =
    bind-After (λ p t. IsPlayer user p t × (view t ≡ view w.db)) _ _ _ w
      (upsert_player-After user w)
      λ p v1 h1.
        bind-After (λ b t. IsStep (brings game user) w.db b t) _ _ _ v1
          (After-map (λ b t. Added game p v1.db b t) (λ b t. IsStep (brings game user) w.db b t) _
            (λ b t a. Added-IsStep game user p b w.db v1.db t h1.0 h1.1 a)
            (IsAdded-Added game p v1.db (add_guest game p v1) (add_guest_lem game p v1)))
          λ b v2 h2. lists_if-After (brings game user) w.db game b v2 h2

pub delete_participation-IsStep :
    (game player : ℕ) (t : Tables)
    → IsStep
        (kicks game player)
        t
        (delete_participation game player t).0
        (delete_participation game player t).1
unfolding delete_participation
delete_participation-IsStep game player t =
    elim (Bool-cases (has_row game player t.participations)) [
      | inr e ↦ rw e refl
      | inl e ↦
          rw e (
            Roster-ext _ _ (λ g q. delete_rows-left game player g q t.participations) (λ g q. refl))
    ]

has_guest-first :
    (game id : ℕ) (gs : List Guest)
    → has_guest game id gs ≡ true
    → first (λ g. g.id == id && g.game_id == game) gs ≢ none
has_guest-first game id [] h e = cc
has_guest-first game id (g ∷ gs) h e = ground (arith, has_guest-first game id gs)

pub delete_guest-IsStep :
    (game id : ℕ) (t : Tables)
    → IsStep (kicks_guest game id) t (delete_guest game id t).0 (delete_guest game id t).1
unfolding delete_guest
delete_guest-IsStep game id t = elim (Bool-cases (has_guest game id t.guests)) [
  | inr e ↦ rw e refl
  | inl e ↦
      let f : Guest → Bool = λ g. g.id == id && g.game_id == game in
      rw e (elim (Option-cases (first f t.guests)) [
        | inl n ↦ absurd (has_guest-first game id t.guests e n)
        | inr (x, h) ↦
            let own = first-holds f t.guests x h in
            let (some_left, less) = first-one_less f game x.invited_by t x h (ground arith) in
            (x.invited_by, some_left, less)
      ])
]
