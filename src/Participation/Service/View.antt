-- ===== src/Participation/Service/View.antt =====
-- What the tables of cmd/management/storage/participation_repo.go and guest_repo.go say of who plays:
-- their abstract view, and how the statements change it.
use squash_bot.Prelude.{
  ℕ, ◌+◌, ◌-◌, ◌≡◌, ◌⊎◌, inl, inr, refl, Option, none, some, Bool, true, false, ◌&&◌, ◌||◌, not,
  List, [], ◌∷◌, ◌++◌, ◌==◌, if◌then◌else◌, arith, Bool-cases,
}
use mathlib.Core.Path.{fun_ext}
use squash_bot.Participation.{Participation, Guest, Tables}
use squash_bot.Participation.Service.{
  is_row, has_row, set_status, put_participation, of_game, is_registered, is_guest, delete_first,
  delete_rows,
}

-- Who plays in a game, and how many guests each player brings. The order of the rows, the ids, and
-- whether a player who does not play has skipped or never joined are forgotten.
pub record Roster : Type 0 where
  pub plays : ℕ → ℕ → Bool
  pub guests : ℕ → ℕ → ℕ

abbrev pub same : ℕ → ℕ → ℕ → ℕ → Bool
same game player g p = g == game && p == player

abbrev pub joined : ℕ → ℕ → Roster → Roster
joined game player r = record r { plays = λ g p. same game player g p || r.plays g p }

abbrev pub left : ℕ → ℕ → Roster → Roster
left game player r = record r { plays = λ g p. not (same game player g p) && r.plays g p }

abbrev pub one_more : ℕ → ℕ → Roster → Roster
one_more game player r = record r {
  guests = λ g p. (if same game player g p then 1 else 0) + r.guests g p;
}

abbrev pub one_less : ℕ → ℕ → Roster → Roster
one_less game player r = record r {
  guests = λ g p. r.guests g p - (if same game player g p then 1 else 0);
}

pub plays_in : ℕ → ℕ → List Participation → Bool
plays_in game player [] = false
plays_in game player (p ∷ ps) = (is_row game player p && p.registered) || plays_in game player ps

pub guests_by : ℕ → ℕ → List Guest → ℕ
guests_by game player [] = 0
guests_by game player (g ∷ gs) =
    (if is_guest game player g then 1 else 0) + guests_by game player gs

-- The abstract view of the tables.
abbrev pub view : Tables → Roster
view t = record {
  plays = λ g p. plays_in g p t.participations;
  guests = λ g p. guests_by g p t.guests;
}

pub Roster-ext :
    (a b : Roster)
    → ((g p : ℕ) → a.plays g p ≡ b.plays g p)
    → ((g p : ℕ) → a.guests g p ≡ b.guests g p)
    → a ≡ b
Roster-ext a b h k =
    let plays : a.plays ≡ b.plays = fun_ext (λ g. fun_ext (h g)) in
    let guests : a.guests ≡ b.guests = fun_ext (λ g. fun_ext (k g)) in
    λ i. record { plays = plays i; guests = guests i }

set_status-left :
    (game player : ℕ) (ps : List Participation)
    → plays_in game player (set_status game player false ps) ≡ false
unfolding plays_in set_status
set_status-left game player [] = refl
set_status-left game player (p ∷ ps) = ground (arith, set_status-left game player ps)

set_status-joined :
    (game player : ℕ) (ps : List Participation)
    → has_row game player ps ≡ true
    → plays_in game player (set_status game player true ps) ≡ true
unfolding plays_in set_status
set_status-joined game player [] h = cc
set_status-joined game player (p ∷ ps) h = ground (arith, set_status-joined game player ps)

set_status-other :
    (game player g q : ℕ) (b : Bool) (ps : List Participation)
    → same game player g q ≡ false
    → plays_in g q (set_status game player b ps) ≡ plays_in g q ps
unfolding plays_in set_status
set_status-other game player g q b [] h = refl
set_status-other game player g q b (p ∷ ps) h =
    ground (arith, set_status-other game player g q b ps h)

plays_in-append :
    (g q : ℕ) (ps : List Participation) (p : Participation)
    → plays_in g q (ps ++ p ∷ []) ≡ (plays_in g q ps || (is_row g q p && p.registered))
unfolding plays_in
plays_in-append g q [] p = ground arith
plays_in-append g q (x ∷ ps) p = ground (arith, plays_in-append g q ps p)

plays_in-none :
    (g q : ℕ) (ps : List Participation) → has_row g q ps ≡ false → plays_in g q ps ≡ false
unfolding plays_in
plays_in-none g q [] h = refl
plays_in-none g q (p ∷ ps) h = ground (arith, plays_in-none g q ps)

same_cases :
    (game player g q : ℕ)
    → ((same game player g q ≡ true) × (g ≡ game) × (q ≡ player)) ⊎ (same game player g q ≡ false)
same_cases game player g q = ground arith

put_new :
    (game player g q : ℕ) (b : Bool) (ps : List Participation)
    → has_row game player ps ≡ false
    → plays_in g q (put_participation game player b ps)
      ≡ (plays_in g q ps || (same g q game player && b))
unfolding put_participation
put_new game player g q b ps h =
    rw h (plays_in-append g q ps (record { game_id = game; player_id = player; registered = b }))

put_old :
    (game player : ℕ) (b : Bool) (ps : List Participation)
    → has_row game player ps ≡ true
    → put_participation game player b ps ≡ set_status game player b ps
unfolding put_participation
put_old game player b ps h = rw h refl

pub put-joined :
    (game player g q : ℕ) (ps : List Participation)
    → plays_in g q (put_participation game player true ps)
      ≡ (same game player g q || plays_in g q ps)
put-joined game player g q ps = elim (Bool-cases (has_row game player ps)) [
  | inr r ↦ rw (put_new game player g q true ps r) (ground arith)
  | inl r ↦ rw (put_old game player true ps r) (elim (same_cases game player g q) [
    | inl (s, eg, eq) ↦ rw s (rw (eg, eq) (set_status-joined game player ps r))
    | inr s ↦ rw s (set_status-other game player g q true ps s)
  ])
]

pub put-left :
    (game player g q : ℕ) (ps : List Participation)
    → plays_in g q (put_participation game player false ps)
      ≡ (not (same game player g q) && plays_in g q ps)
put-left game player g q ps = elim (Bool-cases (has_row game player ps)) [
  | inr r ↦ elim (same_cases game player g q) [
    | inl (s, eg, eq) ↦
        let out : plays_in g q ps ≡ false = plays_in-none g q ps (rw (eg, eq) r) in
        rw (put_new game player g q false ps r) (ground (arith, out))
    | inr s ↦ rw (put_new game player g q false ps r) (ground arith)
  ]
  | inl r ↦ rw (put_old game player false ps r) (elim (same_cases game player g q) [
    | inl (s, eg, eq) ↦ rw s (rw (eg, eq) (set_status-left game player ps))
    | inr s ↦ rw s (set_status-other game player g q false ps s)
  ])
]

pub delete_rows-left :
    (game player g q : ℕ) (ps : List Participation)
    → plays_in g q (delete_rows game player ps) ≡ (not (same game player g q) && plays_in g q ps)
unfolding plays_in delete_rows
delete_rows-left game player g q [] = ground arith
delete_rows-left game player g q (p ∷ ps) = ground (arith, delete_rows-left game player g q ps)

pub is_registered-of_game :
    (game player : ℕ) (ps : List Participation)
    → is_registered player (of_game game ps) ≡ plays_in game player ps
unfolding plays_in
is_registered-of_game game player [] = refl
is_registered-of_game game player (p ∷ ps) = ground (arith, is_registered-of_game game player ps)

pub guests_by-append :
    (g q : ℕ) (gs : List Guest) (x : Guest)
    → guests_by g q (gs ++ x ∷ []) ≡ (if is_guest g q x then 1 else 0) + guests_by g q gs
unfolding guests_by
guests_by-append g q [] x = omega arith
guests_by-append g q (y ∷ gs) x = omega (arith, guests_by-append g q gs x)

-- The first guest that `f` accepts.
abbrev pub first : (Guest → Bool) → List Guest → Option Guest
first f [] = none
first f (g ∷ gs) = if f g then some g else first f gs

pub first-holds :
    (f : Guest → Bool) (gs : List Guest) (x : Guest) → first f gs ≡ some x → f x ≡ true
first-holds f [] x h = cc
first-holds f (g ∷ gs) x h = ground (arith, first-holds f gs x)

pub guests_by-delete_first :
    (g q : ℕ) (f : Guest → Bool) (gs : List Guest) (x : Guest)
    → first f gs ≡ some x
    → guests_by g q gs ≡ (if is_guest g q x then 1 else 0) + guests_by g q (delete_first f gs)
unfolding guests_by delete_first
guests_by-delete_first g q f [] x h = cc
guests_by-delete_first g q f (y ∷ gs) x h = elim (Bool-cases (f y)) [
  | inl e ↦ let found : some y ≡ some x = rw e at h in let is : y ≡ x = cc in rw (e, is) refl
  | inr e ↦ rw e (omega (arith, guests_by-delete_first g q f gs x (rw e at h)))
]
