-- ===== src/Participation/Capacity.antt =====
-- AddGuest of cmd/management/storage/guest_repo.go: a game is never filled beyond its capacity.
use squash_bot.Prelude.{
  ℕ, ◌+◌, ◌≤◌, ◌≡◌, ◌⊎◌, inl, inr, refl, sym, ap, Option, none, some, Bool, true, false, List, [],
  ◌∷◌, ◌++◌, ltb, leb, ◌==◌, arith, Bool-cases,
}
use squash_bot.Store.{World, pure, raise, stmt, ◌>>=◌, in_tx}
use squash_bot.Store.Hoare.{Settled, After, stmt-After, bind-After, in_tx-Settled}
use squash_bot.Participation.{
  Tables, Guest, Stop, guest_count, capacity_of, occupancy_of, insert_guest, add_unless_full,
  add_in_tx, added_of, add_guest,
}

guest_count-append :
    (game : ℕ) (xs ys : List Guest)
    → guest_count game (xs ++ ys) ≡ guest_count game xs + guest_count game ys
guest_count-append game [] ys = omega arith
guest_count-append game (g ∷ xs) ys = omega (arith, guest_count-append game xs ys)

-- One guest more, in a game that had room.
pub record HasAdded (game inviter : ℕ) (old new : Tables) : Type 0 where
  pub capacity : ℕ
  pub known : capacity_of game old ≡ some capacity
  pub within : occupancy_of game new ≤ capacity
  pub one_more : occupancy_of game new ≡ occupancy_of game old + 1
  pub guests :
      new.guests
      ≡ old.guests ++ record { id = old.next_guest; game_id = game; invited_by = inviter } ∷ []
  pub others :
      (new.games ≡ old.games)
      × (new.participations ≡ old.participations)
      × (new.players ≡ old.players)

-- The outcome of AddGuest: an error or a refusal leaves the tables alone.
abbrev pub IsAdded : ℕ → ℕ → Tables → (Stop ⊎ Bool) × World Tables (Unit {0}) → Type 0
IsAdded game inviter old (inl e, w) = w.db ≡ old
IsAdded game inviter old (inr true, w) = HasAdded game inviter old w.db
IsAdded game inviter old (inr false, w) = w.db ≡ old

insert_guest-HasAdded :
    (game inviter capacity : ℕ) (t : Tables)
    → capacity_of game t ≡ some capacity
    → leb capacity (occupancy_of game t) ≡ false
    → HasAdded game inviter t (insert_guest game inviter t)
unfolding insert_guest
insert_guest-HasAdded game inviter capacity t e room =
    let fresh : Guest = record { id = t.next_guest; game_id = game; invited_by = inviter } in
    let more = guest_count-append game t.guests (fresh ∷ []) in
    let self : (game == game) ≡ true = ground arith in
    record {
      capacity = capacity;
      known = e;
      within = ground (arith, more, self, room);
      one_more = ground (arith, more, self);
      guests = refl;
      others = (refl, refl, refl);
    }

add_unless_full-After :
    (game inviter : ℕ) (old : Tables) (c : Option ℕ) (n : ℕ) (w : World Tables (Unit {0}))
    → w.db ≡ old
    → c ≡ capacity_of game old
    → n ≡ occupancy_of game old
    → After (λ _ t. HasAdded game inviter old t) (add_unless_full game inviter (c, n) w)
unfolding add_unless_full
add_unless_full-After game inviter old none n w s e o = unfold raise in tt
add_unless_full-After game inviter old (some c) n w s e o = elim (Bool-cases (leb c n)) [
  | inl b ↦ simp b (unfold raise in tt)
  | inr b ↦ simp b (
      stmt-After (λ _ t. HasAdded game inviter old t) Stop.database _ w
        (rw s (insert_guest-HasAdded game inviter c old (sym e) (rw o at b))))
]

add_in_tx-Settled :
    (game inviter : ℕ) (w : World Tables (Unit {0}))
    → Settled w.db (λ _ t. HasAdded game inviter w.db t) (add_in_tx game inviter w)
unfolding add_in_tx
add_in_tx-Settled game inviter w =
    in_tx-Settled (λ _ t. HasAdded game inviter w.db t) Stop.database Stop.database _ w
      (λ v same.
        bind-After (λ _ t. t ≡ w.db) (λ _ t. HasAdded game inviter w.db t) _ _ v
          (stmt-After (λ _ t. t ≡ w.db) Stop.database _ v same)
          (λ _ v1 s1.
            bind-After Counted (λ _ t. HasAdded game inviter w.db t) _
              (add_unless_full game inviter) v1
              (stmt-After Counted Stop.database _ v1
                (s1, (ap (capacity_of game) s1, ap (occupancy_of game) s1)))
              (λ (c, n) v2 (s2, (e, o)). add_unless_full-After game inviter w.db c n v2 s2 e o)))
  where
    Counted : Option ℕ × ℕ → Tables → Type 0
    Counted p t = (t ≡ w.db) × ((p.0 ≡ capacity_of game w.db) × (p.1 ≡ occupancy_of game w.db))

-- A guest is added only to a game with room, as one row more, and then players and guests are not
-- more than the capacity; a refusal or an error, wherever it comes from, leaves the tables as they
-- were.
pub add_guest_lem :
    (game inviter : ℕ) (w : World Tables (Unit {0}))
    → IsAdded game inviter w.db (add_guest game inviter w)
unfolding add_guest added_of
add_guest_lem game inviter w =
    go (add_in_tx game inviter w).0 (add_in_tx game inviter w).1 (add_in_tx-Settled game inviter w)
  where
    go :
        (r : Stop ⊎ Unit {0}) (v : World Tables (Unit {0}))
        → Settled w.db (λ _ t. HasAdded game inviter w.db t) (r, v)
        → IsAdded game inviter w.db (added_of r, v)
    go (inr u) v h = h
    go (inl Stop.full) v h = h
    go (inl Stop.database) v h = h
    go (inl Stop.no_rows) v h = h

-- If no statement fails, a guest is added to a known game exactly if players and guests are fewer
-- than its capacity.
pub add_guest_result :
    (game inviter capacity : ℕ) (t : Tables) (log : List (Unit {0}))
    → capacity_of game t ≡ some capacity
    → (add_guest game inviter (record { db = t; log = log; down = [] })).0
      ≡ inr (ltb (occupancy_of game t) capacity)
unfolding add_guest added_of add_in_tx in_tx stmt ◌>>=◌ add_unless_full raise pure
add_guest_result game inviter capacity t log e =
    elim (Bool-cases (leb capacity (occupancy_of game t))) [
      | inl b ↦
          let full : ltb (occupancy_of game t) capacity ≡ false = ground (arith, b) in
          rw (e, b, full) refl
      | inr b ↦
          let room : ltb (occupancy_of game t) capacity ≡ true = ground (arith, b) in
          rw (e, b, room) refl
    ]
