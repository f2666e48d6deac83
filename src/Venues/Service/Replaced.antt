-- ===== src/Venues/Service/Replaced.antt =====
-- VenueRepo.Update of cmd/management/storage/venue_repo.go: the tables behind its transaction.
use squash_bot.Prelude.{
  ℕ, ◌≡◌, ◌≢◌, inl, inr, refl, sym, ap, ◌∙◌, some, Bool, true, false, List, [], ◌∷◌, append-nil,
  ◌==◌, arith, Bool-cases, ==_iff,
}
use squash_bot.Prelude.Int.{eqb_ℤ}
use squash_bot.Store.{World, pure}
use squash_bot.Store.Hoare.{After, Settled, After-map, stmt-After, bind-After, in_tx-Settled}
use squash_bot.Store.Checks.{require-After}
use squash_bot.Venues.{VenueSport, Venue}
use squash_bot.Venues.Tables.{
  VenueRow, SportRow, Tables, find_venue, insert_sport, sport_allowed, name_taken,
}
use squash_bot.Store.{pure, raise}
use squash_bot.Venues.Service.{
  ServiceError, insert_venue_sports, Written, updated_row, has_row, update_rows, update_venue_row,
  without_sports, after_update, update_in_tx, update_one,
}
use squash_bot.Venues.Service.Inserts.{sport_rows, with_sports, with_sports-cons}

-- What the INSERT of a sport leaves.
abbrev Inserted : ℕ → VenueSport → Tables → Bool → Tables → Type 0
Inserted id s t true new = new ≡ with_sports t (sport_rows id (s ∷ []))
Inserted id s t false new = new ≡ t

insert_sport-Inserted :
    (id : ℕ) (s : VenueSport) (t : Tables)
    → Inserted id s t (insert_sport id s t).0 (insert_sport id s t).1
unfolding insert_sport
insert_sport-Inserted id s t = elim (Bool-cases (sport_allowed id s t)) [
  | inl e ↦ rw e refl
  | inr e ↦ rw e refl
]

pub insert_venue_sports-After :
    (id : ℕ) (ss : List VenueSport) (w : World Tables (Unit {0}))
    → After (λ _ t. t ≡ with_sports w.db (sport_rows id ss)) (insert_venue_sports id ss w)
unfolding insert_venue_sports
insert_venue_sports-After id [] w =
    unfold pure in
    ap {A = List SportRow} {B = Tables} (λ l. record w.db { sports = l })
      (sym (append-nil w.db.sports))
insert_venue_sports-After id (s ∷ ss) w =
    let Q : Unit {0} → Tables → Type 0 = λ _ t. t ≡ with_sports w.db (sport_rows id (s ∷ ss)) in
    let first = with_sports w.db (sport_rows id (s ∷ [])) in
    bind-After (Inserted id s w.db) Q _ _ w
      (stmt-After (Inserted id s w.db) ServiceError.database _ w (insert_sport-Inserted id s w.db))
      λ ok v h.
        bind-After (λ (_ : Unit {0}) t. t ≡ first) Q _ _ v
          (require-After (λ _ t. t ≡ first) ok ServiceError.violation v (λ e. rw e at h))
          λ _ u k.
            After-map (λ _ t. t ≡ with_sports u.db (sport_rows id ss)) Q _
              (λ _ t e.
                e
                ∙ (ap (λ x. with_sports x (sport_rows id ss)) k
                    ∙ with_sports-cons w.db _ (sport_rows id ss)))
              (insert_venue_sports-After id ss u)

-- The tables after the UPDATE of the row, and after its sports are replaced.
abbrev pub with_update : Venue → Tables → Tables
with_update v t = record t { venues = update_rows v t.venues }

abbrev pub replaced : Venue → Tables → Tables
replaced v t =
    with_sports
      (record t { venues = update_rows v t.venues; sports = without_sports v.id t.sports })
      (sport_rows v.id v.sports)

-- The row is the group's, the name is free, and the tables are those of a step of the update.
abbrev pub Reached : Venue → Tables → Tables → Tables → Type 0
Reached v old stage new =
    (has_row v.id v.group_id old.venues ≡ true)
    × (name_taken v.id v.group_id v.name old.venues ≡ false)
    × (new ≡ stage)

-- What UPDATE answers, and the tables behind it.
abbrev Answered : Venue → Tables → Written → Tables → Type 0
Answered v t Written.violated new = Unit
Answered v t (Written.rows false) new = Unit
Answered v t (Written.rows true) new = Reached v t (with_update v t) new

update_venue_row-true :
    (v : Venue) (t : Tables)
    → has_row v.id v.group_id t.venues ≡ true
    → name_taken v.id v.group_id v.name t.venues ≡ false
    → update_venue_row v t ≡ (Written.rows true, with_update v t)
unfolding update_venue_row
update_venue_row-true v t e f = rw (e, f) refl

update_venue_row-Answered :
    (v : Venue) (t : Tables) → Answered v t (update_venue_row v t).0 (update_venue_row v t).1
unfolding update_venue_row
update_venue_row-Answered v t = go _ refl _ refl
  where
    go :
        (b : Bool)
        → has_row v.id v.group_id t.venues ≡ b
        → (n : Bool) → name_taken v.id v.group_id v.name t.venues ≡ n
        → Answered v t (update_venue_row v t).0 (update_venue_row v t).1
    go false e n f = rw (e, update_venue_row) tt
    go true e true f = rw (e, f, update_venue_row) tt
    go true e false f =
        let h : Reached v t (with_update v t) (with_update v t) = (e, f, refl) in
        rw (update_venue_row-true v t e f) h

after_update-After :
    (v : Venue) (t : Tables) (r : Written) (w : World Tables (Unit {0}))
    → Answered v t r w.db
    → After (λ _ new. Reached v t (with_update v t) new) (after_update r w)
unfolding after_update
after_update-After v t Written.violated w h = unfold raise in tt
after_update-After v t (Written.rows false) w h = unfold raise in tt
after_update-After v t (Written.rows true) w h = unfold pure in h

pub update_in_tx-Settled :
    (v : Venue) (w : World Tables (Unit {0}))
    → Settled w.db (λ _ new. Reached v w.db (replaced v w.db) new) (update_in_tx v w)
unfolding update_in_tx
update_in_tx-Settled v w =
    let Q : Unit {0} → Tables → Type 0 = λ _ new. Reached v w.db (replaced v w.db) new in
    let cleared : Tables = record w.db {
      venues = update_rows v w.db.venues;
      sports = without_sports v.id w.db.sports;
    } in
    in_tx-Settled Q _ _ _ w λ v0 same.
      bind-After (Answered v w.db) Q _ _ v0
        (stmt-After (Answered v w.db) ServiceError.database _ v0
          (rw same (update_venue_row-Answered v w.db)))
        λ r v1 h1.
          bind-After (λ (_ : Unit {0}) t. Reached v w.db (with_update v w.db) t) Q _ _ v1
            (after_update-After v w.db r v1 h1)
            λ _ v2 h2.
              bind-After (λ (_ : Unit {0}) t. Reached v w.db cleared t) Q _ _ v2
                (stmt-After (λ (_ : Unit {0}) t. Reached v w.db cleared t) ServiceError.database _
                  v2 (h2.0, h2.1, rw h2.2 refl))
                λ _ v3 h3.
                  After-map (λ _ t. t ≡ with_sports v3.db (sport_rows v.id v.sports)) Q _
                    (λ _ t e.
                      (h3.0, h3.1, e ∙ ap (λ x. with_sports x (sport_rows v.id v.sports)) h3.2))
                    (insert_venue_sports-After v.id v.sports v3)

update_one-id : (v : Venue) (r : VenueRow) → (update_one v r).id ≡ r.id
unfolding update_one updated_row
update_one-id v r = ground arith

update_one-row :
    (v : Venue) (r : VenueRow)
    → r.id ≡ v.id
    → eqb_ℤ r.group_id v.group_id ≡ true
    → update_one v r ≡ updated_row v r
unfolding update_one
update_one-row v r i g = rw (g, (==_iff r.id v.id).1 i) refl

update_one-other : (v : Venue) (r : VenueRow) → (r.id == v.id) ≡ false → update_one v r ≡ r
unfolding update_one
update_one-other v r e = rw e refl

pub find_venue-update :
    (v : Venue) (rs : List VenueRow) (r : VenueRow)
    → find_venue v.id rs ≡ some r
    → eqb_ℤ r.group_id v.group_id ≡ true
    → find_venue v.id (update_rows v rs) ≡ some (updated_row v r)
unfolding update_rows updated_row
find_venue-update v [] r h g = cc
find_venue-update v (x ∷ rs) r h g = elim (Bool-cases (x.id == v.id)) [
  | inl e ↦
      let i = (==_iff x.id v.id).0 e in
      let same : some x ≡ some r = rw e at h in
      let is : x ≡ r = cc in
      rw (update_one-id v x, e, update_one-row v x i (rw is g))
        (ap (λ y. some (updated_row v y)) is)
  | inr e ↦ rw (update_one-id v x, e) (find_venue-update v rs r (rw e at h) g)
]

pub find_venue-update_other :
    (v : Venue) (j : ℕ) (rs : List VenueRow)
    → j ≢ v.id
    → find_venue j (update_rows v rs) ≡ find_venue j rs
unfolding update_rows
find_venue-update_other v j [] n = refl
find_venue-update_other v j (x ∷ rs) n = elim (Bool-cases (x.id == v.id)) [
  | inl e ↦
      let i = (==_iff x.id v.id).0 e in
      let other : (x.id == j) ≡ false = ground arith in
      rw (update_one-id v x, other) (find_venue-update_other v j rs n)
  | inr e ↦ rw (update_one-other v x e, find_venue-update_other v j rs n) refl
]
