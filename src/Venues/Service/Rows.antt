-- ===== src/Venues/Service/Rows.antt =====
-- The rows that VenueRepo.Create of cmd/management/storage/venue_repo.go writes.
use mathlib.Core.List.{Perm}
use squash_bot.Venues.Service.Inserts.{
  sport_rows, AllNew, with_sports, insert_venue_sports-Succeeds,
}
use squash_bot.Sports.{squash}
use squash_bot.Prelude.{
  ℕ, ◌≡◌, refl, ap, ◌∙◌, none, some, true, false, List, [], ◌∷◌, ◌++◌, arith, All, ◌<◌, ◌≢◌, ◌+◌,
  Bool-cases, inl, inr,
}
use mathlib.Core.List.Perm
use squash_bot.Prelude.Text.{Text, text_ops, codes}
use squash_bot.Store.{World}
use squash_bot.Store.Calm.{
  Succeeds, stmt-Succeeds, bind-Succeeds, Succeeds-map, in_tx-Succeeds, pure-Succeeds,
}
use squash_bot.Store.Checks.{or_raise-Succeeds}
use squash_bot.Venues.{VenueSport, Venue, is_fraction, courts_of}
use squash_bot.Venues.Accepted.{AreSports}
use squash_bot.Venues.Tables.{
  SportRow, Tables, find_venue, has_sport, is_found, offers, has_group, new_row, insert_venue,
  sort_sports, venue_of, insert_sorted, text_le,
}
use squash_bot.Venues.Service.{
  ServiceError, create_in_tx, name_taken, VenueRow, coalesce, nullable_text,
}

-- The sequence is ahead of the venues that the rows name.
abbrev pub IsTables : Tables → Type 0
IsTables t =
    All (λ (v : VenueRow). v.id < t.next_venue) t.venues
    × All (λ (r : SportRow). r.venue_id < t.next_venue) t.sports

pub find_venue-append :
    (id : ℕ) (vs : List VenueRow) (r : VenueRow)
    → All (λ v. v.id < id) vs
    → r.id ≡ id
    → find_venue id (vs ++ r ∷ []) ≡ some r
find_venue-append id [] r h e = ground arith
find_venue-append id (v ∷ vs) r h e = ground (arith, find_venue-append id vs r h.1 e)

pub find_venue-append_other :
    (id j : ℕ) (vs : List VenueRow) (r : VenueRow)
    → r.id ≡ id
    → j ≢ id
    → find_venue j (vs ++ r ∷ []) ≡ find_venue j vs
find_venue-append_other id j [] r e n = ground arith
find_venue-append_other id j (v ∷ vs) r e n = ground (arith, find_venue-append_other id j vs r e n)

pub offers-below : (id : ℕ) (rs : List SportRow) → All (λ r. r.venue_id < id) rs → offers id rs ≡ []
offers-below id [] h = refl
offers-below id (r ∷ rs) h = ground (arith, offers-below id rs h.1)

pub offers-sport_rows_other :
    (id j : ℕ) (ss : List VenueSport) → j ≢ id → offers j (sport_rows id ss) ≡ []
offers-sport_rows_other id j [] h = refl
offers-sport_rows_other id j (s ∷ ss) h = ground (arith, offers-sport_rows_other id j ss h)

has_sport-below :
    (id : ℕ) (x : Text) (rs : List SportRow)
    → All (λ r. r.venue_id < id) rs
    → has_sport id x rs ≡ false
has_sport-below id x [] h = refl
has_sport-below id x (r ∷ rs) h = ground (arith, has_sport-below id x rs h.1)

AllNew-below :
    (id : ℕ) (rs : List SportRow) (ss : List VenueSport)
    → All (λ r. r.venue_id < id) rs
    → AllNew id rs ss
AllNew-below id rs [] h = tt
AllNew-below id rs (s ∷ ss) h = (has_sport-below id s.sport rs h, AllNew-below id rs ss h)

-- The tables after the INSERT of a row, and then of its sports.
abbrev with_row : Venue → Tables → Tables
with_row v t = record t {
  venues = t.venues ++ new_row t.next_venue t.now v ∷ [];
  next_venue = t.next_venue + 1;
}

abbrev pub with_venue : Venue → Tables → Tables
with_venue v t = with_sports (with_row v t) (sport_rows t.next_venue v.sports)

insert_venue-some :
    (v : Venue) (t : Tables)
    → has_group v.group_id t.groups ≡ true
    → name_taken t.next_venue v.group_id v.name t.venues ≡ false
    → insert_venue v t ≡ (some t.next_venue, with_row v t)
unfolding insert_venue
insert_venue-some v t g n = rw (g, n) refl

is_found-row :
    (v : Venue) (t : Tables)
    → IsTables t
    → is_found (find_venue t.next_venue (with_row v t).venues) ≡ true
is_found-row v t ok = ap is_found (
    find_venue-append t.next_venue t.venues (new_row t.next_venue t.now v) ok.0
      (unfold new_row in refl))

pub create_in_tx-Succeeds :
    (v : Venue) (w : World Tables (Unit {0}))
    → w.down ≡ []
    → AreSports v.sports
    → has_group v.group_id w.db.groups ≡ true
    → name_taken w.db.next_venue v.group_id v.name w.db.venues ≡ false
    → IsTables w.db
    → Succeeds (λ id t. (id ≡ w.db.next_venue) × (t ≡ with_venue v w.db)) (create_in_tx v w)
unfolding create_in_tx
create_in_tx-Succeeds v w calm a g n ok =
    let Q : ℕ → Tables → Type 0 = λ id t. (id ≡ w.db.next_venue) × (t ≡ with_venue v w.db) in
    let inserted = insert_venue-some v w.db g n in
    in_tx-Succeeds Q _ _ _ w calm λ v0 same c0.
      bind-Succeeds (λ r t. (r ≡ some w.db.next_venue) × (t ≡ with_row v w.db)) Q _ _ v0
        (stmt-Succeeds _ ServiceError.database (insert_venue v) v0 c0
          (rw same (ap (λ r. r.0) inserted, ap (λ r. r.1) inserted)))
        λ r v1 h1 c1.
          bind-Succeeds (λ id t. (id ≡ w.db.next_venue) × (t ≡ with_row v w.db)) Q _ _ v1
            (or_raise-Succeeds (λ id t. (id ≡ w.db.next_venue) × (t ≡ with_row v w.db)) r
              w.db.next_venue ServiceError.violation v1 c1 h1.0 (refl, h1.1))
            λ id v2 h2 c2.
              bind-Succeeds (λ (_ : Unit {0}) t. t ≡ with_venue v w.db) Q _ _ v2
                (Succeeds-map (λ _ t. t ≡ with_sports v2.db (sport_rows id v.sports))
                  (λ _ t. t ≡ with_venue v w.db) _
                  (λ _ t e.
                    e
                    ∙ (ap (λ x. with_sports x (sport_rows id v.sports)) h2.1
                        ∙ ap (λ i. with_sports (with_row v w.db) (sport_rows i v.sports)) h2.0))
                  (insert_venue_sports-Succeeds id v.sports v2 c2
                    (rw (h2.1, h2.0) (is_found-row v w.db ok)) a
                    (rw (h2.1, h2.0) (AllNew-below w.db.next_venue w.db.sports v.sports ok.1))))
                λ _ v3 h3 c3. pure-Succeeds ServiceError Q id v3 c3 (h2.0, h3)

-- The venue as it is read back: with its id and time, no reminders yet, and the sports sorted.
abbrev pub as_stored : ℕ → ℕ → Venue → Venue
as_stored id now v = record v {
  id = id;
  created_at = now;
  sports = sort_sports v.sports;
  last_booking_reminder_at = none;
  last_auto_booking_at = none;
}

nullable_text-coalesce : (s : Text) → coalesce (nullable_text s) [] ≡ s
nullable_text-coalesce [] = refl
nullable_text-coalesce (c ∷ s) = refl

fraction-coalesce : (s : Text) → is_fraction s ≡ true → coalesce (nullable_text s) (codes "1/2") ≡ s
unfolding is_fraction text_ops
fraction-coalesce [] h = cc
fraction-coalesce (c ∷ s) h = refl

pub venue_of-new_row :
    (id now : ℕ) (v : Venue)
    → is_fraction v.fraction ≡ true
    → courts_of v.sports squash ≡ v.courts
    → venue_of v.sports (new_row id now v) ≡ as_stored id now v
unfolding venue_of new_row
venue_of-new_row id now v f c =
    rw (c, nullable_text-coalesce v.address, fraction-coalesce v.fraction f) refl

insert_sorted-Perm : (s : VenueSport) (ss : List VenueSport) → Perm (insert_sorted s ss) (s ∷ ss)
insert_sorted-Perm s [] = Perm.refl (s ∷ [])
insert_sorted-Perm s (t ∷ ts) = elim (Bool-cases (text_le s.sport t.sport)) [
  | inl e ↦ rw e (Perm.refl (s ∷ t ∷ ts))
  | inr e ↦ rw e (Perm.trans (Perm.cons t (insert_sorted-Perm s ts)) (Perm.swap s t ts))
]

pub sort_sports-Perm : (ss : List VenueSport) → Perm (sort_sports ss) ss
sort_sports-Perm [] = Perm.refl []
sort_sports-Perm (s ∷ ss) =
    Perm.trans (insert_sorted-Perm s (sort_sports ss)) (Perm.cons s (sort_sports-Perm ss))
