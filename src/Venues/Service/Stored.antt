-- ===== src/Venues/Service/Stored.antt =====
-- VenueRepo.Create of cmd/management/storage/venue_repo.go: the row of a new venue and those of its
-- sports are read back as the venue.
use mathlib.Core.List.{Perm}
use squash_bot.Venues.Service.Inserts.{sport_rows, offers-append, offers-sport_rows}
use squash_bot.Sports.{squash}
use squash_bot.Prelude.{
  ℕ, ◌≡◌, refl, ap, ◌∙◌, some, true, false, List, [], ◌∷◌, ◌++◌, append-nil, arith, All, ◌<◌, ◌≢◌,
  ◌+◌, All-append, All-map, is_nil,
}
use squash_bot.Store.{World}
use squash_bot.Store.Calm.{Succeeds, stmt-Succeeds, bind-Succeeds}
use squash_bot.Store.Checks.{or_raise-Succeeds}
use squash_bot.Venues.{VenueSport, Venue, is_fraction, courts_of}
use squash_bot.Venues.Accepted.{AreSports}
use squash_bot.Venues.Tables.{
  SportRow, Tables, find_venue, offers, has_group, new_row, scan_venue, venue_by_id,
}
use squash_bot.Venues.Service.{
  ServiceError, name_taken, VenueRow, venue_by_id, with_sport, repo_create, get_by_id,
}
use squash_bot.Venues.Service.Rows.{
  IsTables, find_venue-append, find_venue-append_other, offers-below, offers-sport_rows_other,
  with_venue, create_in_tx-Succeeds, as_stored, venue_of-new_row, sort_sports-Perm,
}

-- What the tables hold once a venue is stored.
pub record IsStored (v : Venue) (old : Tables) (r : Venue) (new : Tables) : Type 0 where
  pub answer : r ≡ as_stored old.next_venue old.now v
  pub same_sports : Perm r.sports v.sports
  pub readable : venue_by_id old.next_venue new ≡ some r
  pub others_kept : (j : ℕ) → j ≢ old.next_venue → venue_by_id j new ≡ venue_by_id j old
  pub well_formed : IsTables new

offers-with_venue :
    (v : Venue) (t : Tables) → IsTables t → offers t.next_venue (with_venue v t).sports ≡ v.sports
offers-with_venue v t ok =
    let rows = sport_rows t.next_venue v.sports in
    offers-append t.next_venue t.sports rows
    ∙ (ap (λ l. l ++ offers t.next_venue rows) (offers-below t.next_venue t.sports ok.1)
        ∙ offers-sport_rows t.next_venue v.sports)

with_venue-read :
    (v : Venue) (t : Tables)
    → IsTables t
    → is_fraction v.fraction ≡ true
    → courts_of v.sports squash ≡ v.courts
    → venue_by_id t.next_venue (with_venue v t) ≡ some (as_stored t.next_venue t.now v)
unfolding venue_by_id
with_venue-read v t ok f c =
    let row = new_row t.next_venue t.now v in
    ap (λ os. scan_venue os (find_venue t.next_venue (with_venue v t).venues))
      (offers-with_venue v t ok)
    ∙ (ap (scan_venue v.sports)
          (find_venue-append t.next_venue t.venues row ok.0 (unfold new_row in refl))
        ∙ (unfold scan_venue in ap some (venue_of-new_row t.next_venue t.now v f c)))

with_venue-others :
    (v : Venue) (t : Tables) (j : ℕ)
    → j ≢ t.next_venue
    → venue_by_id j (with_venue v t) ≡ venue_by_id j t
unfolding venue_by_id
with_venue-others v t j n =
    let rows = sport_rows t.next_venue v.sports in
    ap (scan_venue (offers j (with_venue v t).sports)) (
      find_venue-append_other t.next_venue j t.venues (new_row t.next_venue t.now v)
        (unfold new_row in refl) n)
    ∙ ap (λ os. scan_venue os (find_venue j t.venues))
        (offers-append j t.sports rows
          ∙ (ap (λ l. offers j t.sports ++ l) (offers-sport_rows_other t.next_venue j v.sports n)
              ∙ append-nil (offers j t.sports)))

sport_rows-below :
    (id n : ℕ) (ss : List VenueSport) → id < n → All (λ r. r.venue_id < n) (sport_rows id ss)
sport_rows-below id n [] h = tt
sport_rows-below id n (s ∷ ss) h = (h, sport_rows-below id n ss h)

with_venue-IsTables : (v : Venue) (t : Tables) → IsTables t → IsTables (with_venue v t)
with_venue-IsTables v t ok =
    let n = t.next_venue in
    (
      All-append (λ (u : VenueRow). u.id < n + 1) t.venues (new_row n t.now v ∷ [])
          (All-map (λ u. u.id < n) (λ u. u.id < n + 1) t.venues (λ u h. omega (arith, h)) ok.0)
          (unfold new_row in (omega arith, tt)),
      All-append (λ (r : SportRow). r.venue_id < n + 1) t.sports (sport_rows n v.sports)
          (All-map (λ r. r.venue_id < n) (λ r. r.venue_id < n + 1) t.sports
            (λ r h. omega (arith, h)) ok.1)
          (sport_rows-below n (n + 1) v.sports (omega arith)),
    )

pub repo_create-Succeeds :
    (v : Venue) (w : World Tables (Unit {0}))
    → w.down ≡ []
    → is_fraction v.fraction ≡ true
    → courts_of v.sports squash ≡ v.courts
    → is_nil v.sports ≡ false
    → AreSports v.sports
    → has_group v.group_id w.db.groups ≡ true
    → name_taken w.db.next_venue v.group_id v.name w.db.venues ≡ false
    → IsTables w.db
    → Succeeds (IsStored v w.db) (repo_create v w)
unfolding repo_create with_sport get_by_id
repo_create-Succeeds v w calm f c filled a g n ok = rw filled (
    bind-Succeeds (λ id t. (id ≡ w.db.next_venue) × (t ≡ with_venue v w.db)) (IsStored v w.db) _ _ w
      (create_in_tx-Succeeds v w calm a g n ok)
      λ id v1 h1 c1.
        bind-Succeeds
          (λ r t. (r ≡ some (as_stored w.db.next_venue w.db.now v)) × (t ≡ with_venue v w.db))
          (IsStored v w.db) _ _ v1
          (stmt-Succeeds _ ServiceError.database _ v1 c1
            (rw (h1.1, h1.0) (with_venue-read v w.db ok f c), h1.1))
          λ r v2 h2 c2.
            or_raise-Succeeds (IsStored v w.db) r (as_stored w.db.next_venue w.db.now v)
              ServiceError.no_rows v2 c2 h2.0
              (rw h2.1 (record {
                answer = refl;
                same_sports = sort_sports-Perm v.sports;
                readable = with_venue-read v w.db ok f c;
                others_kept = with_venue-others v w.db;
                well_formed = with_venue-IsTables v w.db ok;
              })))
