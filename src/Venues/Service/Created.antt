-- ===== src/Venues/Service/Created.antt =====
-- CreateVenue of cmd/management/service/venue_service.go: that an acceptable venue is stored, with
-- its sports, and read back.
use squash_bot.Prelude.{◌≡◌, refl, true, false, [], arith}
use squash_bot.Store.{World}
use squash_bot.Store.Calm.{Succeeds, bind-Succeeds, pure-Succeeds}
use squash_bot.Sports.{squash}
use squash_bot.Venues.{Venue, courts_of, settled, fill_sports, is_fraction, validate_fraction}
use squash_bot.Venues.Accepted.{
  IsAcceptable, validate_venue_iff, settled-IsAcceptable, settled-sports,
}
use squash_bot.Venues.Tables.{Tables, has_group, name_taken}
use squash_bot.Venues.Service.{ServiceError, or_invalid, checked, create_venue}
use squash_bot.Venues.Service.Rows.{IsTables}
use squash_bot.Venues.Service.Stored.{IsStored, repo_create-Succeeds}

-- Filling in the sports keeps the other fields.
fill_sports-rest :
    (v : Venue)
    → ((fill_sports v).fraction ≡ v.fraction)
      × ((fill_sports v).group_id ≡ v.group_id)
      × ((fill_sports v).name ≡ v.name)
unfolding fill_sports
fill_sports-rest v = ground arith

settled-rest :
    (v : Venue)
    → ((settled v).fraction ≡ v.fraction)
      × ((settled v).group_id ≡ v.group_id)
      × ((settled v).name ≡ v.name)
      × (courts_of (settled v).sports squash ≡ (settled v).courts)
unfolding settled
settled-rest v = let r = fill_sports-rest v in (r.0, r.1, r.2, refl)

-- The database has the venue's group, which has no venue of the name yet.
abbrev pub IsNew : Venue → Tables → Type 0
IsNew v t =
    (has_group v.group_id t.groups ≡ true)
    × (name_taken t.next_venue v.group_id v.name t.venues ≡ false)

-- A venue with a known fraction that validateVenue accepts, in a known group and with a name that
-- is new there, is created when the database does not fail: the answer is the settled venue with
-- its new id and its sports sorted, it is what a later read finds, and no other venue changes.
pub create_venue-IsStored :
    (v : Venue) (w : World Tables (Unit {0}))
    → w.down ≡ []
    → is_fraction v.fraction ≡ true
    → IsAcceptable (fill_sports v)
    → IsNew v w.db
    → IsTables w.db
    → Succeeds (IsStored (settled v) w.db) (create_venue v w)
unfolding create_venue or_invalid checked validate_fraction
create_venue-IsStored v w calm f a new ok =
    let r = settled-rest v in
    let e = (validate_venue_iff v).1 a in
    let b = settled-IsAcceptable v a in
    let known : is_fraction (settled v).fraction ≡ true = rw r.0 f in
    let there : IsNew (settled v) w.db = (rw r.1 new.0, rw (r.1, r.2) new.1) in
    rw (f, e)
      (bind-Succeeds (λ (_ : Unit {0}) t. t ≡ w.db) (IsStored (settled v) w.db) _ _ w
        (pure-Succeeds ServiceError (λ (_ : Unit {0}) t. t ≡ w.db) tt w calm refl)
        λ _ v1 h1 c1.
          bind-Succeeds (λ u t. (u ≡ settled v) × (t ≡ w.db)) (IsStored (settled v) w.db) _ _ v1
            (pure-Succeeds ServiceError (λ u t. (u ≡ settled v) × (t ≡ w.db)) (settled v) v1 c1
              (refl, h1))
            λ u v2 h2 c2.
              rw (h2.0, ← h2.1)
                (repo_create-Succeeds (settled v) v2 c2 known r.3 (rw (settled-sports v) a.0) b.1
                  (rw h2.1 there.0) (rw h2.1 there.1) (rw h2.1 ok)))
