-- ===== src/Venues/Service/Deleted.antt =====
-- DeleteVenue of cmd/management/service/venue_service.go: what it deletes, and what it keeps.
use squash_bot.Prelude.{
  ℕ, ◌≡◌, ◌≢◌, inl, inr, refl, sym, ◌∙◌, Bool, true, false, not, List, [], ◌∷◌, ◌==◌, if◌then◌else◌,
  ℤ, arith, Bool-cases, ap,
}
use squash_bot.Prelude.Text.{Text}
use squash_bot.Store.{World}
use squash_bot.Store.Hoare.{Settled, stmt-Settled, bind-Settled, Settled-from, Settled-map}
use squash_bot.Store.Checks.{require-Settled}
use squash_bot.Venues.Tables.{
  VenueRow, SportRow, BookingRow, Tables, find_venue, offers, venue_by_id, scan_venue,
}
use squash_bot.Venues.Service.{
  ServiceError, has_row, without_venue, without_sports, without_bookings, delete_row, repo_delete,
  has_active_by_venue_id, delete_venue,
}

has_row-without :
    (id : ℕ) (g : ℤ) (rs : List VenueRow) → has_row id g (without_venue id g rs) ≡ false
has_row-without id g [] = refl
has_row-without id g (r ∷ rs) = ground (arith, has_row-without id g rs)

find_venue-without :
    (id j : ℕ) (g : ℤ) (rs : List VenueRow)
    → j ≢ id
    → find_venue j (without_venue id g rs) ≡ find_venue j rs
find_venue-without id j g [] h = refl
find_venue-without id j g (r ∷ rs) h = ground (arith, find_venue-without id j g rs h)

pub offers-without : (id : ℕ) (rs : List SportRow) → offers id (without_sports id rs) ≡ []
offers-without id [] = refl
offers-without id (r ∷ rs) = ground (arith, offers-without id rs)

pub offers-without_other :
    (id j : ℕ) (rs : List SportRow) → j ≢ id → offers j (without_sports id rs) ≡ offers j rs
offers-without_other id j [] h = refl
offers-without_other id j (r ∷ rs) h = ground (arith, offers-without_other id j rs h)

-- The bookings of a venue.
abbrev bookings_of : ℕ → List BookingRow → List BookingRow
bookings_of id [] = []
bookings_of id (b ∷ bs) = if b.venue_id == id then b ∷ bookings_of id bs else bookings_of id bs

bookings_of-without : (id : ℕ) (bs : List BookingRow) → bookings_of id (without_bookings id bs) ≡ []
bookings_of-without id [] = refl
bookings_of-without id (b ∷ bs) = ground (arith, bookings_of-without id bs)

bookings_of-without_other :
    (id j : ℕ) (bs : List BookingRow)
    → j ≢ id
    → bookings_of j (without_bookings id bs) ≡ bookings_of j bs
bookings_of-without_other id j [] h = refl
bookings_of-without_other id j (b ∷ bs) h = ground (arith, bookings_of-without_other id j bs h)

-- The row was there and is gone with its sports and bookings; the other venues are as they were.
pub record IsDeleted (id : ℕ) (group : ℤ) (old new : Tables) : Type 0 where
  pub was : has_row id group old.venues ≡ true
  pub gone : has_row id group new.venues ≡ false
  pub no_sports : offers id new.sports ≡ []
  pub no_bookings : bookings_of id new.bookings ≡ []
  pub venues_kept : (j : ℕ) → j ≢ id → venue_by_id j new ≡ venue_by_id j old
  pub bookings_kept : (j : ℕ) → j ≢ id → bookings_of j new.bookings ≡ bookings_of j old.bookings

-- What DELETE leaves behind its count of rows.
abbrev Deleted : ℕ → ℤ → Tables → Bool → Tables → Type 0
Deleted id group old true new = IsDeleted id group old new
Deleted id group old false new = new ≡ old

delete_row-Deleted :
    (id : ℕ) (group : ℤ) (t : Tables)
    → Deleted id group t (delete_row id group t).0 (delete_row id group t).1
unfolding delete_row
delete_row-Deleted id group t = elim (Bool-cases (has_row id group t.venues)) [
  | inr e ↦ rw e refl
  | inl e ↦ rw e (record {
    was = e;
    gone = has_row-without id group t.venues;
    no_sports = offers-without id t.sports;
    no_bookings = bookings_of-without id t.bookings;
    venues_kept = λ j h.
        unfold venue_by_id in
        ap (scan_venue (offers j (without_sports id t.sports)))
          (find_venue-without id j group t.venues h)
        ∙ ap (λ os. scan_venue os (find_venue j t.venues)) (offers-without_other id j t.sports h);
    bookings_kept = λ j h. bookings_of-without_other id j t.bookings h;
  })
]

repo_delete-Settled :
    (id : ℕ) (group : ℤ) (w : World Tables (Unit {0}))
    → Settled w.db (λ _ new. IsDeleted id group w.db new) (repo_delete id group w)
unfolding repo_delete
repo_delete-Settled id group w =
    bind-Settled w.db (Deleted id group w.db) (λ _ new. IsDeleted id group w.db new) _ _ w
      (stmt-Settled (Deleted id group w.db) ServiceError.database _ w
        (delete_row-Deleted id group w.db))
      (λ ok v h.
        require-Settled w.db (λ _ new. IsDeleted id group w.db new) ok ServiceError.not_found v
          (λ e. rw e at h) (λ e. rw e at h))

not-true : (b : Bool) → not b ≡ true → b ≡ false
not-true true h = cc
not-true false h = refl

module _ (today : Text → ℕ) (id : ℕ) (group : ℤ) where
  abbrev AfterCheck : Tables → Bool → Tables → Type 0
  AfterCheck old active new = (new ≡ old) × (active ≡ has_active_by_venue_id today id old)

  -- Deleting a venue succeeds only when the venue is the group's and has no active booking. It
  -- then removes the row with its sports and bookings, and no other venue or booking; every error,
  -- also of the database, leaves the tables as they were.
  pub delete_venue_lem :
      (w : World Tables (Unit {0}))
      → Settled w.db
          (λ _ new. (has_active_by_venue_id today id w.db ≡ false) × IsDeleted id group w.db new)
          (delete_venue today id group w)
  unfolding delete_venue
  delete_venue_lem w =
      bind-Settled w.db (AfterCheck w.db)
        (λ _ new. (has_active_by_venue_id today id w.db ≡ false) × IsDeleted id group w.db new) _ _
        w (stmt-Settled (AfterCheck w.db) ServiceError.database _ w (refl, refl))
        (λ active v h.
          bind-Settled w.db (λ _ t. (t ≡ w.db) × (active ≡ false))
            (λ _ new. (has_active_by_venue_id today id w.db ≡ false) × IsDeleted id group w.db new)
            _ _ v
            (require-Settled w.db (λ _ t. (t ≡ w.db) × (active ≡ false)) (not active)
              ServiceError.active_bookings v (λ e. (h.0, not-true active e)) (λ e. h.0))
            (λ _ u k.
              Settled-from
                (λ _ new.
                  (has_active_by_venue_id today id w.db ≡ false) × IsDeleted id group w.db new)
                _ u.db w.db k.0
                (Settled-map (λ _ new. IsDeleted id group u.db new)
                  (λ _ new.
                    (has_active_by_venue_id today id w.db ≡ false) × IsDeleted id group w.db new)
                  _ u.db (λ _ new d. (sym h.1 ∙ k.1, rw k.0 at d))
                  (repo_delete-Settled id group u))))
