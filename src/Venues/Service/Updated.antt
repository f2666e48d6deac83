-- ===== src/Venues/Service/Updated.antt =====
-- UpdateVenue of cmd/management/service/venue_service.go: what a successful update says of the tables.
use squash_bot.Venues.Accepted.{validate_venue-filled}
use squash_bot.Prelude.{
  ℕ, ◌≡◌, ◌≢◌, ◌⊎◌, inl, inr, refl, ap, ◌∙◌, Option, none, some, true, false, [], ◌++◌, append-nil,
  is_nil, Bool-cases,
}
use squash_bot.Prelude.Int.{eqb_ℤ}
use squash_bot.Prelude.Text.{Text}
use squash_bot.Store.{World, ◌>>=◌, pure, continue}
use squash_bot.Store.Hoare.{After, After-map, Settled→After, stmt-After, bind-After}
use squash_bot.Store.Checks.{or_raise-After}
use squash_bot.Venues.{Venue, VenueError, validate_venue, is_fraction, validate_fraction}
use squash_bot.Venues.Tables.{
  VenueRow, Tables, find_venue, offers, scan_venue, venue_by_id, name_taken,
}
use squash_bot.Store.{pure, raise}
use squash_bot.Venues.Service.{
  ServiceError, updated_row, has_row, without_sports, get_by_id, with_sport, repo_update, checked,
  update_venue, with_fraction, or_invalid,
}
use squash_bot.Venues.Service.Deleted.{offers-without, offers-without_other}
use squash_bot.Venues.Service.Inserts.{sport_rows, offers-append, offers-sport_rows}
use squash_bot.Venues.Service.Rows.{offers-sport_rows_other}
use squash_bot.Venues.Service.Replaced.{
  update_in_tx-Settled, find_venue-update, find_venue-update_other, replaced, Reached,
}

-- The columns of the row that is left after an update of `r` with the settings `v`: an empty address
-- is stored as NULL, and an empty fraction keeps the old one.
pub record HasSettings (v : Venue) (r new : VenueRow) : Type 0 where
  pub name : new.name ≡ v.name
  pub time_slots : new.time_slots ≡ v.time_slots
  pub no_address : is_nil v.address ≡ true → new.address ≡ none
  pub some_address : is_nil v.address ≡ false → new.address ≡ some v.address
  pub grace_period_hours : new.grace_period_hours ≡ v.grace_period_hours
  pub game_days : new.game_days ≡ v.game_days
  pub booking_opens_days : new.booking_opens_days ≡ v.booking_opens_days
  pub old_fraction : is_nil v.fraction ≡ true → new.fraction ≡ r.fraction
  pub new_fraction : is_nil v.fraction ≡ false → new.fraction ≡ v.fraction
  pub preferred_game_times : new.preferred_game_times ≡ v.preferred_game_times
  pub auto_booking_enabled : new.auto_booking_enabled ≡ v.auto_booking_enabled
  pub auto_booking_courts : new.auto_booking_courts ≡ v.auto_booking_courts
  pub auto_booking_courts_count : new.auto_booking_courts_count ≡ v.auto_booking_courts_count
  pub id : new.id ≡ r.id
  pub group_id : new.group_id ≡ r.group_id
  pub created_at : new.created_at ≡ r.created_at
  pub last_booking_reminder_at : new.last_booking_reminder_at ≡ r.last_booking_reminder_at
  pub last_auto_booking_at : new.last_auto_booking_at ≡ r.last_auto_booking_at

updated_row-HasSettings : (v : Venue) (r : VenueRow) → HasSettings v r (updated_row v r)
unfolding updated_row
updated_row-HasSettings v r = record {
  name = refl;
  time_slots = refl;
  no_address = λ e. rw e refl;
  some_address = λ e. rw e refl;
  grace_period_hours = refl;
  game_days = refl;
  booking_opens_days = refl;
  old_fraction = λ e. rw e refl;
  new_fraction = λ e. rw e refl;
  preferred_game_times = refl;
  auto_booking_enabled = refl;
  auto_booking_courts = refl;
  auto_booking_courts_count = refl;
  id = refl;
  group_id = refl;
  created_at = refl;
  last_booking_reminder_at = refl;
  last_auto_booking_at = refl;
}

-- The group's row takes the new settings, the sports are replaced, and no other venue changes.
pub record IsUpdated (v : Venue) (old new : Tables) : Type 0 where
  pub was : has_row v.id v.group_id old.venues ≡ true
  pub name_free : name_taken v.id v.group_id v.name old.venues ≡ false
  pub row_updated :
      (r : VenueRow)
      → find_venue v.id old.venues ≡ some r
      → eqb_ℤ r.group_id v.group_id ≡ true
      → (n : VenueRow) × (find_venue v.id new.venues ≡ some n) × HasSettings v r n
  pub sports_replaced : offers v.id new.sports ≡ v.sports
  pub others_kept : (j : ℕ) → j ≢ v.id → venue_by_id j new ≡ venue_by_id j old

Reached-IsUpdated :
    (v : Venue) (old new : Tables) → Reached v old (replaced v old) new → IsUpdated v old new
Reached-IsUpdated v old new (was, free, same) =
    let rows = sport_rows v.id v.sports in
    let kept = without_sports v.id old.sports in
    rw same (record {
      was = was;
      name_free = free;
      row_updated = λ r found own. (
        updated_row v r,
        find_venue-update v old.venues r found own,
        updated_row-HasSettings v r,
      );
      sports_replaced =
          offers-append v.id kept rows
          ∙ (ap (λ l. l ++ offers v.id rows) (offers-without v.id old.sports)
              ∙ offers-sport_rows v.id v.sports);
      others_kept = λ j n.
          unfold venue_by_id in
          ap (scan_venue (offers j (kept ++ rows))) (find_venue-update_other v j old.venues n)
          ∙ ap (λ os. scan_venue os (find_venue j old.venues))
              (offers-append j kept rows
                ∙ (ap (λ l. offers j kept ++ l) (offers-sport_rows_other v.id j v.sports n)
                    ∙ (append-nil (offers j kept) ∙ offers-without_other v.id j old.sports n)));
    })

-- The fraction of a request; an empty one keeps that of the row.
abbrev pub requested : Option Text → Text
requested none = []
requested (some f) = f

-- The answer is what a read finds.
abbrev Shown : Venue → Tables → Venue → Tables → Type 0
Shown v old r new = IsUpdated v old new × (venue_by_id v.id new ≡ some r)

repo_update-After :
    (v : Venue) (w : World Tables (Unit {0}))
    → is_nil v.sports ≡ false
    → After (Shown v w.db) (repo_update v w)
unfolding repo_update with_sport get_by_id
repo_update-After v w filled = rw filled (
    bind-After (λ (_ : Unit {0}) t. IsUpdated v w.db t) (Shown v w.db) _ _ w
      (After-map (λ _ new. Reached v w.db (replaced v w.db) new)
        (λ (_ : Unit {0}) t. IsUpdated v w.db t) _ (λ _ t h. Reached-IsUpdated v w.db t h)
        (Settled→After w.db (λ _ new. Reached v w.db (replaced v w.db) new) _
          (update_in_tx-Settled v w)))
      λ _ v1 h1.
        bind-After (λ r t. IsUpdated v w.db t × (venue_by_id v.id t ≡ r)) (Shown v w.db) _ _ v1
          (stmt-After _ ServiceError.database _ v1 (h1, refl))
          λ r v2 h2.
            or_raise-After (Shown v w.db) r ServiceError.no_rows v2 (λ a e. (h2.0, h2.1 ∙ e)))

-- A fraction that a request may name.
abbrev pub IsAllowed : Option Text → Type 0
IsAllowed none = Unit
IsAllowed (some f) = is_fraction f ≡ true

with_fraction-After :
    (v : Venue) (fraction : Option Text) (w : World Tables (Unit {0}))
    → After
        (λ x t. IsAllowed fraction × (x ≡ record v { fraction = requested fraction }) × (t ≡ w.db))
        (with_fraction fraction v w)
unfolding with_fraction
with_fraction-After v none w = unfold pure in (tt, refl, refl)
with_fraction-After v (some f) w = elim (Bool-cases (is_fraction f)) [
  | inl e ↦ unfold ◌>>=◌ continue or_invalid validate_fraction pure in rw e (refl, refl, refl)
  | inr e ↦ unfold ◌>>=◌ continue or_invalid validate_fraction raise in rw e tt
]

checked-After :
    (r : VenueError ⊎ Venue) (w : World Tables (Unit {0}))
    → After (λ u t. (r ≡ inr u) × (t ≡ w.db)) (checked r w)
unfolding checked
checked-After (inl e) w = unfold raise in tt
checked-After (inr u) w = unfold pure in (refl, refl)

-- A successful update was of a venue that validateVenue accepts, with a known fraction or none:
-- the row with its id in its group took the settings, with an empty address as NULL and an empty
-- fraction as the old one, and kept its id, its group and its times; its sports are the new ones,
-- no other venue changed, and the answer is what a read finds.
pub update_venue_lem :
    (v : Venue) (fraction : Option Text) (w : World Tables (Unit {0}))
    → After
        (λ r new.
          IsAllowed fraction
          × ((u : Venue) × (validate_venue (record v { fraction = requested fraction }) ≡ inr u)
              × IsUpdated u w.db new
              × (venue_by_id u.id new ≡ some r)))
        (update_venue v fraction w)
unfolding update_venue
update_venue_lem v fraction w =
    let x = record v { fraction = requested fraction } in
    let Q : Venue → Tables → Type 0 = λ r new.
      IsAllowed fraction
      × ((u : Venue) × (validate_venue x ≡ inr u)
          × IsUpdated u w.db new
          × (venue_by_id u.id new ≡ some r)) in
    bind-After (λ y t. IsAllowed fraction × (y ≡ x) × (t ≡ w.db)) Q _ _ w
      (with_fraction-After v fraction w)
      λ y v1 h1.
        bind-After (λ u t. (validate_venue y ≡ inr u) × (t ≡ v1.db)) Q _ _ v1
          (checked-After (validate_venue y) v1)
          λ u v2 h2.
            After-map (Shown u v2.db) Q _
              (λ r t h. (h1.0, (u, rw h1.1 at h2.0, rw (h2.1 ∙ h1.2) at h.0, h.1)))
              (repo_update-After u v2 (validate_venue-filled y u h2.0))
