-- ===== src/Venues/Service.antt =====
-- VenueRepo of cmd/management/storage/venue_repo.go and VenueService of
-- cmd/management/service/venue_service.go as programs on the tables.
pub mod Deleted
pub mod Inserts
pub mod Rows
pub mod Stored
pub mod Created
pub mod Replaced
pub mod Updated
use squash_bot.Prelude.{
  ℕ, ◌⊎◌, inl, inr, Option, none, some, Bool, true, false, ◌&&◌, ◌||◌, not, List, [], ◌∷◌, leb,
  is_nil, ◌==◌, if◌then◌else◌, ℤ,
}
use squash_bot.Prelude.Int.{eqb_ℤ}
use squash_bot.Prelude.Text.{Text, codes}
use squash_bot.Store.{require, or_raise, Prog, pure, raise, stmt, ◌>>=◌, in_tx}
use squash_bot.Sports.{squash}
use squash_bot.Venues.{VenueSport, Venue, VenueError, validate_fraction, validate_venue}
use squash_bot.Venues.Tables.{
  VenueRow, SportRow, BookingRow, GroupRow, Tables, find_venue, name_taken, nullable_text, coalesce,
  insert_venue, insert_sport, venue_by_id,
}

pub data ServiceError : Type 0 where
  invalid : VenueError → ServiceError
  database violation no_rows not_found active_bookings : ServiceError

-- The events of venues are recorded by the HTTP handlers.
abbrev pub VenueProg : Type 0 → Type 0
VenueProg A = Prog Tables (Unit {0}) ServiceError A

-- VenueRepo.GetByID
pub get_by_id : ℕ → VenueProg Venue
get_by_id id = stmt database (λ t. (venue_by_id id t, t)) >>= λ r. or_raise r no_rows

-- insertVenueSports
pub insert_venue_sports : ℕ → List VenueSport → VenueProg (Unit {0})
insert_venue_sports id [] = pure tt
insert_venue_sports id (s ∷ ss) = stmt database (insert_sport id s) >>= λ ok.
    require ok violation >>= λ _. insert_venue_sports id ss

-- `if len(venue.Sports) == 0` of Create and Update
pub with_sport : Venue → Venue
with_sport v =
    if is_nil v.sports
    then record v {
      sports = record { sport = squash; courts = v.courts; players_per_court = none } ∷ [];
    }
    else v

pub create_in_tx : Venue → VenueProg ℕ
create_in_tx v = in_tx database database (
    stmt database (insert_venue v) >>= λ r.
    or_raise r violation >>= λ id. insert_venue_sports id v.sports >>= λ _. pure id)

-- VenueRepo.Create
pub repo_create : Venue → VenueProg Venue
unfolding with_sport create_in_tx
repo_create v = create_in_tx (with_sport v) >>= get_by_id

-- What `UPDATE venues` did: a violated constraint, or whether a row was changed.
pub data Written : Type 0 where
  violated : Written
  rows : Bool → Written

pub updated_row : Venue → VenueRow → VenueRow
updated_row v r = record r {
  name = v.name;
  time_slots = v.time_slots;
  address = nullable_text v.address;
  grace_period_hours = v.grace_period_hours;
  game_days = v.game_days;
  booking_opens_days = v.booking_opens_days;
  fraction = coalesce (nullable_text v.fraction) r.fraction;
  preferred_game_times = v.preferred_game_times;
  auto_booking_enabled = v.auto_booking_enabled;
  auto_booking_courts = v.auto_booking_courts;
  auto_booking_courts_count = v.auto_booking_courts_count;
}

abbrev pub is_row_of : ℕ → ℤ → VenueRow → Bool
is_row_of id group r = r.id == id && eqb_ℤ r.group_id group

abbrev pub has_row : ℕ → ℤ → List VenueRow → Bool
has_row id group [] = false
has_row id group (r ∷ rs) = is_row_of id group r || has_row id group rs

pub update_one : Venue → VenueRow → VenueRow
update_one v r = if is_row_of v.id v.group_id r then updated_row v r else r

pub update_rows : Venue → List VenueRow → List VenueRow
update_rows v [] = []
update_rows v (r ∷ rs) = update_one v r ∷ update_rows v rs

-- UPDATE venues … WHERE id = $12 AND group_id = $13
pub update_venue_row : Venue → Tables → Written × Tables
unfolding update_rows
update_venue_row v t =
    if not (has_row v.id v.group_id t.venues)
    then (rows false, t)
    else if name_taken v.id v.group_id v.name t.venues
    then (violated, t)
    else (rows true, record t { venues = update_rows v t.venues })

abbrev pub without_sports : ℕ → List SportRow → List SportRow
without_sports id [] = []
without_sports id (r ∷ rs) =
    if r.venue_id == id then without_sports id rs else r ∷ without_sports id rs

pub after_update : Written → VenueProg (Unit {0})
after_update violated = raise violation
after_update (rows false) = raise no_rows
after_update (rows true) = pure tt

pub update_in_tx : Venue → VenueProg (Unit {0})
update_in_tx v = in_tx database database (
    stmt database (update_venue_row v) >>= λ r. after_update r >>= λ _.
    stmt database (λ t. (tt {0}, record t { sports = without_sports v.id t.sports })) >>= λ _.
    insert_venue_sports v.id v.sports)

-- VenueRepo.Update
pub repo_update : Venue → VenueProg Venue
unfolding with_sport update_in_tx
repo_update v = update_in_tx (with_sport v) >>= λ _. get_by_id v.id

abbrev pub without_venue : ℕ → ℤ → List VenueRow → List VenueRow
without_venue id group [] = []
without_venue id group (r ∷ rs) =
    if is_row_of id group r then without_venue id group rs else r ∷ without_venue id group rs

abbrev pub without_bookings : ℕ → List BookingRow → List BookingRow
without_bookings id [] = []
without_bookings id (b ∷ bs) =
    if b.venue_id == id then without_bookings id bs else b ∷ without_bookings id bs

-- DELETE FROM venues WHERE id = $1 AND group_id = $2, with ON DELETE CASCADE.
pub delete_row : ℕ → ℤ → Tables → Bool × Tables
delete_row id group t =
    if has_row id group t.venues
    then (
      true,
      record t {
        venues = without_venue id group t.venues;
        sports = without_sports id t.sports;
        bookings = without_bookings id t.bookings;
      },
    )
    else (false, t)

-- VenueRepo.Delete
pub repo_delete : ℕ → ℤ → VenueProg (Unit {0})
repo_delete id group = stmt database (delete_row id group) >>= λ ok. require ok not_found

or_invalid : Option VenueError → VenueProg (Unit {0})
or_invalid none = pure tt
or_invalid (some e) = raise (invalid e)

checked : VenueError ⊎ Venue → VenueProg Venue
checked (inl e) = raise (invalid e)
checked (inr v) = pure v

-- CreateVenue
pub create_venue : Venue → VenueProg Venue
unfolding or_invalid checked
create_venue v =
    or_invalid (validate_fraction v.fraction) >>= λ _. checked (validate_venue v) >>= repo_create

-- The fraction that UpdateVenue takes apart from the venue.
with_fraction : Option Text → Venue → VenueProg Venue
unfolding or_invalid
with_fraction none v = pure (record v { fraction = [] })
with_fraction (some f) v =
    or_invalid (validate_fraction f) >>= λ _. pure (record v { fraction = f })

-- UpdateVenue
pub update_venue : Venue → Option Text → VenueProg Venue
unfolding with_fraction checked
update_venue v fraction =
    with_fraction fraction v >>= λ u. checked (validate_venue u) >>= repo_update

abbrev find_group : ℤ → List GroupRow → Option GroupRow
find_group g [] = none
find_group g (r ∷ rs) = if eqb_ℤ r.chat_id g then some r else find_group g rs

-- COALESCE(NULLIF(bg.timezone, ''), 'UTC')
abbrev zone_of : GroupRow → Text
zone_of g = if is_nil g.timezone then codes "UTC" else g.timezone

-- `today` is the date in a time zone at this moment.
module _ (today : Text → ℕ) where
  -- A booking of the venue that is neither canceled nor past.
  abbrev pub is_active : ℕ → ℕ → BookingRow → Bool
  is_active id date b = b.venue_id == id && not b.canceled && leb date b.game_date

  abbrev pub any_active : ℕ → ℕ → List BookingRow → Bool
  any_active id date [] = false
  any_active id date (b ∷ bs) = is_active id date b || any_active id date bs

  -- The date in the venue's group, when the joins find both.
  abbrev pub venue_today : ℕ → Tables → Option ℕ
  venue_today id t = elim (find_venue id t.venues) [
    | none ↦ none
    | some v ↦ elim (find_group v.group_id t.groups) [
      | none ↦ none
      | some g ↦ some (today (zone_of g))
    ]
  ]

  -- HasActiveByVenueID
  pub has_active_by_venue_id : ℕ → Tables → Bool
  has_active_by_venue_id id t = elim (venue_today id t) [
    | none ↦ false
    | some date ↦ any_active id date t.bookings
  ]

  -- DeleteVenue
  pub delete_venue : ℕ → ℤ → VenueProg (Unit {0})
  delete_venue id group = stmt database (λ t. (has_active_by_venue_id id t, t)) >>= λ active.
      require (not active) active_bookings >>= λ _. repo_delete id group
