-- ===== src/Venues/Tables.antt =====
-- The tables that a venue's rows are in, and the statements of cmd/management/storage/venue_repo.go
-- on them, with the constraints of migrations/006_add_venues.up.sql and 036_add_sports.up.sql.
-- Deleting a venue also deletes its credentials and automatic bookings, which stand elsewhere.
use squash_bot.Prelude.{
  ℕ, ◌+◌, Option, none, some, Bool, true, false, ◌&&◌, ◌||◌, not, List, [], ◌∷◌, ◌++◌, ltb, is_nil,
  ◌==◌, if◌then◌else◌, ℤ, pos,
}
use squash_bot.Prelude.Int.{eqb_ℤ, ltb_ℤ}
use squash_bot.Prelude.Text.{Text, text_eq, codes}
use squash_bot.Sports
use squash_bot.Sports.{squash}
use squash_bot.Venues.{VenueSport, Venue, courts_of}

-- A row of venues. `none` is NULL.
pub record VenueRow : Type 0 where
  pub id : ℕ
  pub group_id : ℤ
  pub name : Text
  pub time_slots : Text
  pub address : Option Text
  pub created_at : ℕ
  pub grace_period_hours : ℤ
  pub game_days : Text
  pub booking_opens_days : ℤ
  pub fraction : Text
  pub last_booking_reminder_at : Option ℕ
  pub preferred_game_times : Text
  pub last_auto_booking_at : Option ℕ
  pub auto_booking_enabled : Bool
  pub auto_booking_courts : Text
  pub auto_booking_courts_count : ℤ

-- A row of venue_sports: the venue and the other columns.
pub record SportRow : Type 0 where
  pub venue_id : ℕ
  pub offer : VenueSport

-- What a row of court_bookings says of its venue and credential. A date is a number of days.
pub record BookingRow : Type 0 where
  pub venue_id : ℕ
  pub credential_id : Option ℕ
  pub game_date : ℕ
  pub canceled : Bool

pub record GroupRow : Type 0 where
  pub chat_id : ℤ
  pub timezone : Text

pub record Tables : Type 0 where
  pub groups : List GroupRow
  pub venues : List VenueRow
  pub sports : List SportRow
  pub bookings : List BookingRow
  pub next_venue : ℕ
  pub now : ℕ

abbrev pub find_venue : ℕ → List VenueRow → Option VenueRow
find_venue id [] = none
find_venue id (v ∷ vs) = if v.id == id then some v else find_venue id vs

abbrev pub has_group : ℤ → List GroupRow → Bool
has_group g [] = false
has_group g (r ∷ rs) = eqb_ℤ r.chat_id g || has_group g rs

-- Whether another venue than `id` has the name in the group.
abbrev pub name_taken : ℕ → ℤ → Text → List VenueRow → Bool
name_taken id g name [] = false
name_taken id g name (v ∷ vs) =
    (not (v.id == id) && eqb_ℤ v.group_id g && text_eq v.name name) || name_taken id g name vs

-- nullableText
abbrev pub nullable_text : Text → Option Text
nullable_text s = if is_nil s then none else some s

-- COALESCE(s, other)
abbrev pub coalesce : Option Text → Text → Text
coalesce none other = other
coalesce (some s) other = s

-- The row that Create inserts.
unfoldable pub new_row : ℕ → ℕ → Venue → VenueRow
new_row id now v = record {
  id = id;
  group_id = v.group_id;
  name = v.name;
  time_slots = v.time_slots;
  address = nullable_text v.address;
  created_at = now;
  grace_period_hours = v.grace_period_hours;
  game_days = v.game_days;
  booking_opens_days = v.booking_opens_days;
  fraction = coalesce (nullable_text v.fraction) (codes "1/2");
  last_booking_reminder_at = none;
  preferred_game_times = v.preferred_game_times;
  last_auto_booking_at = none;
  auto_booking_enabled = v.auto_booking_enabled;
  auto_booking_courts = v.auto_booking_courts;
  auto_booking_courts_count = v.auto_booking_courts_count;
}

-- INSERT INTO venues … RETURNING id; `none` when the group is missing or the name is taken.
unfoldable pub insert_venue : Venue → Tables → Option ℕ × Tables
unfolding new_row
insert_venue v t =
    if has_group v.group_id t.groups && not (name_taken t.next_venue v.group_id v.name t.venues)
    then (
      some t.next_venue,
      record t {
        venues = t.venues ++ new_row t.next_venue t.now v ∷ [];
        next_venue = t.next_venue + 1;
      },
    )
    else (none, t)

abbrev pub has_sport : ℕ → Text → List SportRow → Bool
has_sport id sport [] = false
has_sport id sport (r ∷ rs) =
    (r.venue_id == id && text_eq r.offer.sport sport) || has_sport id sport rs

abbrev pub positive : Option ℤ → Bool
positive none = true
positive (some n) = not (ltb_ℤ n (pos 1))

abbrev pub is_found : {A : Type 0} → Option A → Bool
is_found none = false
is_found (some a) = true

-- The constraints of venue_sports on a new row.
unfoldable pub sport_allowed : ℕ → VenueSport → Tables → Bool
sport_allowed id s t =
    is_found (find_venue id t.venues)
    && Sports.valid s.sport
    && positive s.players_per_court
    && not (has_sport id s.sport t.sports)

-- INSERT INTO venue_sports; false when a constraint fails.
unfoldable pub insert_sport : ℕ → VenueSport → Tables → Bool × Tables
unfolding sport_allowed
insert_sport id s t =
    if sport_allowed id s t
    then (true, record t { sports = t.sports ++ record { venue_id = id; offer = s } ∷ [] })
    else (false, t)

-- The sports of a venue, in the order of the table.
abbrev pub offers : ℕ → List SportRow → List VenueSport
offers id [] = []
offers id (r ∷ rs) = if r.venue_id == id then r.offer ∷ offers id rs else offers id rs

-- Whether `s` does not come behind `t`. The names of the sports are lower-case words, which every
-- collation sorts by their letters.
abbrev pub text_le : Text → Text → Bool
text_le [] t = true
text_le (c ∷ s) [] = false
text_le (c ∷ s) (d ∷ t) = ltb c d || (c == d && text_le s t)

abbrev pub insert_sorted : VenueSport → List VenueSport → List VenueSport
insert_sorted s [] = s ∷ []
insert_sorted s (t ∷ ts) = if text_le s.sport t.sport then s ∷ t ∷ ts else t ∷ insert_sorted s ts

-- jsonb_agg(… ORDER BY sport)
abbrev pub sort_sports : List VenueSport → List VenueSport
sort_sports [] = []
sort_sports (s ∷ ss) = insert_sorted s (sort_sports ss)

-- A row of the query of GetByID, as scanVenue reads it.
unfoldable pub venue_of : List VenueSport → VenueRow → Venue
venue_of sports r = record {
  id = r.id;
  group_id = r.group_id;
  name = r.name;
  courts = courts_of sports squash;
  sports = sort_sports sports;
  time_slots = r.time_slots;
  address = coalesce r.address [];
  created_at = r.created_at;
  grace_period_hours = r.grace_period_hours;
  game_days = r.game_days;
  booking_opens_days = r.booking_opens_days;
  fraction = r.fraction;
  last_booking_reminder_at = r.last_booking_reminder_at;
  preferred_game_times = r.preferred_game_times;
  last_auto_booking_at = r.last_auto_booking_at;
  auto_booking_enabled = r.auto_booking_enabled;
  auto_booking_courts = r.auto_booking_courts;
  auto_booking_courts_count = r.auto_booking_courts_count;
}

-- The row of a query, if there is one.
unfoldable pub scan_venue : List VenueSport → Option VenueRow → Option Venue
unfolding venue_of
scan_venue sports none = none
scan_venue sports (some r) = some (venue_of sports r)

-- The query of GetByID.
unfoldable pub venue_by_id : ℕ → Tables → Option Venue
venue_by_id id t = scan_venue (offers id t.sports) (find_venue id t.venues)
