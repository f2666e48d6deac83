-- ===== src/Venues.antt =====
-- Venues: internal/models/venue.go, and what cmd/management/service/venue_service.go accepts of one.
pub mod Accepted
pub mod Tables
pub mod Service
mod Tests
use squash_bot.Prelude.{
  ℕ, ◌⊎◌, inl, inr, Option, none, some, Bool, true, false, ◌&&◌, ◌||◌, not, List, [], ◌∷◌, map,
  is_nil, if◌then◌else◌, ℤ, pos,
}
use squash_bot.Prelude.Int.{ltb_ℤ}
use squash_bot.Prelude.Text.{Text, text_eq, codes, split, trim_space, atoi}
use squash_bot.Prelude.Text.Sets.{member}
use squash_bot.Sports
use squash_bot.Sports.{squash}

-- IsPreventiveCancellationFraction
unfoldable pub is_fraction : Text → Bool
is_fraction value =
    text_eq value (codes "1/3") || text_eq value (codes "1/2") || text_eq value (codes "2/3")

pub record VenueSport : Type 0 where
  pub sport : Text
  pub courts : Text
  pub players_per_court : Option ℤ

-- Venue. An instant is a number.
pub record Venue : Type 0 where
  pub id : ℕ
  pub group_id : ℤ
  pub name : Text
  pub courts : Text
  pub sports : List VenueSport
  pub time_slots : Text
  pub address : Text
  pub created_at : ℕ
  pub grace_period_hours : ℤ
  pub game_days : Text
  pub booking_opens_days : ℤ
  pub fraction : Text
  pub last_booking_reminder_at : Option ℕ
  pub preferred_game_times : Text
  pub last_auto_booking_at : Option ℕ
  pub auto_booking_enabled : Bool
  pub auto_booking_courts : Text
  pub auto_booking_courts_count : ℤ

-- The loop of CourtsFor.
unfoldable pub courts_of : List VenueSport → Text → Text
courts_of [] sport = []
courts_of (v ∷ vs) sport =
    let rest = courts_of vs sport in if text_eq v.sport sport then v.courts else rest

-- CourtsFor
abbrev pub courts_for : Venue → Text → Text
courts_for v sport = courts_of v.sports sport

-- What ErrInvalidVenue wraps.
pub data VenueError : Type 0 where
  bad_fraction no_sport needs_squash : VenueError
  bad_sport bad_players unlisted_time not_integer duplicate_court : Text → VenueError

-- `if err := a; err != nil { return err }` before `b`.
pub or_else : Option VenueError → Option VenueError → Option VenueError
or_else none b = b
or_else (some e) b = some e

-- The loop over the preferred times, and `slotSet`.
pub check_times : List Text → List Text → Option VenueError
check_times slots [] = none
check_times slots (t ∷ ts) =
    let rest = check_times slots ts in
    if is_nil (trim_space t)
    then rest
    else if member (trim_space t) slots
    then rest
    else some (unlisted_time (trim_space t))

-- The keys of `slotSet`.
unfoldable pub slot_set : Text → List Text
slot_set time_slots = map trim_space (split time_slots b',')

-- validatePreferredGameTimes
unfoldable pub validate_preferred_game_times : Text → Text → Option VenueError
validate_preferred_game_times preferred time_slots =
    if is_nil preferred then none else check_times (slot_set time_slots) (split preferred b',')

-- Whether strconv.Atoi accepts the string.
unfoldable pub is_integer : Text → Bool
is_integer c = elim (atoi c) [ none ↦ false | some n ↦ true ]

-- The loop of validateAutoBookingCourts.
pub check_courts : List Text → List Text → Option VenueError
check_courts seen [] = none
check_courts seen (p ∷ ps) =
    let c = trim_space p in
    let skip = check_courts seen ps in
    let rest = check_courts (c ∷ seen) ps in
    if is_nil c
    then skip
    else if not (is_integer c)
    then some (not_integer c)
    else if member c seen
    then some (duplicate_court c)
    else rest

-- validateAutoBookingCourts
unfoldable pub validate_auto_booking_courts : Text → Option VenueError
validate_auto_booking_courts courts =
    if is_nil courts then none else check_courts [] (split courts b',')

-- validatePreventiveCancellationFraction
unfoldable pub validate_fraction : Text → Option VenueError
validate_fraction value = if is_fraction value then none else some bad_fraction

-- The test of PlayersPerCourt that is an error.
unfoldable pub bad_number : Text → Option ℤ → Bool
bad_number sport none = false
bad_number sport (some n) =
    ltb_ℤ n (pos 1) || ltb_ℤ (pos (Sports.get sport).max_players_per_court) n

-- The loop over venue.Sports.
pub check_sports : List Text → List VenueSport → Option VenueError
check_sports seen [] = none
check_sports seen (v ∷ vs) =
    let rest = check_sports (v.sport ∷ seen) vs in
    if not (Sports.valid v.sport) || is_nil v.courts || member v.sport seen
    then some (bad_sport v.sport)
    else if bad_number v.sport v.players_per_court
    then some (bad_players v.sport)
    else rest

-- A request of the old form names the squash courts only.
unfoldable pub fill_sports : Venue → Venue
fill_sports v =
    if is_nil v.sports && not (is_nil v.courts)
    then record v {
      sports = record { sport = squash; courts = v.courts; players_per_court = none } ∷ [];
    }
    else v

-- The names of the sports: `seen` behind the loop.
abbrev pub sport_names : List VenueSport → List Text
sport_names vs = map (λ v. v.sport) vs

-- The errors of a venue whose sports are filled in, in the order of the checks.
unfoldable pub venue_error : Venue → Option VenueError
venue_error v = or_else (if is_nil v.sports then some no_sport else none) (
    or_else (check_sports [] v.sports) (
      or_else
        (if v.auto_booking_enabled && not (member squash (sport_names v.sports))
          then some needs_squash
          else none)
        (or_else (validate_preferred_game_times v.preferred_game_times v.time_slots)
          (validate_auto_booking_courts v.auto_booking_courts))))

-- The venue as validateVenue leaves it: the default sport, and the courts derived from the sports.
unfoldable pub settled : Venue → Venue
settled v = record (fill_sports v) { courts = courts_for (fill_sports v) squash }

-- validateVenue; its caller drops the venue on an error.
unfoldable pub validate_venue : Venue → VenueError ⊎ Venue
unfolding venue_error
validate_venue v = elim (venue_error (fill_sports v)) [ some e ↦ inl e | none ↦ inr (settled v) ]
