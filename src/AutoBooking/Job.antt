-- ===== src/AutoBooking/Job.antt =====
-- The loops of cmd/management/service/auto_booking.go over the times of a venue, and over groups and
-- their venues. The lists of groups and of venues are what the reads answer, and the clock of a
-- time zone is an argument.
pub mod Once
use squash_bot.Prelude.{
  ℕ, zero, suc, ◌+◌, ◌-◌, ◌*◌, ◌/◌, ◌%◌, ◌^◌, ◌≤◌, ◌<◌, min, ◌≡◌, ◌≢◌, ◌⊎◌, ◌↔◌, inl, inr, refl,
  sym, ap, ◌∙◌, Option, none, some, Bool, true, false, ◌&&◌, ◌||◌, not, List, [], ◌∷◌, ◌++◌, map,
  append_assoc, append-nil, length, length-append, take, ltb, leb, is_nil, ◌==◌, if◌then◌else◌, ℤ,
  pos, negsuc, arith, Bool-cases, Option-cases, All, All-append, All-map, ==_iff, ltb→lt, lt→ltb,
  leb→le, String,
}
use squash_bot.Prelude.Int.{eqb_ℤ, pos_part}
use squash_bot.Prelude.Text.{Text, text_eq, trim_space, split, itoa}
use squash_bot.Store.{World, pure, attempt, ◌>>=◌}
use squash_bot.Sports.{squash}
use squash_bot.Courts.Labels.{split_preferred_times}
use squash_bot.Venues.{Venue, courts_for}
use squash_bot.Venues.Tables.{VenueRow}
use squash_bot.AutoBooking.State.{AutoBookingResult, State, Job, find_result}
use squash_bot.AutoBooking.Slot.{GameDate, Answers, process_time_slot}

-- Group
pub record Group : Type 0 where
  pub chat_id : ℤ
  pub timezone : Text
  pub auto_booking_allowed : Bool

-- time.Now() in a time zone: the hour and the minute, and the date some days on, with its weekday.
pub record Clock : Type 0 where
  pub hour : ℕ
  pub minute : ℕ
  pub weekday_after : ℤ → ℕ
  pub date_after : ℤ → GameDate

-- What the other services answer in the n-th round of booking.
abbrev pub Services : Type 0
Services = ℕ → Answers

-- containsDay
pub contains_part : Text → List Text → Bool
contains_part day [] = false
contains_part day (p ∷ ps) = text_eq (trim_space p) day || contains_part day ps

pub contains_day : Text → ℕ → Bool
unfolding contains_part
contains_day game_days day = contains_part (itoa (pos day)) (split game_days b',')

mark_row : ℕ → ℕ → VenueRow → VenueRow
mark_row now id v = if v.id == id then record v { last_auto_booking_at = some now } else v

-- SetLastAutoBookingAt
set_last_auto_booking_at : ℕ → State → Unit {0} × State
unfolding mark_row
set_last_auto_booking_at id t =
    let v = t.game_tables.venue_tables in
    (
      tt,
      record t {
        game_tables = record t.game_tables {
          venue_tables = record v { venues = map (mark_row v.now id) v.venues };
        };
      },
    )

mark_if : ℕ → Bool → Job Bool
unfolding set_last_auto_booking_at
mark_if id false = pure false
mark_if id true = attempt (set_last_auto_booking_at id) >>= λ _. pure true

-- The guards of processAutoBookingForVenue.
pub may_book : Venue → Bool
may_book venue =
    venue.auto_booking_enabled
    && (is_nil venue.sports || not (is_nil (courts_for venue squash)))
    && not (eqb_ℤ venue.auto_booking_courts_count (pos 0))

pub is_due : Venue → Clock → Bool
unfolding contains_day
is_due venue clock =
    not (is_nil venue.game_days || is_nil venue.preferred_game_times || is_nil venue.courts)
    && contains_day venue.game_days (clock.weekday_after venue.booking_opens_days)

-- resolveGroupTimezone
pub resolve_group_timezone : (Text → Option Text) → Text → Text → Text
resolve_group_timezone load_location loc timezone =
    if is_nil timezone then loc else elim (load_location timezone) [ none ↦ loc | some l ↦ l ]

-- Whether the group is to be handled now.
pub fires : Bool → Group → Clock → Bool
fires force g c = g.auto_booking_allowed && (force || (c.hour == 0 && ltb c.minute 5))

module _ (services : Services) where
  -- The slot, unless a result is there or cannot be looked up.
  pub unless_done : ℤ → Venue → GameDate → Text → ℕ → Option (Option AutoBookingResult) → Job Bool
  unless_done chat venue date time target none = pure false
  unless_done chat venue date time target (some (some r)) = pure false
  unless_done chat venue date time target (some none) =
      λ w. process_time_slot (services (length w.db.rounds)) chat venue date time target w

  -- for _, gameTime := range times
  pub time_loop : ℤ → Venue → GameDate → ℕ → List Text → Job Bool
  unfolding unless_done
  time_loop chat venue date target [] = pure false
  time_loop chat venue date target (time ∷ times) =
      attempt (λ t. (find_result venue.id date.day time t.results, t))
      >>= unless_done chat venue date time target
      >>= λ b. time_loop chat venue date target times >>= λ c. pure (b || c)

  -- processAutoBookingForVenue
  pub process_auto_booking_for_venue : ℤ → Venue → Clock → Job Bool
  unfolding time_loop mark_if may_book
  process_auto_booking_for_venue chat venue clock =
      if may_book venue
      then (time_loop chat venue (clock.date_after venue.booking_opens_days)
            (pos_part venue.auto_booking_courts_count)
            (split_preferred_times venue.preferred_game_times)
          >>= mark_if venue.id)
      else pure false

  -- for _, venue := range venues; how many were booked
  pub venue_loop : ℤ → Clock → List Venue → Job ℕ
  unfolding process_auto_booking_for_venue is_due
  venue_loop chat clock [] = pure 0
  venue_loop chat clock (venue ∷ venues) =
      (if is_due venue clock then process_auto_booking_for_venue chat venue clock else pure false)
      >>= λ b. venue_loop chat clock venues >>= λ n. pure ((if b then 1 else 0) + n)

module _ (services : Services) (load_location : Text → Option Text) (loc : Text)
    (clock : Text → Clock) (venues_of : ℤ → Option (List Venue)) where
  with_venues : ℤ → Clock → Option (List Venue) → Job ℕ
  unfolding venue_loop
  with_venues chat c none = pure 0
  with_venues chat c (some venues) = venue_loop services chat c venues

  -- for _, g := range groups
  pub group_loop : Bool → List Group → Job ℕ
  unfolding resolve_group_timezone fires with_venues
  group_loop force [] = pure 0
  group_loop force (g ∷ gs) =
      let c = clock (resolve_group_timezone load_location loc g.timezone) in
      (if fires force g c then with_venues g.chat_id c (venues_of g.chat_id) else pure 0) >>= λ n.
      group_loop force gs >>= λ m. pure (n + m)

  -- runAutoBooking: the number of venues that were booked; `has_client` is whether the booking
  -- service is there.
  pub run_auto_booking : Bool → Bool → Option (List Group) → Job ℕ
  unfolding group_loop
  run_auto_booking has_client force none = pure 0
  run_auto_booking has_client force (some groups) =
      if has_client then group_loop force groups else pure 0
