-- ===== src/Games/Booked.antt =====
-- BookGameCourts of cmd/management/service/game_service.go over the modelled bookFreeCourts. What the
-- repositories and the booking service answer are arguments; the edit of the chat message is left
-- out.
use squash_bot.Prelude.{
  ℕ, ◌≡◌, ◌⊎◌, inl, inr, refl, Option, none, some, Bool, ◌&&◌, not, List, [], length, is_nil,
  if◌then◌else◌, ℤ, arith,
}
use squash_bot.Prelude.Text.{Text, join}
use squash_bot.Courts.Free.{BookingCourt}
use squash_bot.Booking.Credentials.{DecryptedCredential}
use squash_bot.Booking.Rotation.{
  Reply, Run, Failure, HardError, Outcome, book_free_courts, hard_error, result,
}
use squash_bot.Results.{Lookup}
use squash_bot.Venues.{Venue}
use squash_bot.Venues.Tables.{Tables as VenueTables}
use squash_bot.Games.{GameRow, Game, scan_game_with_venue, join_venue, joined_venue}
use squash_bot.Games.Courts.{booked_courts}

-- The game's instant in its group's time zone.
pub record LocalTime : Type 0 where
  pub is_midnight : Bool
  pub date : Text
  pub time : Text

-- What the calls of one request answer. `has_result` is whether an automatic booking of the slot is
-- found; `save_ok` whether a new one is saved, when its repository is there.
pub record Replies : Type 0 where
  pub parse_in_location : Text → Bool
  pub credentials : Option (List DecryptedCredential)
  pub courts : Option (List BookingCourt)
  pub slots : Option (List ℤ)
  pub matches : List Reply
  pub update_ok : Bool
  pub has_results : Bool
  pub has_result : Bool
  pub save_ok : Bool

-- BookGameCourtsResult, with what the call wrote: the game's courts, the new row of
-- auto_booking_results, and the number of booked courts in the audit row.
pub record BookResult : Type 0 where
  pub labels : List Text
  pub failures : List Failure
  pub courts : Option (Text × ℕ)
  pub saved : Option (Text × ℕ)
  pub audited : Option ℕ

pub data BookError : Type 0 where
  game_not_found fetch_game not_available time_unset : BookError
  booking : HardError → BookError
  -- the error that comes with a result
  update_courts : BookResult → BookError

-- The row of auto_booking_results for a slot that has none.
saved_result : Replies → List Text → Option (Text × ℕ)
saved_result r labels =
    if r.has_results && not r.has_result && r.save_ok
    then some (join labels b',', length labels)
    else none

-- What follows when at least one court was booked.
after_booking : Replies → Text → Run → BookError ⊎ BookResult
unfolding saved_result
after_booking r game_courts run =
    if is_nil run.booked_labels
    then inr (record {
      labels = [];
      failures = run.failures;
      courts = none;
      saved = none;
      audited = none;
    })
    else if r.update_ok
    then inr (record {
      labels = run.booked_labels;
      failures = run.failures;
      courts = booked_courts game_courts run.booked_labels;
      saved = saved_result r run.booked_labels;
      audited = some (length run.booked_labels);
    })
    else inl (
        update_courts (record {
          labels = run.booked_labels;
          failures = run.failures;
          courts = none;
          saved = none;
          audited = none;
        }))

with_outcome : Replies → Text → Outcome → BookError ⊎ BookResult
unfolding after_booking
with_outcome r game_courts (hard_error e) = inl (booking e)
with_outcome r game_courts (result run) = after_booking r game_courts run

-- The call of bookFreeCourts for the game's venue and time.
book_slot : Replies → LocalTime → ℕ → Venue → Outcome
book_slot r t count v =
    book_free_courts r.parse_in_location v.courts v.auto_booking_courts t.date t.time count
      r.credentials r.courts r.slots r.matches

-- A venue that books automatically, while the booking service is configured.
bookable : Bool → Option Venue → Option Venue
bookable has_client none = none
bookable has_client (some v) = if v.auto_booking_enabled && has_client then some v else none

-- BookGameCourts
pub book_game_courts : Bool → Replies → LocalTime → ℕ → Lookup Game → BookError ⊎ BookResult
unfolding bookable book_slot with_outcome
book_game_courts has_client r t count Lookup.failed = inl fetch_game
book_game_courts has_client r t count Lookup.missing = inl game_not_found
book_game_courts has_client r t count (Lookup.found g) = elim (bookable has_client g.venue) [
  | none ↦ inl not_available
  | some v ↦
      if t.is_midnight then inl time_unset else with_outcome r g.row.courts (book_slot r t count v)
]

joined_never :
    (has_client : Bool) (id : Option ℕ) (t : VenueTables)
    → bookable has_client (join_venue id t) ≡ none
unfolding bookable join_venue joined_venue
joined_never has_client none t = refl
joined_never has_client (some id) t = ground arith

-- A game as GetByID reads it is never booked for: its venue comes without the flag that enables
-- automatic booking, so that the call ends with ErrAutoBookingNotAvailable for every venue.
pub book_game_courts_never :
    (has_client : Bool) (r : Replies) (local : LocalTime) (count : ℕ) (g : GameRow)
    (t : VenueTables)
    → book_game_courts has_client r local count (Lookup.found (scan_game_with_venue g t))
      ≡ inl BookError.not_available
unfolding book_game_courts scan_game_with_venue
book_game_courts_never has_client r local count g t =
    rw (joined_never has_client g.venue_id t, book_game_courts) refl
