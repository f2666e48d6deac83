-- ===== src/AutoBooking/State.antt =====
-- What the job of cmd/management/service/auto_booking.go changes, with the statements of
-- cmd/management/storage/auto_booking_result_repo.go.
pub mod History
use squash_bot.Prelude.{
  ℕ, zero, suc, ◌+◌, ◌-◌, ◌*◌, ◌/◌, ◌%◌, ◌^◌, ◌≤◌, ◌<◌, min, ◌≡◌, ◌≢◌, ◌⊎◌, ◌↔◌, inl, inr, refl,
  sym, ap, ◌∙◌, Option, none, some, Bool, true, false, ◌&&◌, ◌||◌, not, List, [], ◌∷◌, ◌++◌, map,
  append_assoc, append-nil, length, length-append, take, ltb, leb, is_nil, ◌==◌, if◌then◌else◌, ℤ,
  pos, negsuc, arith, Bool-cases, Option-cases, All, All-append, All-map, ==_iff, ltb→lt, lt→ltb,
  leb→le, String,
}
use squash_bot.Prelude.Text.{Text, text_eq, cut, join, atoi}
use squash_bot.Store.{World, Prog, pure, attempt, effect, ◌>>=◌}
use squash_bot.Sports
use squash_bot.Sports.{squash}
use squash_bot.Courts.Free.{BookingCourt}
use squash_bot.Booking.Credentials.{DecryptedCredential}
use squash_bot.Booking.Rotation.{
  Reply, Call, Run, Failure, HardError, Outcome, no_free_courts, credential_failed, exhausted,
  book_free_courts, hard_error, result,
}
use squash_bot.Venues.{VenueSport, Venue}
use squash_bot.Games.{GameRow, insert_game, Tables as GameTables}
use squash_bot.AutoBooking.Notify.{
  Admin, Notice, Dm, notify, success, fail_dm, no_credentials, cred_error, cred_exhausted,
  game_create_failed,
}

-- AutoBookingResult; a date is a number of days.
pub record AutoBookingResult : Type 0 where
  pub id : ℕ
  pub venue_id : ℕ
  pub game_date : ℕ
  pub game_time : Text
  pub courts : Text
  pub courts_count : ℕ
  pub game_id : Option ℕ

-- One run of bookFreeCourts for a slot, and whether its result was saved.
pub record Round : Type 0 where
  pub venue_id : ℕ
  pub game_date : ℕ
  pub game_time : Text
  pub calls : List Call
  pub saved : Bool

-- The database, the messages that were sent, and the rounds of booking, the latest first.
pub record State : Type 0 where
  pub game_tables : GameTables
  pub results : List AutoBookingResult
  pub next_result : ℕ
  pub sent : List Dm
  pub rounds : List Round

-- An error that the job meets is only logged.
abbrev pub Job : Type 0 → Type 0
Job A = Prog State (Unit {0}) ⊥ A

abbrev pub is_slot : ℕ → ℕ → Text → AutoBookingResult → Bool
is_slot venue date time r = r.venue_id == venue && r.game_date == date && text_eq r.game_time time

-- GetByVenueAndDateAndTime
abbrev pub find_result : ℕ → ℕ → Text → List AutoBookingResult → Option AutoBookingResult
find_result venue date time [] = none
find_result venue date time (r ∷ rs) =
    let rest = find_result venue date time rs in if is_slot venue date time r then some r else rest

save_new : Option AutoBookingResult → ℕ → ℕ → Text → Text → ℕ → State → ℕ × State
save_new (some r) venue date time courts count t = (r.id, t)
save_new none venue date time courts count t = (
  t.next_result,
  record t {
    results =
        t.results
        ++ record {
          id = t.next_result;
          venue_id = venue;
          game_date = date;
          game_time = time;
          courts = courts;
          courts_count = count;
          game_id = none;
        }
          ∷ [];
    next_result = t.next_result + 1;
  },
)

-- Save: an insert that leaves a row of the slot as it is, and answers its id.
unfoldable pub save : ℕ → ℕ → Text → Text → ℕ → State → ℕ × State
unfolding save_new
save venue date time courts count t =
    save_new (find_result venue date time t.results) venue date time courts count t

-- SetGameID
unfoldable pub set_game_id : ℕ → ℕ → State → Unit {0} × State
set_game_id id game t = (
  tt,
  record t {
    results =
        map {B = AutoBookingResult}
          (λ r. if r.id == id then record r { game_id = some game } else r) t.results;
  },
)
