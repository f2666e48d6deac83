-- ===== src/AutoBooking/Slot.antt =====
-- The booking of one time slot: processTimeSlot and createUnpublishedGame of
-- cmd/management/service/auto_booking.go over the modelled bookFreeCourts. What the other services answer is an argument;
-- counts of courts are not negative, and log lines are left out.
pub mod Tidy
use squash_bot.Prelude.{
  ℕ, zero, suc, ◌+◌, ◌-◌, ◌*◌, ◌/◌, ◌%◌, ◌^◌, ◌≤◌, ◌<◌, min, ◌≡◌, ◌≢◌, ◌⊎◌, ◌↔◌, inl, inr, refl,
  sym, ap, ◌∙◌, Option, none, some, Bool, true, false, ◌&&◌, ◌||◌, not, List, [], ◌∷◌, ◌++◌, map,
  append_assoc, append-nil, length, length-append, take, ltb, leb, is_nil, ◌==◌, if◌then◌else◌, ℤ,
  pos, negsuc, arith, Bool-cases, Option-cases, All, All-append, All-map, ==_iff, ltb→lt, lt→ltb,
  leb→le, String,
}
use squash_bot.Prelude.Text.{Text, text_eq, cut, join, atoi}
use squash_bot.Store.{World, Prog, pure, attempt, effect, ◌>>=◌}
use squash_bot.Sports
use squash_bot.Sports.{squash}
use squash_bot.Courts.Free.{BookingCourt}
use squash_bot.Booking.Credentials.{DecryptedCredential}
use squash_bot.Booking.Rotation.{
  Reply, Call, Run, Failure, HardError, Outcome, no_free_courts, credential_failed, exhausted,
  book_free_courts, hard_error, result,
}
use squash_bot.Venues.{VenueSport, Venue}
use squash_bot.Games.{GameRow, insert_game, Tables as GameTables}
use squash_bot.AutoBooking.Notify.{
  Admin, Notice, Dm, notify, success, fail_dm, no_credentials, cred_error, cred_exhausted,
  game_create_failed,
}
use squash_bot.AutoBooking.State.{
  AutoBookingResult, Round, State, Job, find_result, save, set_game_id,
}

-- The slot's date: its day, its instant, and the instant of a time of that day in the group's time
-- zone.
pub record GameDate : Type 0 where
  pub day : ℕ
  pub text : Text
  pub instant : ℕ
  pub at_time : ℤ → ℤ → ℕ

-- What the other services answer for one slot. `has_games` is whether the job has the repository
-- of the games.
pub record Answers : Type 0 where
  pub parse_in_location : Text → Bool
  pub credentials : Option (List DecryptedCredential)
  pub courts : Option (List BookingCourt)
  pub slots : Option (List ℤ)
  pub matches : List Reply
  pub admins : Notice → Option (List Admin)
  pub cooldown : ℕ
  pub has_games : Bool

-- The messages of a notice.
pub tell : Answers → Notice → Job (Unit {0})
tell a n = effect (λ t. (tt, record t { sent = t.sent ++ notify n (a.admins n) }))

-- playersPerCourtFor
players_per_court_for : List VenueSport → Text → ℤ
players_per_court_for [] name = pos (Sports.get name).default_players_per_court
players_per_court_for (s ∷ ss) name =
    let rest = players_per_court_for ss name in
    elim s.players_per_court [ none ↦ rest | some n ↦ if text_eq s.sport name then n else rest ]

both : Option ℤ → Option ℤ → Option (ℤ × ℤ)
both none m = none
both (some h) none = none
both (some h) (some m) = some (h, m)

-- The hours and minutes of a game time.
clock_of : Text → Option (ℤ × ℤ)
unfolding both
clock_of time = elim (cut time b':') [ none ↦ none | some (h, m) ↦ both (atoi h) (atoi m) ]

-- gameDateWithTime
game_date_with_time : GameDate → Text → ℕ
unfolding clock_of
game_date_with_time date time = elim (clock_of time) [
  | none ↦ date.instant
  | some (h, m) ↦ date.at_time h m
]

unpublished_game : ℤ → Venue → GameDate → Text → Text → ℕ → GameRow
unfolding players_per_court_for game_date_with_time
unpublished_game chat venue date time courts count = record {
  id = 0;
  chat_id = chat;
  message_id = none;
  game_date = game_date_with_time date time;
  courts_count = count;
  courts = courts;
  sport = squash;
  players_per_court = players_per_court_for venue.sports squash;
  venue_id = some venue.id;
}

create : GameRow → State → ℕ × State
create g t = let r = insert_game g t.game_tables in (r.0, record t { game_tables = r.1 })

after_create : Answers → Venue → GameDate → Text → ℕ → Option ℕ → Job (Unit {0})
unfolding set_game_id tell
after_create a venue date time id none = tell a (game_create_failed venue.name date.day time)
after_create a venue date time id (some game) = attempt (set_game_id id game) >>= λ _. pure tt

-- createUnpublishedGame
create_unpublished_game : Answers → ℤ → Venue → GameDate → Text → Text → ℕ → ℕ → Job (Unit {0})
unfolding unpublished_game create after_create
create_unpublished_game a chat venue date time courts count id =
    if a.has_games
    then attempt (create (unpublished_game chat venue date time courts count))
      >>= after_create a venue date time id
    else pure tt

before_colon : Text → Text
before_colon login = elim (cut login b':') [ none ↦ login | some (l, rest) ↦ l ]

-- The notice of a failure; a login in its reason ends at the first colon.
notice_of : Answers → Venue → GameDate → Text → ℕ → ℕ → Failure → Notice
unfolding before_colon
notice_of a venue date time booked target (credential_failed login) =
    cred_error venue.name (before_colon login) a.cooldown
notice_of a venue date time booked target (exhausted n m) = cred_exhausted venue.name booked target
notice_of a venue date time booked target no_free_courts =
    fail_dm venue.name date.text time booked target

-- for _, f := range res.Failures
notify_failures : Answers → Venue → GameDate → Text → ℕ → ℕ → List Failure → Job (Unit {0})
unfolding notice_of tell
notify_failures a venue date time booked target [] = pure tt
notify_failures a venue date time booked target (f ∷ fs) =
    tell a (notice_of a venue date time booked target f) >>= λ _.
    notify_failures a venue date time booked target fs

-- The round is written down.
note : Round → Job (Unit {0})
note r = effect (λ t. (tt, record t { rounds = r ∷ t.rounds }))

abbrev pub is_saved : Option ℕ → Bool
is_saved none = false
is_saved (some id) = true

after_save : Answers → ℤ → Venue → GameDate → Text → Text → ℕ → Option ℕ → Job (Unit {0})
unfolding create_unpublished_game
after_save a chat venue date time courts count none = pure tt
after_save a chat venue date time courts count (some id) =
    create_unpublished_game a chat venue date time courts count id

-- From the persisting of the result on.
persist : Answers → ℤ → Venue → GameDate → Text → Run → Job Bool
unfolding save note after_save tell
persist a chat venue date time run =
    let courts = join run.booked_labels b',' in
    let count = length run.booked_labels in
    attempt (save venue.id date.day time courts count) >>= λ id.
    note (record {
      venue_id = venue.id;
      game_date = date.day;
      game_time = time;
      calls = run.calls;
      saved = is_saved id;
    })
    >>= λ _. after_save a chat venue date time courts count id >>= λ _.
        tell a (success count venue.name date.text time) >>= λ _. pure true

-- A round that booked nothing.
give_up : Venue → GameDate → Text → List Call → Job Bool
unfolding note
give_up venue date time calls =
    note (record {
      venue_id = venue.id;
      game_date = date.day;
      game_time = time;
      calls = calls;
      saved = false;
    })
    >>= λ _. pure false

-- What follows a call of bookFreeCourts that ended without an error.
with_result : Answers → ℤ → Venue → GameDate → Text → ℕ → Run → Job Bool
unfolding notify_failures persist give_up tell
with_result a chat venue date time target run =
    if is_nil run.booked_labels && is_nil run.failures
    then (tell a (no_credentials venue.name) >>= λ _. give_up venue date time run.calls)
    else (notify_failures a venue date time (length run.booked_labels) target run.failures >>= λ _.
        if is_nil run.booked_labels
        then give_up venue date time run.calls
        else persist a chat venue date time run)

with_outcome : Answers → ℤ → Venue → GameDate → Text → ℕ → Outcome → Job Bool
unfolding with_result tell give_up
with_outcome a chat venue date time target (hard_error e) =
    tell a (fail_dm venue.name date.text time 0 target) >>= λ _. give_up venue date time []
with_outcome a chat venue date time target (result run) =
    with_result a chat venue date time target run

-- processTimeSlot
pub process_time_slot : Answers → ℤ → Venue → GameDate → Text → ℕ → Job Bool
unfolding with_outcome
process_time_slot a chat venue date time target = with_outcome a chat venue date time target (
    book_free_courts a.parse_in_location venue.courts venue.auto_booking_courts date.text time
      target a.credentials a.courts a.slots a.matches)
