-- ===== src/Booking/Rotation.antt =====
-- bookFreeCourts of cmd/management/service/booking_core.go and parsePreferredTime of
-- cmd/management/service/auto_booking.go. What the booking service answers to
-- BookMatch, and whether a row is then saved, is a list of replies that the loop consumes; a list
-- that ends early stands for errors. Log lines and the audit rows are left out. Counts are not
-- negative.
pub mod Steps
pub mod Accounting
pub mod Limits
pub mod Offered
mod Tests
use squash_bot.Prelude.{
  ℕ, zero, suc, ◌-◌, min, Option, none, some, Bool, false, ◌&&◌, ◌||◌, not, List, [], ◌∷◌, ◌++◌,
  length, ltb, is_nil, ◌==◌, if◌then◌else◌, ℤ, pos,
}
use squash_bot.Prelude.Text.{Text, split, trim_space, atoi, itoa, text_eq, cut}
use squash_bot.Prelude.Int.{eqb_ℤ, ltb_ℤ}
use squash_bot.Courts.Labels.{extract_court_number, parse_court_ids}
use squash_bot.Courts.Free.{BookingCourt, filter_free_courts}
use squash_bot.Booking.Credentials.{DecryptedCredential}

-- BookMatchResult
pub record BookResult : Type 0 where
  pub match_id : Text
  pub booking_uuid : Text

-- The outcome of one BookMatch call, and of the Save that may follow it.
pub record Reply : Type 0 where
  pub result : Option BookResult
  pub save_ok : Bool

-- One BookMatch call: with which credential, for which court, and its outcome.
pub record Call : Type 0 where
  pub cred_id : ℕ
  pub court_uuid : Text
  pub reply : Reply

-- The columns of a court_bookings row that the loop fills in.
pub record CourtBooking : Type 0 where
  pub court_uuid : Text
  pub court_label : Text
  pub match_id : Text
  pub booking_uuid : Text
  pub credential_id : ℕ

-- BookingFailure, by its reason.
pub data Failure : Type 0 where
  no_free_courts : Failure
  credential_failed : Text → Failure
  exhausted : ℕ → ℕ → Failure

-- The variables of the rotation loop; `marked` lists the MarkError calls.
pub record Run : Type 0 where
  pub available : List Text
  pub remaining : ℕ
  pub booked_labels : List Text
  pub court_bookings : List CourtBooking
  pub failures : List Failure
  pub marked : List ℕ
  pub replies : List Reply
  pub calls : List Call

-- uuidToCourtNum: the last court of a UUID gives its label.
label_of : List BookingCourt → Text → Option Text
label_of [] uuid = none
label_of (c ∷ cs) uuid =
    let num = extract_court_number c.name in
    elim (label_of cs uuid) [
      | some l ↦ some l
      | none ↦
          if not (is_nil c.uuid) && text_eq c.uuid uuid
          then some (if ltb_ℤ (pos 0) num then itoa num else c.uuid)
          else none
    ]

or_empty : Option Text → Text
or_empty none = []
or_empty (some l) = l

pub next_reply : List Reply → Reply
next_reply [] = record { result = none; save_ok = false }
next_reply (r ∷ rs) = r

rest_replies : List Reply → List Reply
rest_replies [] = []
rest_replies (r ∷ rs) = rs

module _ (label : Text → Text) (cred : DecryptedCredential) where
  -- What a successful BookMatch adds to court_bookings.
  pub rows_of : Text → BookResult → Bool → List CourtBooking
  rows_of uuid b save_ok =
      if is_nil b.match_id
      then []
      else if save_ok
      then (record {
        court_uuid = uuid;
        court_label = label uuid;
        match_id = b.match_id;
        booking_uuid = b.booking_uuid;
        credential_id = cred.id;
      })
        ∷ []
      else []

  pub failed : Text → List Text → Reply → Run → Run
  failed uuid rest r run = record run {
    available = uuid ∷ rest;
    failures = run.failures ++ credential_failed cred.login ∷ [];
    marked = run.marked ++ cred.id ∷ [];
    replies = rest_replies run.replies;
    calls = run.calls ++ (record { cred_id = cred.id; court_uuid = uuid; reply = r }) ∷ [];
  }

  pub booked : Text → List Text → BookResult → Reply → Run → Run
  booked uuid rest b r run = record run {
    available = rest;
    remaining = run.remaining - 1;
    booked_labels = run.booked_labels ++ label uuid ∷ [];
    court_bookings = run.court_bookings ++ rows_of uuid b r.save_ok;
    replies = rest_replies run.replies;
    calls = run.calls ++ (record { cred_id = cred.id; court_uuid = uuid; reply = r }) ∷ [];
  }

  -- The rounds of `for i := 0; i < courtLimit && len(available) > 0; i++` that are left.
  pub attempts : ℕ → Run → Run
  attempts zero run = run
  attempts (suc k) run = elim run.available [
    | [] ↦ run
    | uuid ∷ rest ↦
        let r = next_reply run.replies in
        elim r.result [
          | none ↦ failed uuid rest r run
          | some b ↦ attempts k (booked uuid rest b r run)
        ]
  ]

-- for _, cred := range creds
pub rotate : (Text → Text) → List DecryptedCredential → Run → Run
rotate label [] run = run
rotate label (cred ∷ creds) run =
    let next = rotate label creds (attempts label cred (min cred.max_courts run.remaining) run) in
    if run.remaining == 0 || is_nil run.available then run else next

-- What follows the rotation.
pub conclude : ℕ → Run → Run
conclude count run =
    if ltb 0 run.remaining && not (is_nil run.available)
    then record run { failures = run.failures ++ exhausted (count - run.remaining) count ∷ [] }
    else run

start : ℕ → List Text → List Reply → Run
start count available replies = record {
  available = available;
  remaining = count;
  booked_labels = [];
  court_bookings = [];
  failures = [];
  marked = [];
  replies = replies;
  calls = [];
}

pub label_or_empty : List BookingCourt → Text → Text
label_or_empty all_courts uuid = or_empty (label_of all_courts uuid)

-- occupied[sl.Court] = true
pub occupied_by : List ℤ → ℤ → Bool
occupied_by [] n = false
occupied_by (c ∷ cs) n = eqb_ℤ c n || occupied_by cs n

-- The numbers in venue.Courts.
pub venue_numbers : List Text → ℤ → Bool
venue_numbers [] n = false
venue_numbers (p ∷ ps) n = elim (atoi (trim_space p)) [
  | none ↦ venue_numbers ps n
  | some id ↦ eqb_ℤ id n || venue_numbers ps n
]

-- The courts that the loop may take, in order.
pub candidates : List BookingCourt → List ℤ → Text → Text → List Text
candidates all_courts occupied_slots venue_courts auto_booking_courts =
    filter_free_courts all_courts (occupied_by occupied_slots)
      (venue_numbers (split venue_courts b',')) (parse_court_ids auto_booking_courts)

-- From the list of candidates on.
pub book_candidates : (Text → Text) → List DecryptedCredential → ℕ → List Text → List Reply → Run
book_candidates label creds count [] replies = record (start count [] replies) {
  failures = no_free_courts ∷ [];
}
book_candidates label creds count (u ∷ us) replies =
    conclude count (rotate label creds (start count (u ∷ us) replies))

-- The steps that end bookFreeCourts with an error.
pub data HardError : Type 0 where
  parse_time list_credentials list_courts list_matches : HardError

pub data Outcome : Type 0 where
  hard_error : HardError → Outcome
  result : Run → Outcome

module _ (venue_courts auto_booking_courts : Text) (count : ℕ) where
  with_matches :
      List DecryptedCredential → List BookingCourt → Option (List ℤ) → List Reply → Outcome
  with_matches creds all_courts none replies = hard_error list_matches
  with_matches creds all_courts (some slots) replies = result (
      book_candidates (label_or_empty all_courts) creds count
        (candidates all_courts slots venue_courts auto_booking_courts) replies)

  with_courts :
      List DecryptedCredential → Option (List BookingCourt) → Option (List ℤ) → List Reply → Outcome
  with_courts creds none slots replies = hard_error list_courts
  with_courts creds (some all_courts) slots replies = with_matches creds all_courts slots replies

  with_credentials :
      Option (List DecryptedCredential)
      → Option (List BookingCourt)
      → Option (List ℤ)
      → List Reply
      → Outcome
  with_credentials none courts slots replies = hard_error list_credentials
  with_credentials (some []) courts slots replies = result (start count [] replies)
  with_credentials (some (d ∷ ds)) courts slots replies = with_courts (d ∷ ds) courts slots replies

-- len(parts) == 2 && len(parts[0]) == 2 && len(parts[1]) == 2, for strings.SplitN(s, ":", 2)
is_hhmm : Option (Text × Text) → Bool
is_hhmm none = false
is_hhmm (some (hours, minutes)) = length hours == 2 && length minutes == 2

-- Whether parsePreferredTime returns an instant; `parse_in_location` says which texts
-- time.ParseInLocation accepts.
parse_preferred_time : (Text → Bool) → Text → Text → Bool
parse_preferred_time parse_in_location game_date preferred_time =
    is_hhmm (cut preferred_time b':') && parse_in_location (game_date ++ b' ' ∷ preferred_time)

-- bookFreeCourts: the credentials, the facility's courts and the occupied slots are what the calls
-- return, `none` for an error.
unfoldable pub book_free_courts :
    (Text → Bool)
    → Text
    → Text
    → Text
    → Text
    → ℕ
    → Option (List DecryptedCredential)
    → Option (List BookingCourt)
    → Option (List ℤ)
    → List Reply
    → Outcome
unfolding label_of or_empty next_reply rest_replies rows_of failed booked attempts rotate conclude
    start label_or_empty occupied_by venue_numbers candidates book_candidates with_matches
    with_courts with_credentials is_hhmm parse_preferred_time
book_free_courts parse_in_location venue_courts auto_booking_courts game_date game_time count creds
      courts slots replies =
    if parse_preferred_time parse_in_location game_date game_time
    then with_credentials venue_courts auto_booking_courts count creds courts slots replies
    else hard_error parse_time
