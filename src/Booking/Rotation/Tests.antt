-- ===== src/Booking/Rotation/Tests.antt =====
-- Runs of bookFreeCourts, and its theorems at concrete inputs.
use squash_bot.Prelude.{
  ℕ, ◌+◌, ◌≤◌, ◌≡◌, refl, Option, none, some, Bool, true, false, List, [], ◌∷◌, length, pos, arith,
  All, String,
}
use squash_bot.Prelude.Text.{Text, codes, text_ops}
use squash_bot.Courts.Labels.{extract_court_number, parse_court_ids}
use squash_bot.Courts.Free.{BookingCourt, filter_free_courts}
use squash_bot.Courts.Free.Sound.{Fits, AllOffered, filter_free_courts_sound}
use squash_bot.Booking.Credentials.{
  DecryptedCredential, VenueCredential, LacksId, list_for_booking, mark_error,
  list_for_booking-mark_error,
}
use squash_bot.Booking.Rotation.{
  Reply, Run, Outcome, result, occupied_by, book_candidates, book_free_courts,
}
use squash_bot.Booking.Rotation.Steps.{booked_uuids, successes, errors}
use squash_bot.Booking.Rotation.Accounting.{IsAccounted, book_candidates-IsAccounted}
use squash_bot.Booking.Rotation.Limits.{allowance, holders, book_candidates_limits}
use squash_bot.Booking.Rotation.Offered.{IsFreeUuid, book_free_courts_sound}

abbrev court : String → String → String → BookingCourt
court id uuid name = record { id = codes id; uuid = codes uuid; name = codes name }

abbrev facility : List BookingCourt
facility = court "101" "a" "Court 1" ∷ court "102" "b" "Court 2" ∷ court "103" "c" "Court 3" ∷ []

abbrev cred : ℕ → String → ℕ → DecryptedCredential
cred id login max_courts = record {
  id = id;
  venue_id = 3;
  login = codes login;
  password = [];
  priority = 0;
  max_courts = max_courts;
}

abbrev creds : List DecryptedCredential
creds = cred 10 "x" 1 ∷ cred 11 "y" 2 ∷ []

abbrev good : String → Reply
good match_id = record {
  result = some (record { match_id = codes match_id; booking_uuid = [] });
  save_ok = true;
}

abbrev bad : Reply
bad = record { result = none; save_ok = false }

abbrev replies : List Reply
replies = bad ∷ good "m1" ∷ good "m2" ∷ []

abbrev outcome : Outcome
outcome =
    book_free_courts (λ t. true) (codes "1, 2, 3") (codes "3,1") (codes "2026-05-01")
      (codes "18:00") 2 (some creds) (some facility) (some (pos 102 ∷ [])) replies

abbrev run_of : Outcome → List Text × ℕ × List ℕ
run_of (result run) = (run.booked_labels, run.remaining, run.marked)
run_of _ = ([], 0, [])

-- The first credential fails and is marked; the second books both courts, in order of preference.
books_two : run_of outcome ≡ (codes "3" ∷ codes "1" ∷ [], 0, 10 ∷ [])
unfolding book_free_courts filter_free_courts extract_court_number parse_court_ids text_ops
books_two = refl

abbrev label : Text → Text
label uuid = uuid

abbrev courts : List Text
courts = codes "c" ∷ codes "a" ∷ []

book_candidates-IsAccounted_example :
    IsAccounted label 2 courts (book_candidates label creds 2 courts replies)
book_candidates-IsAccounted_example = book_candidates-IsAccounted label creds 2 courts replies

book_candidates_limits_example :
    (successes 11 (book_candidates label creds 2 courts replies).calls ≤ allowance 11 creds)
    × (errors 11 (book_candidates label creds 2 courts replies).calls ≤ holders 11 creds)
book_candidates_limits_example = book_candidates_limits label creds 2 courts replies 11

filter_free_courts_sound_example :
    AllOffered
      (Fits (occupied_by (pos 102 ∷ [])) (λ n. true) facility)
      (filter_free_courts facility (occupied_by (pos 102 ∷ [])) (λ n. true) (pos 3 ∷ []))
filter_free_courts_sound_example =
    filter_free_courts_sound facility (occupied_by (pos 102 ∷ [])) (λ n. true) (pos 3 ∷ [])

abbrev parsed : Text → Bool
parsed t = true

abbrev final : Run
final = record {
  available = [];
  remaining = 0;
  booked_labels = codes "1" ∷ [];
  court_bookings =
      (record {
        court_uuid = codes "a";
        court_label = codes "1";
        match_id = codes "m1";
        booking_uuid = [];
        credential_id = 10;
      })
      ∷ [];
  failures = [];
  marked = [];
  replies = [];
  calls = (record { cred_id = 10; court_uuid = codes "a"; reply = good "m1" }) ∷ [];
}

abbrev one_court : List BookingCourt
one_court = court "101" "a" "Court 1" ∷ []

books_one :
    book_free_courts parsed
      (codes "1")
      []
      (codes "2026-05-01")
      (codes "18:00")
      1
      (some (cred 10 "x" 1 ∷ []))
      (some one_court)
      (some [])
      (good "m1" ∷ [])
    ≡ result final
unfolding book_free_courts filter_free_courts extract_court_number parse_court_ids text_ops
books_one = refl

book_free_courts_sound_example :
    All (IsFreeUuid [] one_court) (booked_uuids final.calls)
    × (length final.booked_labels + final.remaining ≡ 1)
book_free_courts_sound_example =
    book_free_courts_sound parsed (codes "1") [] (codes "2026-05-01") (codes "18:00") 1
      (some (cred 10 "x" 1 ∷ [])) one_court [] (good "m1" ∷ []) final books_one

abbrev rows : List VenueCredential
rows =
    (record {
      id = 10;
      venue_id = 3;
      login = codes "x";
      priority = 0;
      max_courts = 1;
      last_error_at = none;
      encrypted_password = [];
    })
    ∷ []

abbrev decrypt : Text → Option Text
decrypt t = some t

list_for_booking-mark_error_example :
    LacksId 10 (list_for_booking decrypt 150 100 (mark_error 100 10 rows))
list_for_booking-mark_error_example =
    list_for_booking-mark_error decrypt rows 10 100 150 100 (omega arith)
