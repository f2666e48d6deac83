-- ===== src/Booking/Rotation/Offered.antt =====
-- bookFreeCourts of cmd/management/service/booking_core.go: only free courts are booked.
use squash_bot.Prelude.{
  ℕ, ◌+◌, ◌≡◌, inl, inr, sym, ◌∙◌, Option, none, some, Bool, true, false, List, [], ◌∷◌, ◌++◌,
  length, ℤ, arith, Bool-cases, All, All-map,
}
use squash_bot.Prelude.Text.{Text, split}
use squash_bot.Courts.Labels.{parse_court_ids}
use squash_bot.Courts.Free.{BookingCourt}
use squash_bot.Courts.Free.Rounds.{Offered}
use squash_bot.Courts.Free.Sound.{filter_free_courts_sound}
use squash_bot.Booking.Credentials.{DecryptedCredential}
use squash_bot.Booking.Rotation.{
  Reply, Run, Outcome, hard_error, parse_time, result, occupied_by, venue_numbers, candidates,
  label_or_empty, book_candidates, start, with_matches, with_courts, with_credentials,
  parse_preferred_time, book_free_courts,
}
use squash_bot.Booking.Rotation.Steps.{booked_uuids}
use squash_bot.Booking.Rotation.Accounting.{book_candidates-IsAccounted}

All-prefix {ℓ κ} : {A : Type ℓ} (P : A → Type κ) (xs ys : List A) → All P (xs ++ ys) → All P xs
All-prefix P [] ys h = tt
All-prefix P (x ∷ xs) ys (p, h) = (p, All-prefix P xs ys h)

-- The court of a UUID is free.
abbrev pub IsFreeUuid : List ℤ → List BookingCourt → Text → Type 0
IsFreeUuid slots all_courts uuid = (n : ℤ) × Offered (occupied_by slots) n uuid all_courts

candidates-free :
    (all_courts : List BookingCourt) (slots : List ℤ) (venue_courts auto_booking_courts : Text)
    → All
        (IsFreeUuid slots all_courts)
        (candidates all_courts slots venue_courts auto_booking_courts)
unfolding candidates
candidates-free all_courts slots venue_courts auto_booking_courts =
    All-map _ _ _ (λ u f. (f.0, f.1.0))
      (filter_free_courts_sound all_courts (occupied_by slots)
        (venue_numbers (split venue_courts b',')) (parse_court_ids auto_booking_courts))

-- What a run may end with.
abbrev pub IsSound : List ℤ → List BookingCourt → ℕ → Run → Type 0
IsSound slots all_courts count run =
    All (IsFreeUuid slots all_courts) (booked_uuids run.calls)
    × (length run.booked_labels + run.remaining ≡ count)

book_candidates-IsSound :
    (creds : List DecryptedCredential) (all_courts : List BookingCourt) (slots : List ℤ)
    (venue_courts auto_booking_courts : Text) (count : ℕ) (replies : List Reply)
    → IsSound slots all_courts count (
        book_candidates
          (label_or_empty all_courts)
          creds
          count
          (candidates all_courts slots venue_courts auto_booking_courts)
          replies)
book_candidates-IsSound creds all_courts slots venue_courts auto_booking_courts count replies =
    let courts = candidates all_courts slots venue_courts auto_booking_courts in
    let label = label_or_empty all_courts in
    let run = book_candidates label creds count courts replies in
    let h = book_candidates-IsAccounted label creds count courts replies in
    (
      All-prefix (IsFreeUuid slots all_courts) (booked_uuids run.calls) run.available
          (rw h.taken (candidates-free all_courts slots venue_courts auto_booking_courts)),
      h.counted,
    )

abbrev ResultIsSound : List ℤ → List BookingCourt → ℕ → Outcome → Type 0
ResultIsSound slots all_courts count (hard_error e) = Unit
ResultIsSound slots all_courts count (result run) = IsSound slots all_courts count run

with_credentials_sound :
    (creds : Option (List DecryptedCredential)) (all_courts : List BookingCourt) (slots : List ℤ)
    (venue_courts auto_booking_courts : Text) (count : ℕ) (replies : List Reply)
    → ResultIsSound slots all_courts count (
        with_credentials venue_courts auto_booking_courts count creds
          (some all_courts)
          (some slots)
          replies)
unfolding with_credentials with_courts with_matches start
with_credentials_sound none all_courts slots vc ac count replies = tt
with_credentials_sound (some []) all_courts slots vc ac count replies = (tt, omega arith)
with_credentials_sound (some (d ∷ ds)) all_courts slots vc ac count replies =
    book_candidates-IsSound (d ∷ ds) all_courts slots vc ac count replies

book_free_courts_parsed :
    (p : Text → Bool) (vc ac date time : Text) (count : ℕ)
    (creds : Option (List DecryptedCredential)) (courts : Option (List BookingCourt))
    (slots : Option (List ℤ)) (replies : List Reply)
    → parse_preferred_time p date time ≡ true
    → book_free_courts p vc ac date time count creds courts slots replies
      ≡ with_credentials vc ac count creds courts slots replies
unfolding book_free_courts
book_free_courts_parsed p vc ac date time count creds courts slots replies e = rw e

book_free_courts_unparsed :
    (p : Text → Bool) (vc ac date time : Text) (count : ℕ)
    (creds : Option (List DecryptedCredential)) (courts : Option (List BookingCourt))
    (slots : Option (List ℤ)) (replies : List Reply)
    → parse_preferred_time p date time ≡ false
    → book_free_courts p vc ac date time count creds courts slots replies ≡ hard_error parse_time
unfolding book_free_courts
book_free_courts_unparsed p vc ac date time count creds courts slots replies e = rw e

-- When bookFreeCourts returns a result, every court that it booked is free: it stands in the
-- facility's list and its id is not among the occupied slots. Booked and remaining courts make up
-- the number asked for.
pub book_free_courts_sound :
    (parse_in_location : Text → Bool) (venue_courts auto_booking_courts game_date game_time : Text)
    (count : ℕ) (creds : Option (List DecryptedCredential)) (all_courts : List BookingCourt)
    (slots : List ℤ) (replies : List Reply) (run : Run)
    → book_free_courts parse_in_location venue_courts auto_booking_courts game_date game_time count
        creds
        (some all_courts)
        (some slots)
        replies
      ≡ result run
    → All (IsFreeUuid slots all_courts) (booked_uuids run.calls)
      × (length run.booked_labels + run.remaining ≡ count)
book_free_courts_sound p vc ac date time count creds all_courts slots replies run h =
    elim (Bool-cases (parse_preferred_time p date time)) [
      | inl e ↦
          let eq : with_credentials vc ac count creds (some all_courts) (some slots) replies
              ≡ result run =
            sym (
              book_free_courts_parsed p vc ac date time count creds (some all_courts) (some slots)
                replies e)
            ∙ h in
          rw eq at (with_credentials_sound creds all_courts slots vc ac count replies)
      | inr e ↦ cc (
        book_free_courts_unparsed p vc ac date time count creds (some all_courts) (some slots)
            replies e,
        h,
      )
    ]
