-- ===== src/Cancellation/Cancel/Tests.antt =====
-- Runs of the cancellation, and its theorems at concrete inputs.
use squash_bot.Prelude.{
  ℕ, ◌≤◌, ◌≡◌, refl, Option, none, some, true, false, List, [], ◌∷◌, length, ◌==◌, if◌then◌else◌,
  pos, All, String,
}
use squash_bot.Prelude.Text.{Text, codes, text_ops}
use squash_bot.Courts.Labels.{parse_court_ids, split_courts}
use squash_bot.Courts.Groups.{select_courts_to_cancel}
use squash_bot.Cancellation.{
  CourtBooking, CancelGame, entry_by_label, labels_of, insert_int, sort_ints, is_some,
  from_preferred, selected_set, not_selected, reversed, phase_1, phase_2, select_labels,
}
use squash_bot.Cancellation.Selection.{HasEntry, select_labels_lem}
use squash_bot.Cancellation.Cancel.{
  CredReply, Progress, login_for, called, cancel_one, cancel_loop, begin, canceled_count,
  new_courts, Outcome, conclude, cancel_using_booking_entries, Bookings, load_entries, entries_of,
  with_entries, cancel_unused_courts,
}
use squash_bot.Cancellation.Cancel.Loop.{IsSettled, cancel_loop_lem}
use squash_bot.Cancellation.Cancel.Effect.{IsWithin, cancel_unused_courts_lem}

abbrev booking : String → String → CourtBooking
booking label match_id = record {
  court_label = codes label;
  match_id = codes match_id;
  credential_id = some 1;
}

abbrev bookings : List CourtBooking
bookings = booking "7" "m7" ∷ booking "x" "mx" ∷ booking "5" "m5" ∷ booking "6" "m6" ∷ []

abbrev game : CancelGame
game = record {
  courts = codes "5, 6,7";
  courts_count = 3;
  has_venue = true;
  venue_id = 2;
  auto_booking_courts = codes "6,9";
}

abbrev creds : Option (ℕ → CredReply)
creds = some (λ id. if id == 1 then CredReply.found (codes "me") [] else CredReply.missing)

abbrev rows : Option Bookings
rows =
    some
      (record { game_time = some (codes "1800"); at_time = λ time. none; of_day = some bookings })

-- The preferred court that is booked comes first, then the shortest run's last court.
selects : select_labels game bookings 2 ≡ pos 6 ∷ pos 5 ∷ []
unfolding select_labels phase_1 phase_2 from_preferred selected_set not_selected sort_ints
    insert_int labels_of reversed entry_by_label is_some parse_court_ids select_courts_to_cancel
    text_ops
selects = refl

-- One cancellation of two is accepted; the other court stays.
abbrev outcome : Option Outcome
outcome = cancel_unused_courts true rows creds game 2 true (true ∷ false ∷ [])

abbrev courts_after : Option Outcome → Text
courts_after none = []
courts_after (some o) = o.game.courts

courts_kept : courts_after outcome ≡ codes "5,7"
unfolding cancel_unused_courts entries_of load_entries with_entries cancel_using_booking_entries
    cancel_loop begin cancel_one login_for called conclude new_courts canceled_count split_courts
    select_labels phase_1 phase_2 from_preferred selected_set not_selected sort_ints insert_int
    labels_of reversed entry_by_label is_some parse_court_ids select_courts_to_cancel text_ops
courts_kept = refl

select_labels_lem_example :
    All (HasEntry bookings) (select_labels game bookings 2)
    × (length (select_labels game bookings 2) ≤ 2)
select_labels_lem_example = select_labels_lem game bookings 2

bookings_known : All (HasEntry bookings) (pos 6 ∷ pos 5 ∷ [])
unfolding entry_by_label is_some text_ops
bookings_known = (refl, (refl, tt))

cancel_loop_lem_example :
    (p : Progress) × ((cancel_loop creds bookings (pos 6 ∷ pos 5 ∷ []) (begin (true ∷ false ∷ []))
        ≡ some p)
      × IsSettled creds bookings (true ∷ false ∷ []) (pos 6 ∷ pos 5 ∷ []) p)
cancel_loop_lem_example =
    cancel_loop_lem creds bookings (true ∷ false ∷ []) (pos 6 ∷ pos 5 ∷ []) bookings_known

cancel_unused_courts_lem_example :
    IsWithin game 2 (true ∷ false ∷ []) (entries_of rows game) outcome
cancel_unused_courts_lem_example =
    cancel_unused_courts_lem creds game 2 true (true ∷ false ∷ []) true rows
