-- ===== src/Cancellation.antt =====
-- Freeing courts before a game: cancelUnusedCourtsLogicOnly and what it calls in
-- cmd/management/service/court_cancellation.go. What the repositories and the credential service
-- return are arguments; what the booking service answers to CancelMatch is a list that the loop
-- consumes, and a list that ends early stands for failures. Log lines and audit rows are left out.
pub mod Selection
pub mod Cancel
use squash_bot.Prelude.{
  ℕ, zero, suc, ◌+◌, ◌-◌, ◌*◌, ◌/◌, ◌%◌, ◌^◌, ◌≤◌, ◌<◌, min, ◌≡◌, ◌≢◌, ◌⊎◌, ◌↔◌, inl, inr, refl,
  sym, ap, ◌∙◌, Option, none, some, Bool, true, false, ◌&&◌, ◌||◌, not, List, [], ◌∷◌, ◌++◌, map,
  append_assoc, append-nil, length, length-append, take, ltb, leb, is_nil, ◌==◌, if◌then◌else◌, ℤ,
  pos, negsuc, arith, Bool-cases, Option-cases, All, All-append, All-map, ==_iff, ltb→lt, lt→ltb,
  leb→le, String,
}
use squash_bot.Prelude.Int.{ltb_ℤ, eqb_ℤ}
use squash_bot.Prelude.Text.{Text, text_eq, trim_space, join, atoi, itoa}
use squash_bot.Courts.Labels.{split_courts, parse_court_ids}
use squash_bot.Courts.Groups.{select_courts_to_cancel}

-- The fields of a CourtBooking that cancellation reads.
pub record CourtBooking : Type 0 where
  pub court_label : Text
  pub match_id : Text
  pub credential_id : Option ℕ

-- The fields of the game and its venue that cancellation reads.
pub record CancelGame : Type 0 where
  pub courts : Text
  pub courts_count : ℕ
  pub has_venue : Bool
  pub venue_id : ℕ
  pub auto_booking_courts : Text

-- entryByLabel: the last booking of a label.
pub entry_by_label : List CourtBooking → ℤ → Option CourtBooking
entry_by_label [] label = none
entry_by_label (e ∷ es) label = elim (entry_by_label es label) [
  | some later ↦ some later
  | none ↦ elim (atoi e.court_label) [
    | none ↦ none
    | some l ↦ if eqb_ℤ l label then some e else none
  ]
]

-- sortedLabels, before sort.Ints
pub labels_of : List CourtBooking → List ℤ
labels_of [] = []
labels_of (e ∷ es) = elim (atoi e.court_label) [ none ↦ labels_of es | some l ↦ l ∷ labels_of es ]

-- sort.Ints
pub insert_int : ℤ → List ℤ → List ℤ
insert_int x [] = x ∷ []
insert_int x (y ∷ ys) = if ltb_ℤ y x then y ∷ insert_int x ys else x ∷ y ∷ ys

pub sort_ints : List ℤ → List ℤ
sort_ints [] = []
sort_ints (x ∷ xs) = insert_int x (sort_ints xs)

pub is_some {ℓ} : {A : Type ℓ} → Option A → Bool
is_some none = false
is_some (some a) = true

-- Phase 1, over the preferred courts from the last on, while `room` courts may be added.
pub from_preferred : List CourtBooking → List ℤ → ℕ → List ℤ
from_preferred entries [] room = []
from_preferred entries (p ∷ ps) zero = []
from_preferred entries (p ∷ ps) (suc room) =
    let skip = from_preferred entries ps (suc room) in
    let pick = p ∷ from_preferred entries ps room in
    if is_some (entry_by_label entries p) then pick else skip

-- selectedSet[l]
pub selected_set : ℤ → List ℤ → Bool
selected_set l [] = false
selected_set l (s ∷ ss) = eqb_ℤ s l || selected_set l ss

-- The sorted labels that phase 1 did not select.
pub not_selected : List ℤ → List ℤ → List ℤ
not_selected selected [] = []
not_selected selected (l ∷ ls) =
    let rest = not_selected selected ls in if selected_set l selected then rest else l ∷ rest

pub reversed : List ℤ → List ℤ → List ℤ
reversed [] out = out
reversed (x ∷ xs) out = reversed xs (x ∷ out)

pub phase_1 : CancelGame → List CourtBooking → ℕ → List ℤ
phase_1 game entries n =
    if game.has_venue && not (is_nil game.auto_booking_courts)
    then from_preferred entries (reversed (parse_court_ids game.auto_booking_courts) []) n
    else []

pub phase_2 : List CourtBooking → ℕ → List ℤ → List ℤ
phase_2 entries n selected =
    if ltb (length selected) n
    then selected
      ++ select_courts_to_cancel (not_selected selected (sort_ints (labels_of entries)))
          (n - length selected)
    else selected

-- The courts that cancelUsingBookingEntries tries to cancel, in order.
pub select_labels : CancelGame → List CourtBooking → ℕ → List ℤ
select_labels game entries n = phase_2 entries n (phase_1 game entries n)
