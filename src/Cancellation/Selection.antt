-- ===== src/Cancellation/Selection.antt =====
-- cancelUsingBookingEntries of cmd/management/service/court_cancellation.go: the courts that it
-- selects.
use squash_bot.Prelude.{
  ℕ, zero, suc, ◌-◌, ◌≤◌, ◌<◌, ◌≡◌, inl, inr, refl, true, false, ◌&&◌, not, List, [], ◌∷◌, length,
  length-append, ltb, is_nil, ℤ, arith, Bool-cases, Option-cases, All, All-append,
}
use squash_bot.Prelude.Int.{eqb_ℤ, eqb_ℤ_iff, eqb_ℤ_refl}
use squash_bot.Prelude.Text.{atoi}
use squash_bot.Courts.Labels.{parse_court_ids}
use squash_bot.Courts.Groups.{select_courts_to_cancel}
use squash_bot.Courts.Groups.Select.{count, select_courts_to_cancel_lem}
use squash_bot.Cancellation.{
  CourtBooking, CancelGame, entry_by_label, labels_of, insert_int, sort_ints, is_some,
  from_preferred, not_selected, reversed, phase_1, phase_2, select_labels,
}

-- Some booking has this label.
abbrev pub HasEntry : List CourtBooking → ℤ → Type 0
HasEntry entries label = is_some (entry_by_label entries label) ≡ true

All-of_count : (P : ℤ → Type 0) (xs : List ℤ) → ((c : ℤ) → 0 < count c xs → P c) → All P xs
All-of_count P [] h = tt
All-of_count P (x ∷ xs) h =
    (h x (ground (arith, eqb_ℤ_refl x)), All-of_count P xs (λ c p. h c (ground arith)))

count-insert_int : (c x : ℤ) (ys : List ℤ) → count c (insert_int x ys) ≡ count c (x ∷ ys)
unfolding insert_int
count-insert_int c x [] = refl
count-insert_int c x (y ∷ ys) = ground (arith, count-insert_int c x ys)

count-sort_ints : (c : ℤ) (xs : List ℤ) → count c (sort_ints xs) ≡ count c xs
unfolding sort_ints
count-sort_ints c [] = refl
count-sort_ints c (x ∷ xs) =
    omega (arith, count-insert_int c x (sort_ints xs), count-sort_ints c xs)

count-not_selected :
    (c : ℤ) (selected ls : List ℤ) → count c (not_selected selected ls) ≤ count c ls
unfolding not_selected
count-not_selected c selected [] = omega arith
count-not_selected c selected (l ∷ ls) = ground (arith, count-not_selected c selected ls)

eqb_ℤ_sym : (a b : ℤ) → eqb_ℤ a b ≡ eqb_ℤ b a
eqb_ℤ_sym a b = ground (arith, eqb_ℤ_iff a b, eqb_ℤ_iff b a)

labels_of-HasEntry :
    (entries : List CourtBooking) (c : ℤ) → 0 < count c (labels_of entries) → HasEntry entries c
unfolding labels_of entry_by_label is_some
labels_of-HasEntry [] c h = absurd (omega arith)
labels_of-HasEntry (e ∷ es) c h = elim (Option-cases (entry_by_label es c)) [
  | inr (b, eb) ↦ simp eb
  | inl eb ↦
      let shut : is_some (entry_by_label es c) ≡ false = simp eb in
      elim (Option-cases (atoi e.court_label)) [
        | inl ea ↦ absurd (ground (arith, labels_of-HasEntry es c))
        | inr (l, ea) ↦ elim (Bool-cases (eqb_ℤ l c)) [
          | inl el ↦ simp (eb, ea, el)
          | inr el ↦ absurd (ground (arith, labels_of-HasEntry es c, eqb_ℤ_sym l c))
        ]
      ]
]

from_preferred_lem :
    (entries : List CourtBooking) (ps : List ℤ) (room : ℕ)
    → All (HasEntry entries) (from_preferred entries ps room)
      × (length (from_preferred entries ps room) ≤ room)
unfolding from_preferred
from_preferred_lem entries [] room = (tt, omega arith)
from_preferred_lem entries (p ∷ ps) zero = (tt, omega arith)
from_preferred_lem entries (p ∷ ps) (suc room) =
    elim (Bool-cases (is_some (entry_by_label entries p))) [
      | inl e ↦ let (a, l) = from_preferred_lem entries ps room in rw e ((e, a), omega arith)
      | inr e ↦ rw e (from_preferred_lem entries ps (suc room))
    ]

phase_1_lem :
    (game : CancelGame) (entries : List CourtBooking) (n : ℕ)
    → All (HasEntry entries) (phase_1 game entries n) × (length (phase_1 game entries n) ≤ n)
unfolding phase_1
phase_1_lem game entries n =
    elim (Bool-cases (game.has_venue && not (is_nil game.auto_booking_courts))) [
      | inl e ↦
          simp e
            (from_preferred_lem entries (reversed (parse_court_ids game.auto_booking_courts) []) n)
      | inr e ↦ simp e (tt, omega arith)
    ]

phase_2_lem :
    (entries : List CourtBooking) (n : ℕ) (selected : List ℤ)
    → All (HasEntry entries) selected
    → length selected ≤ n
    → All (HasEntry entries) (phase_2 entries n selected)
      × (length (phase_2 entries n selected) ≤ n)
unfolding phase_2
phase_2_lem entries n selected a l =
    let rest = not_selected selected (sort_ints (labels_of entries)) in
    let more = select_courts_to_cancel rest (n - length selected) in
    let (size, within) = select_courts_to_cancel_lem rest (n - length selected) in
    let known : All (HasEntry entries) more = All-of_count (HasEntry entries) more (λ c p.
      labels_of-HasEntry entries c (
        omega (
          arith,
          within c,
          count-not_selected c selected (sort_ints (labels_of entries)),
          count-sort_ints c (labels_of entries),
        ))) in
    elim (Bool-cases (ltb (length selected) n)) [
      | inl e ↦ simp e (
        All-append (HasEntry entries) selected more a known,
        ground (arith, length-append selected more),
      )
      | inr e ↦ simp e (a, l)
    ]

-- Every selected label is that of a booking, so the lookup behind it finds one; and no more courts
-- are selected than are to be freed.
pub select_labels_lem :
    (game : CancelGame) (entries : List CourtBooking) (n : ℕ)
    → All (HasEntry entries) (select_labels game entries n)
      × (length (select_labels game entries n) ≤ n)
unfolding select_labels
select_labels_lem game entries n =
    let (a, l) = phase_1_lem game entries n in phase_2_lem entries n (phase_1 game entries n) a l
