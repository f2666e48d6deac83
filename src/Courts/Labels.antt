-- ===== src/Courts/Labels.antt =====
-- splitCourts of cmd/management/service/court_cancellation.go; splitPreferredTimes, parseCourtIDs and
-- extractCourtNumber of cmd/management/service/auto_booking.go. `playersPerCourtFor` and the maps
-- keyed by a court number take their keys from these.
use squash_bot.Prelude.{
  zero, suc, Option, none, some, List, [], ◌∷◌, is_nil, if◌then◌else◌, ℤ, pos, negsuc,
}
use squash_bot.Prelude.Text.{Text, split, trim_space, fields, atoi}

-- for _, p := range … { p = strings.TrimSpace(p); if p != "" { out = append(out, p) } }
unfoldable pub trimmed : List Text → List Text
trimmed [] = []
trimmed (p ∷ ps) =
    let rest = trimmed ps in if is_nil (trim_space p) then rest else trim_space p ∷ rest

-- splitCourts
unfoldable pub split_courts : Text → List Text
unfolding trimmed
split_courts courts = trimmed (split courts b',')

-- splitPreferredTimes
unfoldable pub split_preferred_times : Text → List Text
unfolding trimmed
split_preferred_times s = if is_nil s then [] else trimmed (split s b',')

-- The parts that strconv.Atoi accepts.
numbers : List Text → List ℤ
numbers [] = []
numbers (p ∷ ps) =
    let rest = numbers ps in elim (atoi (trim_space p)) [ none ↦ rest | some id ↦ id ∷ rest ]

-- parseCourtIDs
unfoldable pub parse_court_ids : Text → List ℤ
unfolding numbers
parse_court_ids s = if is_nil s then [] else numbers (split s b',')

last_part : Text → List Text → Text
last_part p [] = p
last_part p (q ∷ ps) = last_part q ps

positive_number : Option ℤ → ℤ
positive_number none = negsuc 0
positive_number (some (pos zero)) = negsuc 0
positive_number (some (pos (suc n))) = pos (suc n)
positive_number (some (negsuc n)) = negsuc 0

number_of_parts : List Text → ℤ
unfolding last_part positive_number
number_of_parts [] = negsuc 0
number_of_parts (p ∷ ps) = positive_number (atoi (last_part p ps))

-- extractCourtNumber: the trailing positive integer of a court's name, or -1.
unfoldable pub extract_court_number : Text → ℤ
unfolding number_of_parts
extract_court_number name = number_of_parts (fields name)
