-- ===== src/ResultScore.antt =====
-- internal/resultscore/score.go: the optional "N:M" score of a 1-v-1 result.
-- `some` is a nil error and `none` is `ErrInvalid`, the package's one error. Player ids are
-- compared and nothing else.
pub mod Laws
mod Tests
use squash_bot.Prelude.{
  ℕ, Option, none, some, Bool, true, ◌&&◌, ◌||◌, not, [], ◌∷◌, length, is_nil, ltb, ◌==◌,
  if◌then◌else◌, ℤ,
}
use squash_bot.Prelude.Int.{ltb_ℤ, eqb_ℤ}
use squash_bot.Prelude.Text.{Text, is_digit, cut, atoi}

-- for _, c := range s { if c < '0' || c > '9' { … } }
all_digits : Text → Bool
all_digits [] = true
all_digits (c ∷ s) = is_digit c && all_digits s

-- The `parse` closure of `Parse`. `len(s)` counts bytes; where it differs from the number of code
-- points, a character that is no digit makes both versions fail.
pub parse_side : Text → Option ℤ
unfolding all_digits
parse_side s =
    if length s == 0 || ltb 6 (length s) then none else if all_digits s then atoi s else none

parse_sides : Option (Text × Text) → Option (ℤ × ℤ)
unfolding parse_side
parse_sides none = none
parse_sides (some (left, right)) = elim (parse_side left) [
  | none ↦ none
  | some a ↦ elim (parse_side right) [ none ↦ none | some b ↦ some (a, b) ]
]

-- Parse
unfoldable pub parse : Text → Option (ℤ × ℤ)
unfolding parse_sides
parse score = parse_sides (cut score b':')

-- The check of the winner: one of the two players, if there is one.
winner_known : ℕ → ℕ → Option ℕ → Bool
winner_known author opponent none = true
winner_known author opponent (some w) = w == author || w == opponent

-- Whether the parsed score agrees with the winner.
score_agrees : ℕ → ℕ → Option ℕ → ℤ × ℤ → Bool
score_agrees author opponent none (a, b) = eqb_ℤ a b
score_agrees author opponent (some w) (a, b) =
    not ((w == author && not (ltb_ℤ b a)) || (w == opponent && not (ltb_ℤ a b)))

check_score : ℕ → ℕ → Option ℕ → Option (ℤ × ℤ) → Option (Unit {0})
unfolding score_agrees
check_score author opponent winner none = none
check_score author opponent winner (some p) =
    if score_agrees author opponent winner p then some tt else none

-- Validate
unfoldable pub validate : Text → ℕ → ℕ → Option ℕ → Option (Unit {0})
unfolding winner_known check_score
validate score author opponent winner =
    if not (winner_known author opponent winner)
    then none
    else if is_nil score
    then some tt
    else check_score author opponent winner (parse score)
