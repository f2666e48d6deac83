-- ===== src/ResultScore/Tests.antt =====
-- Runs of internal/resultscore/score.go, and its theorems at concrete inputs.
use squash_bot.Prelude.{◌≡◌, refl, none, some, ◌++◌, ◌∷◌, ◌↔◌, pos, arith}
use squash_bot.Prelude.Text.{codes, itoa, text_ops}
use squash_bot.ResultScore.{parse, validate}
use squash_bot.ResultScore.Laws.{IsPlayer, ScoreFits, validate_iff, parse-print}

parses : parse (codes "3:1") ≡ some (pos 3, pos 1)
unfolding parse text_ops
parses = refl

-- Winner 7 is the author, whose side is the left one.
validate_iff_example :
    (validate (codes "3:1") 7 8 (some 7) ≡ some tt)
    ↔ (IsPlayer 7 8 (some 7) × ScoreFits (codes "3:1") 7 8 (some 7))
validate_iff_example = validate_iff (codes "3:1") 7 8 (some 7)

parse-print_example : parse (itoa (pos 11) ++ b':' ∷ itoa (pos 9)) ≡ some (pos 11, pos 9)
parse-print_example = parse-print 11 9 (omega arith) (omega arith)

-- No sign, no blank, no seventh digit; the winner's side must be the higher one.
refused :
    (parse (codes "+3:1") ≡ none)
    × (parse (codes "3: 1") ≡ none)
    × (parse (codes "1000000:0") ≡ none)
    × (validate (codes "1:3") 7 8 (some 7) ≡ none)
    × (validate (codes "2:2") 7 8 none ≡ some tt)
unfolding parse validate text_ops
refused = (refl, refl, refl, refl, refl)
