-- ===== src/Rating/Policy.antt =====
-- SelectScorePolicy of cmd/management/service/rating/score_policy.go.
pub mod Weights
use squash_bot.Prelude.{
  ℕ, ◌+◌, Option, none, some, Bool, not, is_nil, if◌then◌else◌, ℤ, pos, negsuc,
}
use squash_bot.ResultScore.{validate, parse}
use squash_bot.Rating.Floats.{Floats}
use squash_bot.Rating.Tables.{Version, Reason, is_valid, GameResult}

-- ScorePolicy
pub record ScorePolicy (F : Type 0) : Type 0 where
  pub version : Version
  pub weight : F
  pub reason : Reason

module _ {F : Type 0} (fl : Floats F) where
  standard : Reason → ScorePolicy F
  standard reason = record { version = Version.glicko2_v1; weight = fl.lit 1 0; reason = reason }

  -- float64(n) of a parsed side, which is not negative.
  side : ℤ → F
  side (pos n) = fl.of_int n
  side (negsuc n) = fl.neg (fl.of_int (n + 1))

  weighted : ℤ → ℤ → ScorePolicy F
  weighted a b =
      let margin = fl.div (fl.abs (fl.sub (side a) (side b))) (fl.add (side a) (side b)) in
      record {
        version = Version.glicko2_score_v1;
        weight = fl.add (fl.lit 75 2) (fl.mul (fl.lit 5 1) margin);
        reason = Reason.typed_score;
      }

  -- `a, b, _ := Parse(score)`: zeros after an error.
  typed : Option (ℤ × ℤ) → ScorePolicy F
  typed none = weighted (pos 0) (pos 0)
  typed (some (a, b)) = weighted a b

  by_winner : GameResult → Option ℕ → ScorePolicy F
  by_winner result none = standard Reason.draw
  by_winner result (some w) = typed (parse result.score)

  by_validity : GameResult → Option (Unit {0}) → ScorePolicy F
  by_validity result none = standard Reason.invalid_legacy_score
  by_validity result (some u) = by_winner result result.winner_id

  -- SelectScorePolicy
  pub select_score_policy : GameResult → Bool → ScorePolicy F
  select_score_policy result enabled =
      if not enabled
      then standard Reason.disabled
      else if is_nil result.score
      then standard Reason.missing_score
      else if not (is_valid result.score_kind)
      then standard Reason.unknown_score_kind
      else by_validity result
          (validate result.score result.author_id result.opponent_id result.winner_id)
