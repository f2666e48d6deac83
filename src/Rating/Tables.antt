-- ===== src/Rating/Tables.antt =====
-- The tables and models that ratings and results share: internal/models/game_result.go and
-- player_rating.go, and the statements of cmd/management/storage/game_result_repo.go and of
-- rating_service.go on them.
use squash_bot.Prelude.{
  ℕ, Option, none, some, Bool, true, false, ◌&&◌, List, [], ◌∷◌, ◌==◌, if◌then◌else◌, ℤ,
}
use squash_bot.Prelude.Int.{eqb_ℤ}
use squash_bot.Prelude.Text.{Text}
use squash_bot.Flags.{FlagRow}

-- ScorePolicy.Version and ScorePolicy.Reason
pub data Version : Type 0 where
  glicko2_v1 glicko2_score_v1 : Version

pub data Reason : Type 0 where
  disabled missing_score unknown_score_kind invalid_legacy_score draw typed_score : Reason

-- ScoreKind: empty, points, games, or anything else.
pub data ScoreKind : Type 0 where
  unset points games : ScoreKind
  other_kind : Text → ScoreKind

-- ScoreKind.Valid
abbrev pub is_valid : ScoreKind → Bool
is_valid ScoreKind.points = true
is_valid ScoreKind.games = true
is_valid k = false

-- GameResultStatus
pub data Status : Type 0 where
  pending approved auto_approved rejected canceled : Status

abbrev pub is_pending : Status → Bool
is_pending Status.pending = true
is_pending s = false

-- GameResult, without the fields that only serve the answer to a client.
pub record GameResult : Type 0 where
  pub id : ℕ
  pub game_id : ℕ
  pub group_id : ℤ
  pub author_id : ℕ
  pub opponent_id : ℕ
  pub winner_id : Option ℕ
  pub score : Text
  pub score_kind : ScoreKind
  pub status : Status
  pub submitted_at : ℕ
  pub decided_at : Option ℕ

-- PlayerRating
pub record PlayerRating (F : Type 0) : Type 0 where
  pub group_id : ℤ
  pub player_id : ℕ
  pub rating : F
  pub rd : F
  pub volatility : F
  pub games_played : ℕ
  pub updated_at : ℕ

-- RatingChange, without its own id.
pub record RatingChange (F : Type 0) : Type 0 where
  pub game_result_id : ℕ
  pub group_id : ℤ
  pub player_id : ℕ
  pub old_rating : F
  pub new_rating : F
  pub old_rd : F
  pub new_rd : F
  pub delta : F
  pub applied_at : ℕ
  pub policy_version : Version
  pub evidence_weight : F
  pub score_kind : ScoreKind
  pub policy_reason : Reason
  pub score_aware_enabled : Bool

-- The tables; `next_id` is the sequence of game_results.
pub record Tables (F : Type 0) : Type 0 where
  pub results : List GameResult
  pub next_id : ℕ
  pub ratings : List (PlayerRating F)
  pub changes : List (RatingChange F)
  pub flags : List FlagRow

-- SELECT … FROM game_results WHERE id = $1
abbrev pub find_result : ℕ → List GameResult → Option GameResult
find_result id [] = none
find_result id (r ∷ rs) = if r.id == id then some r else find_result id rs

-- An update of the row with the id, which is the primary key.
abbrev pub put_result : ℕ → GameResult → List GameResult → List GameResult
put_result id new [] = []
put_result id new (r ∷ rs) = if r.id == id then new ∷ rs else r ∷ put_result id new rs

abbrev pub owns : {F : Type 0} → ℤ → ℕ → PlayerRating F → Bool
owns g p row = eqb_ℤ row.group_id g && row.player_id == p

-- SELECT … FROM player_ratings WHERE group_id = $1 AND player_id = $2
abbrev pub find_rating : {F : Type 0} → ℤ → ℕ → List (PlayerRating F) → Option (PlayerRating F)
find_rating g p [] = none
find_rating g p (r ∷ rs) = if owns g p r then some r else find_rating g p rs

-- INSERT … ON CONFLICT (group_id, player_id) DO UPDATE; the pair is the primary key.
abbrev pub upsert : {F : Type 0} → PlayerRating F → List (PlayerRating F) → List (PlayerRating F)
upsert new [] = new ∷ []
upsert new (r ∷ rs) = if owns new.group_id new.player_id r then new ∷ rs else r ∷ upsert new rs
