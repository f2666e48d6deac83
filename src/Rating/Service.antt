-- ===== src/Rating/Service.antt =====
-- RatingService.ApplyInTx and Apply of cmd/management/service/rating_service.go.
pub mod Counts
pub mod Effect
pub mod Success
use squash_bot.Prelude.{
  ℕ, zero, suc, ◌+◌, ◌-◌, ◌*◌, ◌/◌, ◌%◌, ◌^◌, ◌≤◌, ◌<◌, min, ◌≡◌, ◌≢◌, ◌⊎◌, ◌↔◌, inl, inr, refl,
  sym, ap, ◌∙◌, Option, none, some, Bool, true, false, ◌&&◌, ◌||◌, not, List, [], ◌∷◌, ◌++◌, map,
  append_assoc, append-nil, length, length-append, take, ltb, leb, is_nil, ◌==◌, if◌then◌else◌, ℤ,
  pos, negsuc, arith, Bool-cases, Option-cases, All, All-append, All-map, ==_iff, ltb→lt, lt→ltb,
  leb→le, String,
}
use squash_bot.Prelude.Text.{Text}
use squash_bot.Store.{World, Prog, pure, raise, stmt, ◌>>=◌, in_tx, record_event}
use squash_bot.Flags.{State, score_aware_rating, read_flag}
use squash_bot.Rating.Floats.{Floats}
use squash_bot.Rating.Glicko.{Rating, MatchResult, apply, default, tau}
use squash_bot.Rating.Policy.{ScorePolicy, select_score_policy}
use squash_bot.Rating.Tables.{
  ScoreKind, Status, GameResult, PlayerRating, RatingChange, Tables, find_rating, upsert, owns,
}

pub data Error : Type 0 where
  database : Error
  unknown_flag : Error
  no_rows : Error
  -- the numerical loops do not end
  no_answer : Error
  not_found forbidden not_pending : Error

-- The rows of the audit log that ratings and results write.
pub data Event (F : Type 0) : Type 0 where
  rating_updated : ℕ → ℤ → ℕ → F → ℕ → F → Event F
  result_submitted : ℕ → ℤ → ℕ → Event F
  result_decided : ℕ → ℤ → ℕ → Status → Event F
  result_auto_approved : ℕ → ℤ → Event F

abbrev pub TableProg : Type 0 → Type 0 → Type 0
TableProg F A = Prog (Tables F) (Event F) Error A

-- A query without a row is ErrNoRows.
one_row : {F A : Type 0} → Option A → TableProg F A
one_row none = raise Error.no_rows
one_row (some a) = pure a

module _ {F : Type 0} (fl : Floats F) where
  -- The row that insertQ writes.
  initial : ℕ → ℤ → ℕ → PlayerRating F
  initial now g p = record {
    group_id = g;
    player_id = p;
    rating = fl.lit 1500 0;
    rd = fl.lit 350 0;
    volatility = fl.lit 6 2;
    games_played = 0;
    updated_at = now;
  }

  select_rating : ℤ → ℕ → TableProg F (Option (PlayerRating F))
  select_rating g p = stmt Error.database (λ t. (find_rating g p t.ratings, t))

  -- insertQ: ON CONFLICT DO NOTHING returns no row.
  insert_if_absent :
      PlayerRating F → Option (PlayerRating F) → Tables F → Option (PlayerRating F) × Tables F
  insert_if_absent new (some r) t = (none, t)
  insert_if_absent new none t = (some new, record t { ratings = upsert new t.ratings })

  insert_rating : ℕ → ℤ → ℕ → TableProg F (Option (PlayerRating F))
  unfolding insert_if_absent
  insert_rating now g p =
      stmt Error.database (λ t. insert_if_absent (initial now g p) (find_rating g p t.ratings) t)

  or_again : ℤ → ℕ → Option (PlayerRating F) → TableProg F (PlayerRating F)
  unfolding select_rating one_row
  or_again g p (some r) = pure r
  or_again g p none = select_rating g p >>= one_row

  or_insert : ℕ → ℤ → ℕ → Option (PlayerRating F) → TableProg F (PlayerRating F)
  unfolding or_again insert_rating
  or_insert now g p (some r) = pure r
  or_insert now g p none = insert_rating now g p >>= or_again g p

  -- getOrInitForUpdate
  pub get_or_init : ℕ → ℤ → ℕ → TableProg F (PlayerRating F)
  get_or_init now g p = select_rating g p >>= or_insert now g p

  -- upsertInTx
  upsert_in_tx : PlayerRating F → TableProg F (Unit {0})
  upsert_in_tx new = stmt Error.database (λ t. (tt, record t { ratings = upsert new t.ratings }))

  -- InsertInTx of the repository of rating changes.
  insert_change : RatingChange F → TableProg F (Unit {0})
  insert_change c = stmt Error.database (λ t. (tt, record t { changes = c ∷ t.changes }))

  flag_or_unknown : Option State → TableProg F Bool
  flag_or_unknown none = raise Error.unknown_flag
  flag_or_unknown (some s) = pure s.enabled

  -- EnabledInTx, if the evaluator is wired.
  pub flag_enabled : Bool → ℤ → TableProg F Bool
  unfolding flag_or_unknown
  flag_enabled false g = pure false
  flag_enabled true g =
      stmt Error.database (λ t. (read_flag t.flags score_aware_rating (some g), t))
      >>= flag_or_unknown

  -- authorScore and opponentScore
  scores : GameResult → Option ℕ → F × F
  scores res none = (fl.lit 5 1, fl.lit 5 1)
  scores res (some w) =
      if w == res.author_id then (fl.lit 1 0, fl.lit 0 0) else (fl.lit 0 0, fl.lit 1 0)

  rating_of : PlayerRating F → Rating F
  rating_of row = record { r = row.rating; rd = row.rd; sigma = row.volatility }

  -- rating.Apply with the one result against `opponent`.
  new_rating : ℕ → PlayerRating F → PlayerRating F → F → F → Option (Rating F)
  unfolding rating_of
  new_rating fuel row opponent score weight =
      apply fl fuel (rating_of row)
        (record { opponent = rating_of opponent; score = score; weight = weight } ∷ []) (tau fl)

  updated_row : ℕ → ℤ → ℕ → PlayerRating F → Rating F → PlayerRating F
  updated_row now g p old new = record {
    group_id = g;
    player_id = p;
    rating = new.r;
    rd = new.rd;
    volatility = new.sigma;
    games_played = old.games_played + 1;
    updated_at = now;
  }

  change_of : ℕ → GameResult → ScorePolicy F → Bool → ℕ → PlayerRating F → Rating F → RatingChange F
  change_of now res policy enabled p old new = record {
    game_result_id = res.id;
    group_id = res.group_id;
    player_id = p;
    old_rating = old.rating;
    new_rating = new.r;
    old_rd = old.rd;
    new_rd = new.rd;
    delta = fl.sub new.r old.rating;
    applied_at = now;
    policy_version = policy.version;
    evidence_weight = policy.weight;
    score_kind = res.score_kind;
    policy_reason = policy.reason;
    score_aware_enabled = enabled;
  }

  -- The writes of ApplyInTx, after both ratings are computed.
  write_ratings :
      ℕ
      → GameResult
      → ScorePolicy F
      → Bool
      → PlayerRating F
      → PlayerRating F
      → Rating F
      → Rating F
      → TableProg F (Unit {0})
  write_ratings now res policy enabled author opponent author_new opponent_new =
      upsert_in_tx (updated_row now res.group_id res.author_id author author_new) >>= λ _.
      upsert_in_tx (updated_row now res.group_id res.opponent_id opponent opponent_new) >>= λ _.
      insert_change (change_of now res policy enabled res.author_id author author_new) >>= λ _.
      insert_change (change_of now res policy enabled res.opponent_id opponent opponent_new)
      >>= λ _.
          record_event
            (Event.rating_updated res.id res.group_id res.author_id
              (fl.sub author_new.r author.rating) res.opponent_id
              (fl.sub opponent_new.r opponent.rating))
            tt

  -- The writes, if both calls of rating.Apply return.
  write_if_computed :
      ℕ
      → GameResult
      → ScorePolicy F
      → Bool
      → PlayerRating F
      → PlayerRating F
      → Option (Rating F)
      → Option (Rating F)
      → TableProg F (Unit {0})
  write_if_computed now res policy enabled author opponent (some a) (some o) =
      write_ratings now res policy enabled author opponent a o
  write_if_computed now res policy enabled author opponent a o = raise Error.no_answer

  -- What follows the locks, with the two rows.
  apply_to : ℕ → ℕ → GameResult → Bool → PlayerRating F → PlayerRating F → TableProg F (Unit {0})
  unfolding scores
  apply_to fuel now res enabled author opponent =
      let policy = select_score_policy fl res enabled in
      let (a, o) = scores res res.winner_id in
      write_if_computed now res policy enabled author opponent
        (new_rating fuel author opponent a policy.weight)
        (new_rating fuel opponent author o policy.weight)

  -- The rows of `ratings`, a map by the player's id to which `first` is written before `second`.
  row_of : ℕ → ℕ → PlayerRating F → PlayerRating F → PlayerRating F
  row_of p second_id first second = if p == second_id then second else first

  -- ApplyInTx. The rows are locked in the order of the players' ids.
  pub apply_in_tx : Bool → ℕ → ℕ → GameResult → TableProg F (Unit {0})
  unfolding row_of
  apply_in_tx has_flags fuel now res =
      let swap = ltb res.opponent_id res.author_id in
      let low = if swap then res.opponent_id else res.author_id in
      let high = if swap then res.author_id else res.opponent_id in
      flag_enabled has_flags res.group_id >>= λ enabled.
      get_or_init now res.group_id low >>= λ first. get_or_init now res.group_id high >>= λ second.
      apply_to fuel now res enabled (row_of res.author_id high first second)
        (row_of res.opponent_id high first second)

  -- Apply
  pub apply_alone : Bool → ℕ → ℕ → GameResult → TableProg F (Unit {0})
  apply_alone has_flags fuel now res =
      in_tx Error.database Error.database (apply_in_tx has_flags fuel now res)
