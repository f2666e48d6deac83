-- ===== src/Rating/Service/Effect.antt =====
-- ApplyInTx of cmd/management/service/rating_service.go: the tables part way through a run.
pub mod Reads
pub mod Writes
use squash_bot.Prelude.{
  ℕ, zero, suc, ◌+◌, ◌-◌, ◌*◌, ◌/◌, ◌%◌, ◌^◌, ◌≤◌, ◌<◌, min, ◌≡◌, ◌≢◌, ◌⊎◌, ◌↔◌, inl, inr, refl,
  sym, ap, ◌∙◌, Option, none, some, Bool, true, false, ◌&&◌, ◌||◌, not, List, [], ◌∷◌, ◌++◌, map,
  append_assoc, append-nil, length, length-append, take, ltb, leb, is_nil, ◌==◌, if◌then◌else◌, ℤ,
  pos, negsuc, arith, Bool-cases, Option-cases, All, All-append, All-map, ==_iff, ltb→lt, lt→ltb,
  leb→le, String,
}
use squash_bot.Prelude.Int.{eqb_ℤ, eqb_ℤ_iff, eqb_ℤ_refl}
use squash_bot.Store.{World, Prog, pure, raise, stmt, ◌>>=◌, in_tx, record_event}
use squash_bot.Store.Hoare.{After, Settled, stmt-After, bind-After, in_tx-Settled, event-After}
use squash_bot.Rating.Floats.{Floats}
use squash_bot.Rating.Glicko.{Rating}
use squash_bot.Rating.Policy.{ScorePolicy, select_score_policy}
use squash_bot.Rating.Tables.{
  GameResult, PlayerRating, RatingChange, Tables, find_rating, upsert, owns,
}
use squash_bot.Rating.Service.{
  Error, Event, TableProg, one_row, initial, select_rating, insert_if_absent, insert_rating,
  or_again, or_insert, get_or_init, upsert_in_tx, insert_change, flag_or_unknown, flag_enabled,
  scores, new_rating, write_if_computed, updated_row, change_of, write_ratings, apply_to, row_of,
  apply_in_tx, apply_alone,
}
use squash_bot.Rating.Service.Counts.{
  played, games_at, hit, changes_at, changes_for, find_rating-upsert, games_at-upsert,
}

module _ {F : Type 0} (fl : Floats F) (old : Tables F) (res : GameResult) where
  -- The players whose rows are read and written.
  abbrev pub IsPlayer : ℕ → Type 0
  IsPlayer p = (p ≡ res.author_id) ⊎ (p ≡ res.opponent_id)

  -- What the run does not touch: the flags, the ratings of everybody but the two players in the
  -- result's group, and the changes that the history had.
  pub record Kept (t : Tables F) : Type 0 where
    pub flags : t.flags ≡ old.flags
    pub others :
        (g : ℤ) (p : ℕ)
        → hit g p res.group_id res.author_id ≡ 0
        → hit g p res.group_id res.opponent_id ≡ 0
        → find_rating g p t.ratings ≡ find_rating g p old.ratings
    pub added : List (RatingChange F)
    pub earlier : t.changes ≡ added ++ old.changes

  pub begin-Kept : (t : Tables F) → t ≡ old → Kept t
  begin-Kept t e =
      rw e (record { flags = refl; others = λ g p a o. refl; added = []; earlier = refl })

  not_owned :
      (row : PlayerRating F) (g : ℤ) (q : ℕ)
      → row.group_id ≡ res.group_id
      → IsPlayer row.player_id
      → hit g q res.group_id res.author_id ≡ 0
      → hit g q res.group_id res.opponent_id ≡ 0
      → owns g q row ≡ false
  not_owned row g q e (inl p) a o = rw (e, p) (ground (arith, a))
  not_owned row g q e (inr p) a o = rw (e, p) (ground (arith, o))

  -- A write of one player's row.
  pub upsert-Kept :
      (t : Tables F) (row : PlayerRating F)
      → row.group_id ≡ res.group_id
      → IsPlayer row.player_id
      → Kept t
      → Kept (record t { ratings = upsert row t.ratings })
  upsert-Kept t row e p k = record {
    flags = k.flags;
    others = λ g q a o.
        find_rating-upsert row t.ratings g q ∙ rw (not_owned row g q e p a o) (k.others g q a o);
    added = k.added;
    earlier = k.earlier;
  }

  pub change-Kept :
      (t : Tables F) (c : RatingChange F) → Kept t → Kept (record t { changes = c ∷ t.changes })
  change-Kept t c k = record {
    flags = k.flags;
    others = k.others;
    added = c ∷ k.added;
    earlier = ap {A = List (RatingChange F)} {B = List (RatingChange F)} (λ cs. c ∷ cs) k.earlier;
  }

  -- The tables part way through: whether the rows of the author and the opponent are written, and
  -- their changes.
  pub record Stage (a o ca co : ℕ) (t : Tables F) : Type 0 where
    pub results_kept : t.results ≡ old.results
    pub next_kept : t.next_id ≡ old.next_id
    pub kept : Kept t
    pub games :
        (g : ℤ) (p : ℕ)
        → games_at g p t.ratings
          ≡ games_at g p old.ratings
            + a * hit g p res.group_id res.author_id
            + o * hit g p res.group_id res.opponent_id
    pub by_player :
        (g : ℤ) (p : ℕ)
        → changes_at g p t.changes
          ≡ changes_at g p old.changes
            + ca * hit g p res.group_id res.author_id
            + co * hit g p res.group_id res.opponent_id
    pub by_result :
        (id : ℕ)
        → changes_for id t.changes
          ≡ changes_for id old.changes + (ca + co) * (if res.id == id then 1 else 0)

  pub begin-Stage : (t : Tables F) → t ≡ old → Stage 0 0 0 0 t
  begin-Stage t e = rw e (record {
    results_kept = refl;
    next_kept = refl;
    kept = begin-Kept old refl;
    games = λ g q. omega arith;
    by_player = λ g q. omega arith;
    by_result = λ id. omega arith;
  })
