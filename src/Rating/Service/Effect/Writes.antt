-- ===== src/Rating/Service/Effect/Writes.antt =====
-- ApplyInTx of cmd/management/service/rating_service.go: the writes, and the whole.
use squash_bot.Prelude.{
  ℕ, ◌+◌, ◌≡◌, ◌≢◌, ◌⊎◌, inl, inr, refl, Option, none, some, Bool, true, false, List, ◌∷◌, ltb,
  ◌==◌, if◌then◌else◌, ℤ, arith, Bool-cases,
}
use squash_bot.Prelude.Int.{eqb_ℤ_iff, eqb_ℤ_refl}
use squash_bot.Store.{World, raise}
use squash_bot.Store.Hoare.{After, stmt-After, bind-After, event-After}
use squash_bot.Rating.Floats.{Floats}
use squash_bot.Rating.Glicko.{Rating}
use squash_bot.Rating.Policy.{ScorePolicy, select_score_policy}
use squash_bot.Rating.Tables.{GameResult, PlayerRating, Tables, upsert, owns}
use squash_bot.Rating.Service.{
  Error, Event, upsert_in_tx, insert_change, scores, new_rating, write_if_computed, updated_row,
  change_of, write_ratings, apply_to, row_of, apply_in_tx,
}
use squash_bot.Rating.Service.Counts.{games_at, hit, games_at-upsert}
use squash_bot.Rating.Service.Effect.{IsPlayer, Stage, begin-Stage, upsert-Kept, change-Kept}
use squash_bot.Rating.Service.Effect.Reads.{Read, get_or_init-After, flag_enabled-After}

module _ {F : Type 0} (fl : Floats F) (old : Tables F) (res : GameResult) where
  -- One more game for the player whose row is written.
  games_at-updated :
      (now p : ℕ) (row : PlayerRating F) (new : Rating F) (rows : List (PlayerRating F)) (g : ℤ)
      (q : ℕ)
      → row.games_played ≡ games_at res.group_id p rows
      → games_at g q (upsert (updated_row fl now res.group_id p row new) rows)
        ≡ games_at g q rows + hit g q res.group_id p
  unfolding updated_row
  games_at-updated now p row new rows g q e =
      let after = updated_row fl now res.group_id p row new in
      let u = games_at-upsert after rows g q in
      elim (Bool-cases (owns g q after)) [
        | inl o ↦
            let a : res.group_id ≡ g = (eqb_ℤ_iff res.group_id g).0 (ground arith) in
            let b : p ≡ q = ground arith in
            let y : games_at res.group_id p rows ≡ games_at g q rows = cc in
            ground (arith, u, o, y, e)
        | inr o ↦ ground (arith, u, o)
      ]

  hit_self : (p : ℕ) → hit res.group_id p res.group_id p ≡ 1
  hit_self p = ground (arith, eqb_ℤ_refl res.group_id)

  hit_other : (p q : ℕ) → q ≢ p → hit res.group_id p res.group_id q ≡ 0
  hit_other p q n = ground arith

  author_row-Stage :
      (now : ℕ) (t : Tables F) (author : PlayerRating F) (new : Rating F)
      → author.games_played ≡ games_at res.group_id res.author_id old.ratings
      → Stage fl old res 0 0 0 0 t
      → Stage fl old res 1 0 0 0 (record t {
        ratings = upsert (updated_row fl now res.group_id res.author_id author new) t.ratings;
      })
  unfolding updated_row
  author_row-Stage now t author new e h = record {
    results_kept = h.results_kept;
    next_kept = h.next_kept;
    kept =
        upsert-Kept fl old res t (updated_row fl now res.group_id res.author_id author new) refl
          (inl refl) h.kept;
    games = λ g q. omega (
      arith,
      games_at-updated now res.author_id author new t.ratings g q
          (omega (arith, e, h.games res.group_id res.author_id)),
      h.games g q,
    );
    by_player = h.by_player;
    by_result = h.by_result;
  }

  opponent_row-Stage :
      (now : ℕ) (t : Tables F) (opponent : PlayerRating F) (new : Rating F)
      → res.author_id ≢ res.opponent_id
      → opponent.games_played ≡ games_at res.group_id res.opponent_id old.ratings
      → Stage fl old res 1 0 0 0 t
      → Stage fl old res 1 1 0 0 (record t {
        ratings = upsert (updated_row fl now res.group_id res.opponent_id opponent new) t.ratings;
      })
  unfolding updated_row
  opponent_row-Stage now t opponent new n e h = record {
    results_kept = h.results_kept;
    next_kept = h.next_kept;
    kept =
        upsert-Kept fl old res t (updated_row fl now res.group_id res.opponent_id opponent new) refl
          (inr refl) h.kept;
    games = λ g q. omega (
      arith,
      games_at-updated now res.opponent_id opponent new t.ratings g q (
          omega (
            arith,
            e,
            h.games res.group_id res.opponent_id,
            hit_other res.opponent_id res.author_id n,
          )),
      h.games g q,
    );
    by_player = h.by_player;
    by_result = h.by_result;
  }

  module _ (now : ℕ) (policy : ScorePolicy F) (enabled : Bool) where
    author_change-Stage :
        (t : Tables F) (author : PlayerRating F) (new : Rating F)
        → Stage fl old res 1 1 0 0 t
        → Stage fl old res 1 1 1 0 (record t {
          changes = change_of fl now res policy enabled res.author_id author new ∷ t.changes;
        })
    unfolding change_of
    author_change-Stage t author new h = record {
      results_kept = h.results_kept;
      next_kept = h.next_kept;
      kept =
          change-Kept fl old res t (change_of fl now res policy enabled res.author_id author new)
            h.kept;
      games = h.games;
      by_player = λ g q. omega (arith, h.by_player g q);
      by_result = λ id. omega (arith, h.by_result id);
    }

    opponent_change-Stage :
        (t : Tables F) (opponent : PlayerRating F) (new : Rating F)
        → Stage fl old res 1 1 1 0 t
        → Stage fl old res 1 1 1 1 (record t {
          changes = change_of fl now res policy enabled res.opponent_id opponent new ∷ t.changes;
        })
    unfolding change_of
    opponent_change-Stage t opponent new h = record {
      results_kept = h.results_kept;
      next_kept = h.next_kept;
      kept =
          change-Kept fl old res t
            (change_of fl now res policy enabled res.opponent_id opponent new) h.kept;
      games = h.games;
      by_player = λ g q. omega (arith, h.by_player g q);
      by_result = λ id. omega (arith, h.by_result id);
    }

    write_ratings-After :
        (author opponent : PlayerRating F) (a o : Rating F) (w : World (Tables F) (Event F))
        → res.author_id ≢ res.opponent_id
        → author.games_played ≡ games_at res.group_id res.author_id old.ratings
        → opponent.games_played ≡ games_at res.group_id res.opponent_id old.ratings
        → Stage fl old res 0 0 0 0 w.db
        → After
            (λ _ t. Stage fl old res 1 1 1 1 t)
            (write_ratings fl now res policy enabled author opponent a o w)
    unfolding write_ratings upsert_in_tx insert_change
    write_ratings-After author opponent a o w n ea eo h =
        bind-After (λ _ t. Stage fl old res 1 0 0 0 t) (λ _ t. Stage fl old res 1 1 1 1 t) _ _ w
          (stmt-After (λ _ t. Stage fl old res 1 0 0 0 t) Error.database _ w
            (author_row-Stage now w.db author a ea h))
          (λ _ w1 h1.
            bind-After (λ _ t. Stage fl old res 1 1 0 0 t) (λ _ t. Stage fl old res 1 1 1 1 t) _ _
              w1
              (stmt-After (λ _ t. Stage fl old res 1 1 0 0 t) Error.database _ w1
                (opponent_row-Stage now w1.db opponent o n eo h1))
              (λ _ w2 h2.
                bind-After (λ _ t. Stage fl old res 1 1 1 0 t) (λ _ t. Stage fl old res 1 1 1 1 t) _
                  _ w2
                  (stmt-After (λ _ t. Stage fl old res 1 1 1 0 t) Error.database _ w2
                    (author_change-Stage w2.db author a h2))
                  (λ _ w3 h3.
                    bind-After (λ _ t. Stage fl old res 1 1 1 1 t)
                      (λ _ t. Stage fl old res 1 1 1 1 t) _ _ w3
                      (stmt-After (λ _ t. Stage fl old res 1 1 1 1 t) Error.database _ w3
                        (opponent_change-Stage w3.db opponent o h3))
                      (λ _ w4 h4. event-After _ (λ _ t. Stage fl old res 1 1 1 1 t) _ tt w4 h4))))

  written-After :
      (now : ℕ) (policy : ScorePolicy F) (enabled : Bool) (author opponent : PlayerRating F)
      (a o : Option (Rating F)) (w : World (Tables F) (Event F))
      → res.author_id ≢ res.opponent_id
      → author.games_played ≡ games_at res.group_id res.author_id old.ratings
      → opponent.games_played ≡ games_at res.group_id res.opponent_id old.ratings
      → Stage fl old res 0 0 0 0 w.db
      → After
          (λ _ t. Stage fl old res 1 1 1 1 t)
          (write_if_computed fl now res policy enabled author opponent a o w)
  unfolding write_if_computed
  written-After now policy enabled author opponent (some a) (some o) w n ea eo h =
      write_ratings-After now policy enabled author opponent a o w n ea eo h
  written-After now policy enabled author opponent none o w n ea eo h = unfold raise in tt
  written-After now policy enabled author opponent (some a) none w n ea eo h = unfold raise in tt

  apply_to-After :
      (fuel now : ℕ) (enabled : Bool) (author opponent : PlayerRating F)
      (w : World (Tables F) (Event F))
      → res.author_id ≢ res.opponent_id
      → author.games_played ≡ games_at res.group_id res.author_id old.ratings
      → opponent.games_played ≡ games_at res.group_id res.opponent_id old.ratings
      → Stage fl old res 0 0 0 0 w.db
      → After
          (λ _ t. Stage fl old res 1 1 1 1 t)
          (apply_to fl fuel now res enabled author opponent w)
  unfolding apply_to
  apply_to-After fuel now enabled author opponent w n ea eo h =
      let policy = select_score_policy fl res enabled in
      let (a, o) = scores fl res res.winner_id in
      written-After now policy enabled author opponent
        (new_rating fl fuel author opponent a policy.weight)
        (new_rating fl fuel opponent author o policy.weight) w n ea eo h

  row_of-games :
      (p low high : ℕ) (first second : PlayerRating F)
      → (p ≡ low) ⊎ (p ≡ high)
      → first.games_played ≡ games_at res.group_id low old.ratings
      → second.games_played ≡ games_at res.group_id high old.ratings
      → (row_of fl p high first second).games_played ≡ games_at res.group_id p old.ratings
  unfolding row_of
  row_of-games p low high first second c ef es = elim (Bool-cases (p == high)) [
    | inl e ↦ let same : p ≡ high = ground arith in rw (e, same) es
    | inr e ↦ let same : p ≡ low = ground arith in rw (e, same) ef
  ]

  low_or_high : (b : Bool) (x y : ℕ) → (y ≡ (if b then x else y)) ⊎ (y ≡ (if b then y else x))
  low_or_high true x y = inr refl
  low_or_high false x y = inl refl

  high_or_low : (b : Bool) (x y : ℕ) → (x ≡ (if b then x else y)) ⊎ (x ≡ (if b then y else x))
  high_or_low true x y = inl refl
  high_or_low false x y = inr refl

  -- After a success each of the two players has one more game and one more change, the result two
  -- changes, and nothing else is different.
  pub apply_in_tx-After :
      (has_flags : Bool) (fuel now : ℕ) (w : World (Tables F) (Event F))
      → res.author_id ≢ res.opponent_id
      → w.db ≡ old
      → After (λ _ t. Stage fl old res 1 1 1 1 t) (apply_in_tx fl has_flags fuel now res w)
  unfolding apply_in_tx
  apply_in_tx-After has_flags fuel now w n e =
      let swap = ltb res.opponent_id res.author_id in
      let low = if swap then res.opponent_id else res.author_id in
      let high = if swap then res.author_id else res.opponent_id in
      let of_author : (res.author_id ≡ low) ⊎ (res.author_id ≡ high) =
        low_or_high swap res.opponent_id res.author_id in
      let of_opponent : (res.opponent_id ≡ low) ⊎ (res.opponent_id ≡ high) =
        high_or_low swap res.opponent_id res.author_id in
      bind-After (λ _ t. Stage fl old res 0 0 0 0 t) (λ _ t. Stage fl old res 1 1 1 1 t) _ _ w
        (flag_enabled-After fl old res has_flags w (begin-Stage fl old res w.db e))
        (λ enabled w1 h1.
          bind-After (Read fl old res low) (λ _ t. Stage fl old res 1 1 1 1 t) _ _ w1
            (get_or_init-After fl old res now low w1 (player swap) h1)
            (λ first w2 (h2, ef).
              bind-After (Read fl old res high) (λ _ t. Stage fl old res 1 1 1 1 t) _ _ w2
                (get_or_init-After fl old res now high w2 (player_high swap) h2)
                (λ second w3 (h3, es).
                  apply_to-After fuel now enabled (row_of fl res.author_id high first second)
                    (row_of fl res.opponent_id high first second) w3 n
                    (row_of-games res.author_id low high first second of_author ef es)
                    (row_of-games res.opponent_id low high first second of_opponent ef es) h3)))
    where
      player : (b : Bool) → IsPlayer fl old res (if b then res.opponent_id else res.author_id)
      player true = inr refl
      player false = inl refl

      player_high : (b : Bool) → IsPlayer fl old res (if b then res.author_id else res.opponent_id)
      player_high true = inl refl
      player_high false = inr refl
