-- ===== src/Results/Decision.antt =====
-- commitDecision of cmd/management/service/game_result_service.go and autoApproveOne of
-- auto_approve_results.go: what a decision leaves in the tables.
use squash_bot.Prelude.{
  ℕ, ◌+◌, ◌*◌, ◌≡◌, ◌≢◌, inl, inr, refl, ap, ◌∙◌, Option, none, some, Bool, true, false, ◌&&◌, List,
  [], ◌++◌, ◌==◌, if◌then◌else◌, ℤ, arith, Bool-cases,
}
use squash_bot.Results.Rows.{find_result-id, find_result-put}
use squash_bot.Store.{World, pure, raise}
use squash_bot.Store.Hoare.{
  Settled, bind-After, in_tx-Settled, stmt-Settled, bind-Settled, Settled-map, Settled→After,
  After-map,
}
use squash_bot.Rating.Floats.{Floats}
use squash_bot.Rating.Tables.{
  Status, is_pending, GameResult, Tables, find_result, put_result, find_rating, RatingChange,
}
use squash_bot.Rating.Service.{Error, Event}
use squash_bot.Rating.Service.Counts.{games_at, hit, changes_at, changes_for}
use squash_bot.Rating.Service.Effect.{Stage}
use squash_bot.Rating.Service.Effect.Writes.{apply_in_tx-After}
use squash_bot.Results.{
  decide_row, or_not_pending, decide_in, is_approved, Wiring, decide_and_rate, commit_decision,
  auto_approve_one,
}

abbrev pub decided_row : GameResult → Status → ℕ → GameResult
decided_row row status now = record row { status = status; decided_at = some now }

-- The result was pending and is now decided; `n` tells how often its two players were rated.
pub record IsDecided {F : Type 0} (n : ℕ) (old : Tables F) (res : GameResult) (status : Status)
    (now : ℕ) (t : Tables F) : Type 0 where
  pub row : GameResult
  pub was : find_result res.id old.results ≡ some row
  pub open_row : is_pending row.status ≡ true
  pub results : t.results ≡ put_result res.id (decided_row row status now) old.results
  pub read_back :
      (k : ℕ)
      → find_result k t.results
        ≡ (if res.id == k then some (decided_row row status now) else find_result k old.results)
  pub next_kept : t.next_id ≡ old.next_id
  pub games :
      (g : ℤ) (p : ℕ)
      → games_at g p t.ratings
        ≡ games_at g p old.ratings
          + n * hit g p res.group_id res.author_id
          + n * hit g p res.group_id res.opponent_id
  pub by_player :
      (g : ℤ) (p : ℕ)
      → changes_at g p t.changes
        ≡ changes_at g p old.changes
          + n * hit g p res.group_id res.author_id
          + n * hit g p res.group_id res.opponent_id
  pub by_result :
      (id : ℕ)
      → changes_for id t.changes
        ≡ changes_for id old.changes + (n + n) * (if res.id == id then 1 else 0)
  pub flags_kept : t.flags ≡ old.flags
  pub others_kept :
      (g : ℤ) (p : ℕ)
      → hit g p res.group_id res.author_id ≡ 0
      → hit g p res.group_id res.opponent_id ≡ 0
      → find_rating g p t.ratings ≡ find_rating g p old.ratings
  pub added : List (RatingChange F)
  pub earlier_kept : t.changes ≡ added ++ old.changes
  pub unrated : n ≡ 0 → (t.ratings ≡ old.ratings) × (t.changes ≡ old.changes)

-- The rating that a decision brings about.
abbrev pub rounds : Bool → ℕ
rounds true = 1
rounds false = 0

module _ {F : Type 0} (res : GameResult) (status : Status) (now : ℕ) where
  -- Whether the first statement decides the row, and the tables after it.
  abbrev Flipped : Tables F → Bool → Tables F → Type 0
  Flipped old true t = IsDecided 0 old res status now t
  Flipped old false t = t ≡ old

  decide_row-Flipped :
      (old : Tables F) (o : Option GameResult)
      → find_result res.id old.results ≡ o
      → Flipped old (decide_row res.id status now old o).0 (decide_row res.id status now old o).1
  unfolding decide_row
  decide_row-Flipped old none e = refl
  decide_row-Flipped old (some r) e = elim (Bool-cases (is_pending r.status)) [
    | inr b ↦ rw b refl
    | inl b ↦ rw b (record {
      row = r;
      was = e;
      open_row = b;
      results = refl;
      read_back = λ k.
          find_result-put res.id k old.results r (decided_row r status now) e
            (find_result-id res.id old.results r e);
      next_kept = refl;
      games = λ g p. omega arith;
      by_player = λ g p. omega arith;
      by_result = λ id. omega arith;
      flags_kept = refl;
      others_kept = λ g p a o. refl;
      added = [];
      earlier_kept = refl;
      unrated = λ z. (refl, refl);
    })
  ]

  or_not_pending-Settled :
      (old : Tables F) (b : Bool) (v : World (Tables F) (Event F))
      → Flipped old b v.db
      → Settled old (λ _ t. IsDecided 0 old res status now t) (or_not_pending b v)
  unfolding or_not_pending
  or_not_pending-Settled old true v h = unfold pure in h
  or_not_pending-Settled old false v h = unfold raise in h

  decide_in-Settled :
      (w : World (Tables F) (Event F))
      → Settled w.db (λ _ t. IsDecided 0 w.db res status now t) (decide_in res.id status now w)
  unfolding decide_in
  decide_in-Settled w =
      bind-Settled w.db (Flipped w.db) (λ _ t. IsDecided 0 w.db res status now t) _ or_not_pending w
        (stmt-Settled (Flipped w.db) Error.database _ w
          (decide_row-Flipped w.db (find_result res.id w.db.results) refl))
        (λ b v h. or_not_pending-Settled w.db b v h)

  rated-IsDecided :
      (fl : Floats F) (old t u : Tables F)
      → IsDecided 0 old res status now t
      → Stage fl t res 1 1 1 1 u
      → IsDecided 1 old res status now u
  rated-IsDecided fl old t u h s = record {
    row = h.row;
    was = h.was;
    open_row = h.open_row;
    results = s.results_kept ∙ h.results;
    read_back = λ k. ap (find_result k) s.results_kept ∙ h.read_back k;
    next_kept = s.next_kept ∙ h.next_kept;
    games = λ g p. omega (arith, s.games g p, h.games g p);
    by_player = λ g p. omega (arith, s.by_player g p, h.by_player g p);
    by_result = λ id. omega (arith, s.by_result id, h.by_result id);
    flags_kept = s.kept.flags ∙ h.flags_kept;
    others_kept = λ g p a o. s.kept.others g p a o ∙ h.others_kept g p a o;
    added = s.kept.added;
    earlier_kept = s.kept.earlier ∙ ap (λ cs. s.kept.added ++ cs) ((h.unrated refl).1);
    unrated = λ z. absurd (omega (arith, z));
  }

  module _ (fl : Floats F) (wiring : Wiring) where
    decide_and_rate-Settled :
        (w : World (Tables F) (Event F))
        → res.author_id ≢ res.opponent_id
        → Settled w.db
            (λ _ t. IsDecided 1 w.db res status now t)
            (decide_and_rate fl wiring res status now w)
    unfolding decide_and_rate
    decide_and_rate-Settled w n =
        in_tx-Settled (λ _ t. IsDecided 1 w.db res status now t) Error.database Error.database _ w
          (λ v same.
            bind-After (λ _ t. IsDecided 0 w.db res status now t)
              (λ _ t. IsDecided 1 w.db res status now t) _ _ v
              (Settled→After v.db (λ _ t. IsDecided 0 w.db res status now t) _ (first v same))
              (λ _ u h.
                After-map (λ _ t. Stage fl u.db res 1 1 1 1 t)
                  (λ _ t. IsDecided 1 w.db res status now t) _
                  (λ _ t s. rated-IsDecided fl w.db u.db t h s)
                  (apply_in_tx-After fl u.db res wiring.has_flags wiring.fuel now u n refl)))
      where
        first :
            (v : World (Tables F) (Event F))
            → v.db ≡ w.db
            → Settled v.db
                (λ _ t. IsDecided 0 w.db res status now t)
                (decide_in res.id status now v)
        first v same =
            Settled-map (λ _ t. IsDecided 0 v.db res status now t)
              (λ _ t. IsDecided 0 w.db res status now t) _ v.db (λ _ t h. rw same at h)
              (decide_in-Settled v)

    -- Whatever fails, a decision is all or nothing. It succeeds only on a pending result, which it
    -- leaves decided; an approval gives each of the two players one more game and one more change,
    -- where ratings are wired, and any other decision leaves ratings and history as they were. No
    -- other row of the results changes, and neither do the ratings of others, the changes that the
    -- history had, the flags and the sequence of the ids.
    pub commit_decision_lem :
        (w : World (Tables F) (Event F))
        → res.author_id ≢ res.opponent_id
        → Settled w.db
            (λ _ t. IsDecided (rounds (is_approved status && wiring.rated)) w.db res status now t)
            (commit_decision fl wiring res status now w)
    unfolding commit_decision
    commit_decision_lem w n = elim (Bool-cases (is_approved status)) [
      | inr e ↦ rw e (decide_in-Settled w)
      | inl e ↦ elim (Bool-cases wiring.rated) [
        | inr f ↦ simp (e, f) (decide_in-Settled w)
        | inl f ↦ simp (e, f) (decide_and_rate-Settled w n)
      ]
    ]

module _ {F : Type 0} (fl : Floats F) (wiring : Wiring) where
  -- An automatic approval is all or nothing too: it succeeds only on a pending result, and rates
  -- the two players once where ratings are wired.
  pub auto_approve_one_lem :
      (res : GameResult) (now : ℕ) (w : World (Tables F) (Event F))
      → res.author_id ≢ res.opponent_id
      → Settled w.db
          (λ _ t. IsDecided (rounds wiring.rated) w.db res Status.auto_approved now t)
          (auto_approve_one fl wiring res now w)
  unfolding auto_approve_one
  auto_approve_one_lem res now w n = elim (Bool-cases wiring.rated) [
    | inr f ↦ simp f (decide_in-Settled res Status.auto_approved now w)
    | inl f ↦ simp f (decide_and_rate-Settled res Status.auto_approved now fl wiring w n)
  ]
