-- ===== src/Rating/Service/Success.antt =====
-- ApplyInTx of cmd/management/service/rating_service.go: a run in which no statement fails.
use squash_bot.Prelude.{ℕ, ◌≡◌, refl, Option, none, some, Bool, true, false, List, [], ◌∷◌, ℤ}
use squash_bot.Prelude.Text.{text_ops}
use squash_bot.Store.{World, pure}
use squash_bot.Store.Calm.{Succeeds, stmt-Succeeds, bind-Succeeds, event-Succeeds}
use squash_bot.Flags.{State, lookup, read_flag, score_aware_rating, FlagRow}
use squash_bot.Rating.Floats.{Floats}
use squash_bot.Rating.Glicko.{Rating, MatchResult, apply, tau}
use squash_bot.Rating.Policy.{ScorePolicy, select_score_policy}
use squash_bot.Rating.Tables.{GameResult, PlayerRating, Tables, find_rating}
use squash_bot.Rating.Service.{
  Error, Event, initial, select_rating, insert_if_absent, insert_rating, or_again, or_insert,
  get_or_init, upsert_in_tx, insert_change, flag_or_unknown, flag_enabled, scores, new_rating,
  rating_of, write_if_computed, write_ratings, apply_to, apply_in_tx,
}

-- The numerical loops end within the fuel.
abbrev pub Converges : {F : Type 0} → Floats F → ℕ → Type 0
Converges {F = F} fl fuel =
    (p : Rating F) (ms : List (MatchResult F))
    → (q : Rating F) × (apply fl fuel p ms (tau fl) ≡ some q)

known_flag :
    (rows : List FlagRow) (g : ℤ)
    → (s : State) × (read_flag rows score_aware_rating (some g) ≡ some s)
unfolding read_flag lookup text_ops
known_flag rows g = (_, refl)

module _ {F : Type 0} (fl : Floats F) where
  Any : {A : Type 0} → A → Tables F → Type 0
  Any a t = Unit

  flag_enabled-Succeeds :
      (has_flags : Bool) (g : ℤ) (w : World (Tables F) (Event F))
      → w.down ≡ []
      → Succeeds Any (flag_enabled fl has_flags g w)
  unfolding flag_enabled flag_or_unknown Any
  flag_enabled-Succeeds false g w calm = unfold pure in (tt, calm)
  flag_enabled-Succeeds true g w calm =
      bind-Succeeds (λ o t. (s : State) × (o ≡ some s)) Any _ (flag_or_unknown fl) w
        (stmt-Succeeds (λ o t. (s : State) × (o ≡ some s)) Error.database _ w calm
          (known_flag w.db.flags g))
        (λ o v (s, e) quiet. rw e (unfold pure in (tt, quiet)))

  get_or_init-Succeeds :
      (now : ℕ) (g : ℤ) (p : ℕ) (w : World (Tables F) (Event F))
      → w.down ≡ []
      → Succeeds Any (get_or_init fl now g p w)
  unfolding get_or_init or_insert insert_rating insert_if_absent select_rating or_again Any
  get_or_init-Succeeds now g p w calm =
      bind-Succeeds (λ o t. o ≡ find_rating g p t.ratings) Any (select_rating fl g p)
        (or_insert fl now g p) w
        (stmt-Succeeds (λ o t. o ≡ find_rating g p t.ratings) Error.database _ w calm refl)
        (λ o v e quiet. inserted o v e quiet)
    where
      inserted :
          (o : Option (PlayerRating F)) (v : World (Tables F) (Event F))
          → o ≡ find_rating g p v.db.ratings
          → v.down ≡ []
          → Succeeds Any (or_insert fl now g p o v)
      inserted (some r) v e quiet = unfold pure in (tt, quiet)
      inserted none v e quiet =
          bind-Succeeds (λ o t. (r : PlayerRating F) × (o ≡ some r)) Any _ (or_again fl g p) v
            (stmt-Succeeds (λ o t. (r : PlayerRating F) × (o ≡ some r)) Error.database _ v quiet
              (rw (← e) (initial fl now g p, refl)))
            (λ o u (r, f) still. rw f (unfold pure in (tt, still)))

  write_ratings-Succeeds :
      (now : ℕ) (res : GameResult) (policy : ScorePolicy F) (enabled : Bool)
      (author opponent : PlayerRating F) (a o : Rating F) (w : World (Tables F) (Event F))
      → w.down ≡ []
      → Succeeds Any (write_ratings fl now res policy enabled author opponent a o w)
  unfolding write_ratings upsert_in_tx insert_change Any
  write_ratings-Succeeds now res policy enabled author opponent a o w calm =
      bind-Succeeds Any Any _ _ w (stmt-Succeeds Any Error.database _ w calm tt) (λ _ w1 _ c1.
        bind-Succeeds Any Any _ _ w1 (stmt-Succeeds Any Error.database _ w1 c1 tt) (λ _ w2 _ c2.
          bind-Succeeds Any Any _ _ w2 (stmt-Succeeds Any Error.database _ w2 c2 tt) (λ _ w3 _ c3.
            bind-Succeeds Any Any _ _ w3 (stmt-Succeeds Any Error.database _ w3 c3 tt)
              (λ _ w4 _ c4. event-Succeeds _ Any _ tt w4 c4 tt))))

  module _ (fuel : ℕ) (converges : Converges fl fuel) where
    apply_to-Succeeds :
        (now : ℕ) (res : GameResult) (enabled : Bool) (author opponent : PlayerRating F)
        (w : World (Tables F) (Event F))
        → w.down ≡ []
        → Succeeds Any (apply_to fl fuel now res enabled author opponent w)
    unfolding apply_to new_rating write_if_computed
    apply_to-Succeeds now res enabled author opponent w calm =
        let policy = select_score_policy fl res enabled in
        let (a, o) = scores fl res res.winner_id in
        let (an, e) =
          converges (rating_of fl author)
            (record { opponent = rating_of fl opponent; score = a; weight = policy.weight } ∷ []) in
        let (on, f) =
          converges (rating_of fl opponent)
            (record { opponent = rating_of fl author; score = o; weight = policy.weight } ∷ []) in
        rw (e, f) (write_ratings-Succeeds now res policy enabled author opponent an on w calm)

    -- Without a failing statement, and if the loops end, the ratings are written.
    pub apply_in_tx-Succeeds :
        (has_flags : Bool) (now : ℕ) (res : GameResult) (w : World (Tables F) (Event F))
        → w.down ≡ []
        → Succeeds (λ _ t. Unit) (apply_in_tx fl has_flags fuel now res w)
    unfolding apply_in_tx Any
    apply_in_tx-Succeeds has_flags now res w calm =
        bind-Succeeds Any Any _ _ w (flag_enabled-Succeeds has_flags res.group_id w calm)
          (λ enabled w1 _ c1.
            bind-Succeeds Any Any _ _ w1 (get_or_init-Succeeds now res.group_id _ w1 c1)
              (λ first w2 _ c2.
                bind-Succeeds Any Any _ _ w2 (get_or_init-Succeeds now res.group_id _ w2 c2)
                  (λ second w3 _ c3. apply_to-Succeeds now res enabled _ _ w3 c3)))
