-- ===== src/Rating/Policy/Weights.antt =====
-- cmd/management/service/rating/score_policy.go: which results are weighted by their score.
use squash_bot.Prelude.{
  ℕ, ◌+◌, ◌<◌, ◌≡◌, ◌≢◌, ◌⊎◌, inl, inr, refl, ap, Option, none, some, Bool, true, false, [], ◌∷◌,
  is_nil, pos, arith, Bool-cases,
}
use squash_bot.Prelude.Text.{Text}
use squash_bot.ResultScore.{validate, parse}
use squash_bot.ResultScore.Laws.{validate_iff}
use squash_bot.Rating.Floats.{Floats}
use squash_bot.Rating.Tables.{Version, Reason, is_valid, GameResult}
use squash_bot.Rating.Policy.{
  ScorePolicy, standard, weighted, typed, by_winner, by_validity, side, select_score_policy,
}

-- The flag is on, the score is there with its kind and is valid, and somebody won.
abbrev pub IsWeighable : GameResult → Bool → Type 0
IsWeighable res enabled =
    (enabled ≡ true)
    × (res.score ≢ [])
    × (is_valid res.score_kind ≡ true)
    × (validate res.score res.author_id res.opponent_id res.winner_id ≡ some tt)
    × (res.winner_id ≢ none)

module _ {F : Type 0} (fl : Floats F) where
  -- The weight of sides x and y: 0.75 + 0.5 * |x - y| / (x + y).
  abbrev pub weight_of : ℕ → ℕ → F
  weight_of x y = fl.add (fl.lit 75 2) (
      fl.mul (fl.lit 5 1)
        (fl.div (fl.abs (fl.sub (fl.of_int x) (fl.of_int y))) (fl.add (fl.of_int x) (fl.of_int y))))

  -- The policy of a result that is weighted, with sides that are not both zero.
  abbrev pub IsWeighted : GameResult → ScorePolicy F → Type 0
  IsWeighted res policy =
      (x : ℕ) × (y : ℕ) × ((parse res.score ≡ some (pos x, pos y))
        × (0 < x + y)
        × (policy.version ≡ Version.glicko2_score_v1)
        × (policy.weight ≡ weight_of x y))

  -- The policy of any other result.
  abbrev pub IsStandard : ScorePolicy F → Type 0
  IsStandard policy = (policy.version ≡ Version.glicko2_v1) × (policy.weight ≡ fl.lit 1 0)

  is_nil→≡ : (s : Text) → is_nil s ≡ true → s ≡ []
  is_nil→≡ [] e = refl
  is_nil→≡ (c ∷ s) e = absurd cc

  typed-IsWeighted :
      (res : GameResult) (w : ℕ)
      → res.score ≢ []
      → res.winner_id ≡ some w
      → validate res.score res.author_id res.opponent_id res.winner_id ≡ some tt
      → IsWeighted res (typed fl (parse res.score))
  unfolding typed weighted side
  typed-IsWeighted res w n e v =
      let fits = (validate_iff res.score res.author_id res.opponent_id (some w)).0 (rw e at v) in
      elim fits.1 [
        | inl nil ↦ absurd (n nil)
        | inr (x, y, parsed, agrees) ↦
            let positive : 0 < x + y = elim fits.0 [
              | inl a ↦ omega (arith, agrees.0 a)
              | inr o ↦ omega (arith, agrees.1 o)
            ] in
            rw parsed (x, y, (refl, positive, refl, refl))
      ]

  Choice : GameResult → Bool → ScorePolicy F → Type 0
  Choice res enabled policy =
      (IsWeighable res enabled × IsWeighted res policy)
      ⊎ ((¬ IsWeighable res enabled) × IsStandard policy)

  by_winner-Choice :
      (res : GameResult) (enabled : Bool) (winner : Option ℕ)
      → res.winner_id ≡ winner
      → enabled ≡ true
      → res.score ≢ []
      → is_valid res.score_kind ≡ true
      → validate res.score res.author_id res.opponent_id res.winner_id ≡ some tt
      → Choice res enabled (by_winner fl res winner)
  unfolding by_winner standard Choice
  by_winner-Choice res enabled none e a b c d = inr (λ h. h.4 e, (refl, refl))
  by_winner-Choice res enabled (some w) e a b c d =
      inl ((a, b, c, d, λ q. absurd cc), typed-IsWeighted res w b e d)

  standard-Choice :
      (res : GameResult) (enabled : Bool) (policy : ScorePolicy F) (reason : Reason)
      → policy ≡ standard fl reason
      → (¬ IsWeighable res enabled)
      → Choice res enabled policy
  unfolding Choice standard
  standard-Choice res enabled policy reason e n = rw e (inr (n, (refl, refl)))

  scored-Choice :
      (res : GameResult) (enabled : Bool)
      → enabled ≡ true
      → is_nil res.score ≡ false
      → is_valid res.score_kind ≡ true
      → (o : Option (Unit {0})) → validate res.score res.author_id res.opponent_id res.winner_id ≡ o
      → Choice res enabled (by_validity fl res o)
  unfolding by_validity
  scored-Choice res enabled e n k none v =
      standard-Choice res enabled (standard fl Reason.invalid_legacy_score)
        Reason.invalid_legacy_score refl (λ h. absurd (ground (arith, v, h.3)))
  scored-Choice res enabled e n k (some u) v =
      by_winner-Choice res enabled res.winner_id refl e
        (λ q. absurd (let s = ap (is_nil {0}) q in cc)) k v

  select_score_policy-Choice :
      (res : GameResult) (enabled : Bool) → Choice res enabled (select_score_policy fl res enabled)
  unfolding select_score_policy
  select_score_policy-Choice res enabled = elim (Bool-cases enabled) [
    | inr e ↦
        rw (e, select_score_policy)
          (standard-Choice res false (standard fl Reason.disabled) Reason.disabled refl
            (λ h. absurd (let q = h.0 in cc)))
    | inl e ↦ elim (Bool-cases (is_nil res.score)) [
      | inl n ↦
          rw (n, e, select_score_policy)
            (standard-Choice res true (standard fl Reason.missing_score) Reason.missing_score refl
              (λ h. h.1 (is_nil→≡ res.score n)))
      | inr n ↦ elim (Bool-cases (is_valid res.score_kind)) [
        | inr k ↦
            rw (n, k, e, select_score_policy)
              (standard-Choice res true (standard fl Reason.unknown_score_kind)
                Reason.unknown_score_kind refl (λ h. absurd (let q = h.2 in cc)))
        | inl k ↦
            rw (n, k, e, select_score_policy)
              (scored-Choice res true refl n k
                (validate res.score res.author_id res.opponent_id res.winner_id) refl)
      ]
    ]
  ]

  -- A result is weighted by its score exactly if the flag is on, the score stands there with a
  -- known kind and is valid, and somebody won; then its sides are numbers of which one is not zero,
  -- so that the margin is divided by a positive sum. Any other result has the weight 1.
  pub select_score_policy_lem :
      (res : GameResult) (enabled : Bool)
      → (IsWeighable res enabled × IsWeighted res (select_score_policy fl res enabled))
        ⊎ ((¬ IsWeighable res enabled) × IsStandard (select_score_policy fl res enabled))
  unfolding Choice
  select_score_policy_lem res enabled = select_score_policy-Choice res enabled
