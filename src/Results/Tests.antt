-- ===== src/Results/Tests.antt =====
-- Runs of submissions and decisions, and their theorems at concrete inputs.
use squash_bot.Prelude.{
  List, some, negsuc, ℕ, ◌+◌, ◌-◌, ◌*◌, ◌/◌, min, ◌≡◌, ◌≢◌, inl, inr, ◌⊎◌, refl, true, false, ◌&&◌,
  [], ◌∷◌, ltb, leb, ◌==◌, if◌then◌else◌, arith, Bool-cases,
}
use squash_bot.Store.Hoare.{Settled}
use squash_bot.Rating.Floats.{Floats}
use squash_bot.Rating.Policy.{select_score_policy}
use squash_bot.Rating.Policy.Weights.{IsWeighable, IsWeighted, IsStandard, select_score_policy_lem}
use mathlib.Core.Option
use squash_bot.Rating.Leaderboard.{leaderboard, day_sum, has_played, ranked, those, leaderboard_lem}
use squash_bot.Rating.Tables.{PlayerRating, Status, Tables}
use squash_bot.Results.{Wiring, is_approved, commit_decision, auto_approve_one, decide, approve}
use squash_bot.Results.Decision.{rounds, IsDecided, commit_decision_lem, auto_approve_one_lem}
use squash_bot.Results.Command.{AreDistinct, IsCommanded}
use squash_bot.Results.Obeyed.{IsObeyed, approval, run_command_lem}
use squash_bot.Results.Submit.{submit}
use squash_bot.Rating.Glicko.{apply}
use squash_bot.Rating.Service.Success.{Converges}
use squash_bot.Store.Calm.{Succeeds}
use squash_bot.Results.Success.{decide-Succeeds}
use squash_bot.Results.Ledger.{IsConsistent, Step, Steps, steps-IsConsistent}
use squash_bot.Results.Submit.Tests.{roster, empty, calm, submission, row}

-- Numbers for runs: rounded to naturals, and with no more precision than that.
abbrev coarse : Floats ℕ
coarse = record {
  lit = λ n k. n;
  of_int = λ n. n;
  add = λ x y. x + y;
  sub = λ x y. x - y;
  mul = λ x y. x * y;
  div = λ x y. x / y;
  neg = λ x. x;
  abs = λ x. x;
  sqrt = λ x. x;
  exp = λ x. x;
  log = λ x. x;
  pow = λ x y. x;
  larger = λ x y. if ltb x y then y else x;
  smaller = λ x y. min x y;
  pi = 3;
  pi_squared = 9;
  lt = λ x y. false;
  le = λ x y. leb x y;
  eq = λ x y. x == y;
}

abbrev wiring : Wiring
wiring = record { rated = true; has_flags = true; fuel = 5 }

abbrev submitted : Tables ℕ
submitted = record empty { results = row ∷ []; next_id = 2 }

apart : row.author_id ≢ row.opponent_id
apart = λ e. absurd (omega (arith, e))

commit_decision_lem_example :
    Settled submitted
      (λ _ t.
        IsDecided
          (rounds (is_approved Status.approved && wiring.rated))
          submitted
          row
          Status.approved
          2000
          t)
      (commit_decision coarse wiring row Status.approved 2000 (calm submitted))
commit_decision_lem_example =
    commit_decision_lem row Status.approved 2000 coarse wiring (calm submitted) apart

auto_approve_one_lem_example :
    Settled submitted
      (λ _ t. IsDecided (rounds wiring.rated) submitted row Status.auto_approved 2000 t)
      (auto_approve_one coarse wiring row 2000 (calm submitted))
auto_approve_one_lem_example = auto_approve_one_lem coarse wiring row 2000 (calm submitted) apart

submitted-AreDistinct : AreDistinct submitted
submitted-AreDistinct id r e = elim (Bool-cases (1 == id)) [
  | inl b ↦ let same : row ≡ r = ground arith in rw (← same) apart
  | inr b ↦ absurd (ground arith)
]

run_command_lem_example :
    Settled submitted
      (IsObeyed coarse wiring roster approval 1 108 2000 submitted)
      (approve coarse wiring roster 1 108 2000 (calm submitted))
run_command_lem_example =
    run_command_lem coarse wiring roster approval 1 108 2000 (calm submitted) submitted-AreDistinct

empty-IsConsistent : IsConsistent true empty
empty-IsConsistent = record {
  games_match = λ g p. refl;
  rated_once = λ id. refl;
  fresh = λ id l. refl;
  distinct = λ id r e. absurd cc;
}

-- A submission and its approval.
abbrev after_submit : Tables ℕ
after_submit = (submit roster 1000 submission (calm empty)).1.db

abbrev after_approve : Tables ℕ
after_approve = (commit_decision coarse wiring row Status.approved 2000 (calm after_submit)).1.db

no_auto : Status.approved ≢ Status.auto_approved
no_auto = λ e. absurd cc

run : Steps coarse wiring empty after_approve
run =
    Steps.next empty after_submit after_approve (Step.submits roster 1000 submission (calm empty)) (
      Steps.next after_submit after_approve after_approve
        (Step.decides row Status.approved 2000 (calm after_submit) no_auto apart)
        (Steps.done after_approve))

steps-IsConsistent_example : IsConsistent true after_approve
steps-IsConsistent_example =
    steps-IsConsistent coarse wiring empty after_approve run empty-IsConsistent

-- No number is below another here, so that both loops end at once.
coarse-Converges : Converges coarse wiring.fuel
unfolding apply
coarse-Converges p [] = (_, refl)
coarse-Converges p (m ∷ ms) = (_, refl)

decide-Succeeds_example :
    Succeeds
      (IsCommanded coarse wiring roster 1 108 Status.approved false 2000 submitted)
      (decide coarse wiring roster 1 108 Status.approved false 2000 (calm submitted))
decide-Succeeds_example =
    decide-Succeeds coarse wiring coarse-Converges roster 1 108 Status.approved false 2000 row
      (record { id = 8; user_id = 108 }) (calm submitted) refl submitted-AreDistinct refl refl refl
      refl refl

select_score_policy_lem_example :
    (IsWeighable row true × IsWeighted coarse row (select_score_policy coarse row true))
    ⊎ ((¬ IsWeighable row true) × IsStandard coarse (select_score_policy coarse row true))
select_score_policy_lem_example = select_score_policy_lem coarse row true

abbrev rating_row : ℕ → ℕ → PlayerRating ℕ
rating_row id games = record {
  group_id = negsuc 4;
  player_id = id;
  rating = 1500 + games;
  rd = 350;
  volatility = 0;
  games_played = games;
  updated_at = 0;
}

-- A player without a game takes no rank.
abbrev ladder : List (PlayerRating ℕ)
ladder = rating_row 7 5 ∷ rating_row 9 0 ∷ rating_row 8 2 ∷ []

leaderboard_lem_example :
    leaderboard coarse (some ladder) true (some [])
    ≡ Option.map
        (λ rows. ranked (day_sum coarse true (some [])) 1 (those has_played rows))
        (some ladder)
leaderboard_lem_example = leaderboard_lem coarse (some ladder) true (some [])
