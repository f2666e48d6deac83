-- ===== src/Results.antt =====
-- Results of one-to-one games: cmd/management/service/game_result_service.go, the statements of
-- cmd/management/storage/game_result_repo.go, and auto_approve_results.go. Filling in the players
-- for an answer, the chat messages and the log lines are left out.
pub mod Submit
pub mod Rows
pub mod Decision
pub mod Command
pub mod Obeyed
pub mod Ledger
pub mod Success
mod Tests
use squash_bot.Prelude.{
  ℕ, zero, suc, ◌+◌, ◌-◌, ◌*◌, ◌/◌, ◌%◌, ◌^◌, ◌≤◌, ◌<◌, min, ◌≡◌, ◌≢◌, ◌⊎◌, ◌↔◌, inl, inr, refl,
  sym, ap, ◌∙◌, Option, none, some, Bool, true, false, ◌&&◌, ◌||◌, not, List, [], ◌∷◌, ◌++◌, map,
  append_assoc, append-nil, length, length-append, take, ltb, leb, is_nil, ◌==◌, if◌then◌else◌, ℤ,
  pos, negsuc, arith, Bool-cases, Option-cases, All, All-append, All-map, ==_iff, ltb→lt, lt→ltb,
  leb→le, String,
}
use squash_bot.Prelude.Text.{Text}
use squash_bot.ResultScore.{validate}
use squash_bot.Store.{World, Prog, pure, raise, stmt, ◌>>=◌, in_tx, record_event}
use squash_bot.Rating.Floats.{Floats}
use squash_bot.Rating.Tables.{
  ScoreKind, Status, is_pending, is_valid, GameResult, Tables, find_result, put_result,
}
use squash_bot.Rating.Service.{Error, Event, TableProg, apply_in_tx}

-- What a repository answers: an error, no row, or a row.
pub data Lookup (A : Type 0) : Type 0 where
  failed : Lookup A
  missing : Lookup A
  found : A → Lookup A

pub record Player : Type 0 where
  pub id : ℕ
  pub user_id : ℕ

pub record Game : Type 0 where
  pub chat_id : ℤ
  pub players_per_court : ℕ

pub record Participation : Type 0 where
  pub player_id : ℕ
  pub registered : Bool

-- The answers of the other repositories, which these programs only read. `opted_out` is
-- ResultsOptOut of a user, where users are looked up at all; `in_window` is GameInResultWindow.
pub record Roster : Type 0 where
  pub player_by_user : ℕ → Lookup Player
  pub player_by_id : ℕ → Lookup Player
  pub opted_out : Option (ℕ → Lookup Bool)
  pub game_by_id : ℕ → Lookup Game
  pub in_window : ℕ → Lookup Bool
  pub participations : ℕ → Option (List Participation)

-- UPDATE game_results SET status, decided_at WHERE id = $3 AND status = 'pending': whether a row
-- was affected, and the tables.
decide_row : {F : Type 0} → ℕ → Status → ℕ → Tables F → Option GameResult → Bool × Tables F
decide_row id status now t none = (false, t)
decide_row id status now t (some r) =
    if is_pending r.status
    then (
      true,
      record t {
        results = put_result id (record r { status = status; decided_at = some now }) t.results;
      },
    )
    else (false, t)

or_not_pending : {F : Type 0} → Bool → TableProg F (Unit {0})
or_not_pending true = pure tt
or_not_pending false = raise Error.not_pending

-- Decide and DecideInTx
pub decide_in : {F : Type 0} → ℕ → Status → ℕ → TableProg F (Unit {0})
unfolding or_not_pending decide_row
decide_in id status now =
    stmt Error.database (λ t. decide_row id status now t (find_result id t.results))
    >>= or_not_pending

-- GetByID, with the service's answer to a missing row.
get_by_id : {F : Type 0} → ℕ → TableProg F (Option GameResult)
get_by_id id = stmt Error.database (λ t. (find_result id t.results, t))

abbrev pub is_approved : Status → Bool
is_approved Status.approved = true
is_approved s = false

-- How the service is wired: whether there is a rating service, whether that has the evaluator of
-- the flags, and the fuel of its numerical loops.
pub record Wiring : Type 0 where
  pub rated : Bool
  pub has_flags : Bool
  pub fuel : ℕ

module _ {F : Type 0} (fl : Floats F) (wiring : Wiring) where
  -- A decision and its ratings in one transaction.
  decide_and_rate : GameResult → Status → ℕ → TableProg F (Unit {0})
  decide_and_rate res status now =
      in_tx Error.database Error.database
        (decide_in res.id status now >>= λ _. apply_in_tx fl wiring.has_flags wiring.fuel now res)

  -- commitDecision
  pub commit_decision : GameResult → Status → ℕ → TableProg F (Unit {0})
  commit_decision res status now =
      if not (is_approved status) || not wiring.rated
      then decide_in res.id status now
      else decide_and_rate res status now

  -- autoApproveOne
  pub auto_approve_one : GameResult → ℕ → TableProg F (Unit {0})
  auto_approve_one res now =
      if not wiring.rated
      then decide_in res.id Status.auto_approved now
      else decide_and_rate res Status.auto_approved now

  -- The actor must be the author or the opponent, as the command asks.
  may_act : Bool → GameResult → Lookup Player → TableProg F (Unit {0})
  may_act author_action res Lookup.failed = raise Error.database
  may_act author_action res Lookup.missing = raise Error.forbidden
  may_act author_action res (Lookup.found actor) =
      if actor.id == (if author_action then res.author_id else res.opponent_id)
      then pure tt
      else raise Error.forbidden

  decide_found : Roster → ℕ → ℕ → Status → Bool → ℕ → Option GameResult → TableProg F GameResult
  unfolding may_act
  decide_found roster id actor_user status author_action now none = raise Error.not_found
  decide_found roster id actor_user status author_action now (some res) =
      may_act author_action res (roster.player_by_user actor_user) >>= λ _.
      commit_decision res status now >>= λ _.
      record_event (Event.result_decided id res.group_id actor_user status)
        (record res { status = status; decided_at = some now })

  -- decide
  pub decide : Roster → ℕ → ℕ → Status → Bool → ℕ → TableProg F GameResult
  unfolding get_by_id
  decide roster id actor_user status author_action now =
      get_by_id id >>= decide_found roster id actor_user status author_action now

  -- Approve, Reject and CancelByAuthor
  pub approve : Roster → ℕ → ℕ → ℕ → TableProg F GameResult
  approve roster id actor_user now = decide roster id actor_user Status.approved false now

  pub reject : Roster → ℕ → ℕ → ℕ → TableProg F GameResult
  reject roster id actor_user now = decide roster id actor_user Status.rejected false now

  pub cancel_by_author : Roster → ℕ → ℕ → ℕ → TableProg F GameResult
  cancel_by_author roster id actor_user now = decide roster id actor_user Status.canceled true now

  -- 48 hours, in the seconds that times are counted in here.
  abbrev auto_approve_window : ℕ
  auto_approve_window = 48 * 3600

  -- ListPendingOlderThan, for the rows that were submitted more than the window ago.
  older : ℕ → List GameResult → List GameResult
  older now [] = []
  older now (r ∷ rs) =
      let rest = older now rs in
      if is_pending r.status && ltb (r.submitted_at + auto_approve_window) now
      then r ∷ rest
      else rest

  -- ORDER BY submitted_at
  insert_by_time : GameResult → List GameResult → List GameResult
  insert_by_time r [] = r ∷ []
  insert_by_time r (s ∷ ss) =
      let rest = insert_by_time r ss in
      if ltb s.submitted_at r.submitted_at then s ∷ rest else r ∷ s ∷ ss

  by_time : List GameResult → List GameResult
  by_time [] = []
  by_time (r ∷ rs) = insert_by_time r (by_time rs)

  -- One round of the job: an error is logged, and the next row is tried.
  auto_approve_next : ℕ → GameResult → TableProg F (Unit {0})
  auto_approve_next now res = auto_approve_one res now >>= λ _.
      record_event (Event.result_auto_approved res.id res.group_id) tt

  auto_approve_all : ℕ → List GameResult → World (Tables F) (Event F) → World (Tables F) (Event F)
  auto_approve_all now [] w = w
  auto_approve_all now (r ∷ rs) w = auto_approve_all now rs (auto_approve_next now r w).1

  -- runAutoApprove
  pub run_auto_approve : ℕ → World (Tables F) (Event F) → World (Tables F) (Event F)
  unfolding older by_time
  run_auto_approve now w =
      let listed : TableProg F (List GameResult) =
        stmt Error.database (λ t. (by_time (older now t.results), t)) in
      elim (listed w).0 [ inl e ↦ (listed w).1 | inr rs ↦ auto_approve_all now rs (listed w).1 ]
