-- ===== src/Results/Obeyed.antt =====
-- Approve, Reject and CancelByAuthor of cmd/management/service/game_result_service.go: which command
-- is for which player, and what it does to the result.
use squash_bot.Prelude.{ℕ, ◌≡◌, some, Bool, true, false, if◌then◌else◌}
use squash_bot.Store.{World}
use squash_bot.Store.Hoare.{Settled, Settled-map}
use squash_bot.Rating.Floats.{Floats}
use squash_bot.Rating.Tables.{Status, GameResult, Tables, find_result}
use squash_bot.Rating.Service.{Event, TableProg}
use squash_bot.Results.{Lookup, Player, Roster, Wiring, approve, reject, cancel_by_author}
use squash_bot.Results.Decision.{decided_row, rounds, IsDecided}
use squash_bot.Results.Command.{AreDistinct, IsCommanded, decide_lem}

-- The three commands.
pub data Command : Type 0 where
  approval rejection cancellation : Command

-- The status that a command gives the result.
abbrev pub given : Command → Status
given approval = Status.approved
given rejection = Status.rejected
given cancellation = Status.canceled

-- The player that a command is for: the opponent approves and rejects, and the author cancels.
abbrev pub entitled : Command → GameResult → ℕ
entitled approval res = res.opponent_id
entitled rejection res = res.opponent_id
entitled cancellation res = res.author_id

-- How often a command rates the two players.
abbrev pub ratings_given : Command → Bool → ℕ
ratings_given approval rated = if rated then 1 else 0
ratings_given rejection rated = 0
ratings_given cancellation rated = 0

module _ {F : Type 0} (fl : Floats F) (wiring : Wiring) where
  abbrev pub run_command : Command → Roster → ℕ → ℕ → ℕ → TableProg F GameResult
  run_command approval roster id actor_user now = approve fl wiring roster id actor_user now
  run_command rejection roster id actor_user now = reject fl wiring roster id actor_user now
  run_command cancellation roster id actor_user now =
      cancel_by_author fl wiring roster id actor_user now

  -- The command found the result and its actor, who is the player that it is for, and decided it.
  pub record IsObeyed (roster : Roster) (c : Command) (id actor_user now : ℕ) (old : Tables F)
      (answer : GameResult) (t : Tables F) : Type 0 where
    pub row : GameResult
    pub was : find_result id old.results ≡ some row
    pub actor : Player
    pub known : roster.player_by_user actor_user ≡ Lookup.found actor
    pub acts : actor.id ≡ entitled c row
    pub decided : IsDecided (ratings_given c wiring.rated) old row (given c) now t
    pub answered : answer ≡ decided_row row (given c) now

  -- A command succeeds only for the player whom it is for: the opponent approves and rejects, and
  -- the author cancels. Then the result, which was pending, is approved, rejected or cancelled, the
  -- two players are rated once by an approval where ratings are wired and not else, the answer is
  -- the decided row, and the tables are as after the decision; any error leaves the tables as they
  -- were.
  pub run_command_lem :
      (roster : Roster) (c : Command) (id actor_user now : ℕ) (w : World (Tables F) (Event F))
      → AreDistinct w.db
      → Settled w.db
          (IsObeyed roster c id actor_user now w.db)
          (run_command c roster id actor_user now w)
  unfolding approve reject cancel_by_author
  run_command_lem roster approval id actor_user now w d =
      Settled-map (IsCommanded fl wiring roster id actor_user Status.approved false now w.db)
        (IsObeyed roster approval id actor_user now w.db) _ w.db
        (λ r t h. record {
          row = h.row;
          was = h.was;
          actor = h.actor;
          known = h.known;
          acts = h.acts;
          decided =
              rounds-if wiring.rated (λ n. IsDecided n w.db h.row Status.approved now t) h.decided;
          answered = h.answered;
        })
        (decide_lem fl wiring roster id actor_user Status.approved false now w d)
    where
      rounds-if : (b : Bool) (P : ℕ → Type 0) → P (rounds b) → P (if b then 1 else 0)
      rounds-if true P h = h
      rounds-if false P h = h
  run_command_lem roster rejection id actor_user now w d =
      Settled-map (IsCommanded fl wiring roster id actor_user Status.rejected false now w.db)
        (IsObeyed roster rejection id actor_user now w.db) _ w.db
        (λ r t h. record {
          row = h.row;
          was = h.was;
          actor = h.actor;
          known = h.known;
          acts = h.acts;
          decided = h.decided;
          answered = h.answered;
        })
        (decide_lem fl wiring roster id actor_user Status.rejected false now w d)
  run_command_lem roster cancellation id actor_user now w d =
      Settled-map (IsCommanded fl wiring roster id actor_user Status.canceled true now w.db)
        (IsObeyed roster cancellation id actor_user now w.db) _ w.db
        (λ r t h. record {
          row = h.row;
          was = h.was;
          actor = h.actor;
          known = h.known;
          acts = h.acts;
          decided = h.decided;
          answered = h.answered;
        })
        (decide_lem fl wiring roster id actor_user Status.canceled true now w d)
