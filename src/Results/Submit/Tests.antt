-- ===== src/Results/Submit/Tests.antt =====
-- A submission that passes every check, and the theorem about it.
use squash_bot.Prelude.{
  ℕ, ◌+◌, ◌≡◌, inr, refl, none, some, true, false, [], ◌∷◌, ◌==◌, if◌then◌else◌, negsuc,
}
use squash_bot.Prelude.Text.{codes, text_ops}
use squash_bot.ResultScore.{validate, parse}
use squash_bot.Store.{World}
use squash_bot.Store.Hoare.{Settled}
use squash_bot.Rating.Tables.{ScoreKind, Status, GameResult, Tables}
use squash_bot.Rating.Service.{Event}
use squash_bot.Results.{Lookup, Player, Roster}
use squash_bot.Results.Submit.{
  Submission, check, submit, kind_of, kind_for, opted_in, registered_both, is_registered, score_ok,
  new_row, and_then,
}
use squash_bot.Results.Submit.Created.{IsCreated, submit_lem}

abbrev pub player : ℕ → Player
player id = record { id = id; user_id = id + 100 }

abbrev pub roster : Roster
roster = record {
  player_by_user = λ user.
      if user == 107
      then Lookup.found (player 7)
      else if user == 108
      then Lookup.found (player 8)
      else Lookup.missing;
  player_by_id = λ id. Lookup.found (player id);
  opted_out = some (λ user. Lookup.found false);
  game_by_id = λ id. Lookup.found (record { chat_id = negsuc 4; players_per_court = 2 });
  in_window = λ id. Lookup.found true;
  participations = λ id. some (
      record { player_id = 8; registered = true }
      ∷ record { player_id = 7; registered = true }
      ∷ []);
}

abbrev pub empty : Tables ℕ
empty = record { results = []; next_id = 1; ratings = []; changes = []; flags = [] }

abbrev pub calm : Tables ℕ → World (Tables ℕ) (Event ℕ)
calm t = record { db = t; log = []; down = [] }

abbrev pub submission : Submission
submission = record {
  game_id = 3;
  author_user = 107;
  opponent_id = 8;
  winner_id = some 7;
  score = codes "11:9";
  score_kinds = ScoreKind.points ∷ [];
}

abbrev pub row : GameResult
row = record {
  id = 1;
  game_id = 3;
  group_id = negsuc 4;
  author_id = 7;
  opponent_id = 8;
  winner_id = some 7;
  score = codes "11:9";
  score_kind = ScoreKind.points;
  status = Status.pending;
  submitted_at = 1000;
  decided_at = none;
}

-- The submission passes every check.
passes : check roster 1000 submission ≡ inr (record row { id = 0 })
unfolding check kind_of kind_for opted_in registered_both is_registered score_ok new_row and_then
    validate parse text_ops
passes = refl

submit_lem_example :
    Settled empty
      (IsCreated roster 1000 submission empty)
      (submit roster 1000 submission (calm empty))
submit_lem_example = submit_lem roster 1000 submission (calm empty)
