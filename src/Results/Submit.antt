-- ===== src/Results/Submit.antt =====
-- Submit of cmd/management/service/game_result_service.go.
pub mod Created
pub mod Tests
use squash_bot.Prelude.{
  ℕ, zero, suc, ◌+◌, ◌-◌, ◌*◌, ◌/◌, ◌%◌, ◌^◌, ◌≤◌, ◌<◌, min, ◌≡◌, ◌≢◌, ◌⊎◌, ◌↔◌, inl, inr, refl,
  sym, ap, ◌∙◌, Option, none, some, Bool, true, false, ◌&&◌, ◌||◌, not, List, [], ◌∷◌, ◌++◌, map,
  append_assoc, append-nil, length, length-append, take, ltb, leb, is_nil, ◌==◌, if◌then◌else◌, ℤ,
  pos, negsuc, arith, Bool-cases, Option-cases, All, All-append, All-map, ==_iff, ltb→lt, lt→ltb,
  leb→le, String,
}
use squash_bot.Prelude.Text.{Text}
use squash_bot.ResultScore.{validate}
use squash_bot.Store.{World, Prog, pure, raise, stmt, ◌>>=◌, record_event}
use squash_bot.Rating.Tables.{ScoreKind, is_valid, Status, GameResult, Tables}
use squash_bot.Rating.Service.{Event}
use squash_bot.Results.{Lookup, Player, Game, Participation, Roster}

pub data SubmitError : Type 0 where
  bad_score not_in_game author_opted_out opponent_opted_out same_player game_not_found : SubmitError
  not_supported window_closed database : SubmitError

pub record Submission : Type 0 where
  pub game_id : ℕ
  pub author_user : ℕ
  pub opponent_id : ℕ
  pub winner_id : Option ℕ
  pub score : Text
  pub score_kinds : List ScoreKind

-- The checks, before anything is written: an error or what goes on.
abbrev pub Check : Type 0 → Type 0
Check A = SubmitError ⊎ A

pub and_then : {A B : Type 0} → Check A → (A → Check B) → Check B
and_then (inl e) f = inl e
and_then (inr a) f = f a

abbrev pub require : Bool → SubmitError → Check (Unit {0})
require true e = inr tt
require false e = inl e

-- The row, or `absent` for ErrNoRows.
abbrev pub expect : {A : Type 0} → SubmitError → Lookup A → Check A
expect absent Lookup.failed = inl SubmitError.database
expect absent Lookup.missing = inl absent
expect absent (Lookup.found a) = inr a

-- scoreKind, from the optional argument.
kind_of : List ScoreKind → Check ScoreKind
kind_of [] = inr ScoreKind.unset
kind_of (ScoreKind.unset ∷ []) = inr ScoreKind.unset
kind_of (k ∷ []) = if is_valid k then inr k else inl SubmitError.bad_score
kind_of (k ∷ l ∷ ks) = inl SubmitError.bad_score

-- if score == "" { scoreKind = "" }
kind_for : Text → ScoreKind → ScoreKind
kind_for score kind = if is_nil score then ScoreKind.unset else kind

-- ResultsOptOut of a user; a user without a row has not opted out.
opted_in : Option (ℕ → Lookup Bool) → ℕ → SubmitError → Check (Unit {0})
opted_in none user e = inr tt
opted_in (some by_id) user e = elim (by_id user) [
  | Lookup.failed ↦ inl SubmitError.database
  | Lookup.missing ↦ inr tt
  | Lookup.found out ↦ require (not out) e
]

-- Whether the player is registered in the game.
is_registered : ℕ → List Participation → Bool
is_registered player [] = false
is_registered player (p ∷ ps) = (p.registered && p.player_id == player) || is_registered player ps

registered_both : ℕ → ℕ → Option (List Participation) → Check (Unit {0})
unfolding is_registered
registered_both author opponent none = inl SubmitError.database
registered_both author opponent (some ps) =
    require (is_registered author ps && is_registered opponent ps) SubmitError.not_in_game

score_ok : Option (Unit {0}) → Check (Unit {0})
score_ok none = inl SubmitError.bad_score
score_ok (some u) = inr tt

-- The row of a submission.
new_row : ℕ → Submission → ScoreKind → Player → Game → GameResult
new_row now s kind author game = record {
  id = 0;
  game_id = s.game_id;
  group_id = game.chat_id;
  author_id = author.id;
  opponent_id = s.opponent_id;
  winner_id = s.winner_id;
  score = s.score;
  score_kind = kind;
  status = Status.pending;
  submitted_at = now;
  decided_at = none;
}

-- The checks of Submit, in order, and the row to create; its id comes from the table.
pub check : Roster → ℕ → Submission → Check GameResult
unfolding kind_for
check roster now s = and_then (kind_of s.score_kinds) λ kind.
    and_then (expect SubmitError.not_in_game (roster.player_by_user s.author_user)) λ author.
      and_then (opted_in roster.opted_out s.author_user SubmitError.author_opted_out) λ _.
        and_then (require (not (author.id == s.opponent_id)) SubmitError.same_player) λ _.
          and_then (expect SubmitError.game_not_found (roster.game_by_id s.game_id)) λ game.
            and_then (require (game.players_per_court == 2) SubmitError.not_supported) λ _.
              and_then (expect SubmitError.game_not_found (roster.in_window s.game_id)) λ inside.
                and_then (require inside SubmitError.window_closed) λ _.
                  and_then
                    (registered_both author.id s.opponent_id (roster.participations s.game_id))
                    λ _.
                      and_then (expect SubmitError.not_in_game (roster.player_by_id s.opponent_id))
                        λ opponent.
                          and_then
                            (opted_in roster.opted_out opponent.user_id
                              SubmitError.opponent_opted_out)
                            λ _.
                              and_then
                                (score_ok (validate s.score author.id s.opponent_id s.winner_id))
                                λ _. inr (new_row now s (kind_for s.score kind) author game)

-- Create: INSERT … RETURNING id, with the id from the sequence.
insert_row : {F : Type 0} → GameResult → Tables F → GameResult × Tables F
insert_row row t =
    let new = record row { id = t.next_id } in
    (new, record t { results = new ∷ t.results; next_id = t.next_id + 1 })

create : {F : Type 0} → GameResult → Prog (Tables F) (Event F) SubmitError GameResult
unfolding insert_row
create row = stmt SubmitError.database (insert_row row)

create_checked :
    {F : Type 0} → ℕ → Check GameResult → Prog (Tables F) (Event F) SubmitError GameResult
create_checked author_user (inl e) = raise e
create_checked author_user (inr row) =
    create row >>= λ res. record_event (Event.result_submitted res.id res.group_id author_user) res

-- Submit
pub submit :
    {F : Type 0} → Roster → ℕ → Submission → Prog (Tables F) (Event F) SubmitError GameResult
submit roster now s = create_checked s.author_user (check roster now s)
