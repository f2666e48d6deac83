-- ===== src/Results/Submit/Created.antt =====
-- Submit of cmd/management/service/game_result_service.go: what an accepted submission has passed,
-- and the row it leaves.
use squash_bot.Prelude.{
  ℕ, ◌+◌, ◌≡◌, ◌≢◌, ◌⊎◌, inl, inr, refl, sym, ap, ◌∙◌, Option, none, some, Bool, true, false, ◌&&◌,
  not, List, [], ◌∷◌, ◌==◌, arith, Bool-cases, ==_iff,
}
use squash_bot.ResultScore.{validate}
use squash_bot.Store.{World, raise}
use squash_bot.Store.Hoare.{Settled, stmt-Settled, bind-Settled, event-Settled}
use squash_bot.Rating.Tables.{Status, GameResult, Tables}
use squash_bot.Rating.Service.{Event}
use squash_bot.Results.{Lookup, Player, Game, Participation, Roster}
use squash_bot.Results.Submit.{
  SubmitError, Submission, Check, and_then, require, expect, kind_for, opted_in, is_registered,
  registered_both, score_ok, new_row, check, insert_row, create, create_checked, submit,
}

-- The player has a registered participation in the list.
abbrev pub TakesPart : ℕ → List Participation → Type 0
TakesPart player [] = ⊥
TakesPart player (p ∷ ps) = ((p.registered ≡ true) × (p.player_id ≡ player)) ⊎ TakesPart player ps

-- The user is not known to have opted out.
abbrev pub IsOptedIn : Option (ℕ → Lookup Bool) → ℕ → Type 0
IsOptedIn none user = Unit
IsOptedIn (some by_id) user = by_id user ≢ Lookup.found true

-- What a submission has passed when its row is written.
pub record IsAccepted (roster : Roster) (now : ℕ) (s : Submission) (row : GameResult) : Type 0 where
  pub author : Player
  pub game : Game
  pub opponent : Player
  pub parts : List Participation
  pub author_known : roster.player_by_user s.author_user ≡ Lookup.found author
  pub author_in : IsOptedIn roster.opted_out s.author_user
  pub apart : author.id ≢ s.opponent_id
  pub game_known : roster.game_by_id s.game_id ≡ Lookup.found game
  pub two_players : game.players_per_court ≡ 2
  pub inside : roster.in_window s.game_id ≡ Lookup.found true
  pub parts_known : roster.participations s.game_id ≡ some parts
  pub author_plays : TakesPart author.id parts
  pub opponent_plays : TakesPart s.opponent_id parts
  pub opponent_known : roster.player_by_id s.opponent_id ≡ Lookup.found opponent
  pub opponent_in : IsOptedIn roster.opted_out opponent.user_id
  pub scored : validate s.score author.id s.opponent_id s.winner_id ≡ some tt
  pub row_group : row.group_id ≡ game.chat_id
  pub row_author : row.author_id ≡ author.id
  pub row_opponent : row.opponent_id ≡ s.opponent_id
  pub row_winner : row.winner_id ≡ s.winner_id
  pub row_score : row.score ≡ s.score
  pub row_status : row.status ≡ Status.pending
  pub row_time : row.submitted_at ≡ now

and_then-inr :
    {A B : Type 0} (m : Check A) (f : A → Check B) (b : B)
    → and_then m f ≡ inr b
    → (a : A) × ((m ≡ inr a) × (f a ≡ inr b))
unfolding and_then
and_then-inr (inl e) f b h = absurd cc
and_then-inr (inr a) f b h = (a, (refl, h))

require-inr : (b : Bool) (e : SubmitError) (u : Unit {0}) → require b e ≡ inr u → b ≡ true
require-inr true e u h = refl
require-inr false e u h = absurd cc

expect-inr :
    {A : Type 0} (e : SubmitError) (l : Lookup A) (a : A) → expect e l ≡ inr a → l ≡ Lookup.found a
expect-inr e Lookup.failed a h = absurd cc
expect-inr e Lookup.missing a h = absurd cc
expect-inr e (Lookup.found b) a h = ap Lookup.found (ground arith)

opted_in-IsOptedIn :
    (out : Option (ℕ → Lookup Bool)) (user : ℕ) (e : SubmitError) (u : Unit {0})
    → opted_in out user e ≡ inr u
    → IsOptedIn out user
unfolding opted_in
opted_in-IsOptedIn none user e u h = tt
opted_in-IsOptedIn (some by_id) user e u h = λ out. let h' = rw (out, opted_in) at h in absurd cc

is_registered-TakesPart :
    (player : ℕ) (ps : List Participation) → is_registered player ps ≡ true → TakesPart player ps
unfolding is_registered
is_registered-TakesPart player [] h = absurd cc
is_registered-TakesPart player (p ∷ ps) h =
    elim (Bool-cases (p.registered && p.player_id == player)) [
      | inl b ↦ inl (ground arith, ground arith)
      | inr b ↦ inr (is_registered-TakesPart player ps (ground arith))
    ]

registered_both-inr :
    (author opponent : ℕ) (o : Option (List Participation)) (u : Unit {0})
    → registered_both author opponent o ≡ inr u
    → (ps : List Participation) × ((o ≡ some ps) × (TakesPart author ps × TakesPart opponent ps))
unfolding registered_both
registered_both-inr author opponent none u h = absurd cc
registered_both-inr author opponent (some ps) u h =
    let both =
      require-inr (is_registered author ps && is_registered opponent ps) SubmitError.not_in_game u
        h in
    (
      ps,
      (
        refl,
        (
          is_registered-TakesPart author ps (ground arith),
          is_registered-TakesPart opponent ps (ground arith),
        ),
      ),
    )

score_ok-inr : (o : Option (Unit {0})) (u : Unit {0}) → score_ok o ≡ inr u → o ≡ some tt
unfolding score_ok
score_ok-inr none u h = absurd cc
score_ok-inr (some v) u h = refl

abbrev row_of_check : Check GameResult → GameResult → GameResult
row_of_check (inl e) d = d
row_of_check (inr r) d = r

check-IsAccepted :
    (roster : Roster) (now : ℕ) (s : Submission) (row : GameResult)
    → check roster now s ≡ inr row
    → IsAccepted roster now s row
unfolding check new_row
check-IsAccepted roster now s row h =
    let (kind, (e1, h1)) = and_then-inr _ _ row h in
    let (author, (e2, h2)) = and_then-inr _ _ row h1 in
    let (u3, (e3, h3)) = and_then-inr _ _ row h2 in
    let (u4, (e4, h4)) = and_then-inr _ _ row h3 in
    let (game, (e5, h5)) = and_then-inr _ _ row h4 in
    let (u6, (e6, h6)) = and_then-inr _ _ row h5 in
    let (inside, (e7, h7)) = and_then-inr _ _ row h6 in
    let (u8, (e8, h8)) = and_then-inr _ _ row h7 in
    let (u9, (e9, h9)) = and_then-inr _ _ row h8 in
    let (opponent, (e10, h10)) = and_then-inr _ _ row h9 in
    let (u11, (e11, h11)) = and_then-inr _ _ row h10 in
    let (u12, (e12, h12)) = and_then-inr _ _ row h11 in
    let (parts, (known, (a_in, o_in))) = registered_both-inr _ _ _ u9 e9 in
    let entered = require-inr _ _ u8 e8 in
    let same : new_row now s (kind_for s.score kind) author game ≡ row =
      ap (λ c. row_of_check c row) h12 in
    record {
      author = author;
      game = game;
      opponent = opponent;
      parts = parts;
      author_known = expect-inr _ _ author e2;
      author_in = opted_in-IsOptedIn _ _ _ u3 e3;
      apart =
          (let r = require-inr (not (author.id == s.opponent_id)) _ u4 e4 in
            λ q. ground (arith, r, q));
      game_known = expect-inr _ _ game e5;
      two_players = (==_iff game.players_per_court 2).0 (require-inr _ _ u6 e6);
      inside = expect-inr _ _ inside e7 ∙ ap Lookup.found entered;
      parts_known = known;
      author_plays = a_in;
      opponent_plays = o_in;
      opponent_known = expect-inr _ _ opponent e10;
      opponent_in = opted_in-IsOptedIn _ _ _ u11 e11;
      scored = score_ok-inr _ u12 e12;
      row_group = ap (λ r. r.group_id) (sym same);
      row_author = ap (λ r. r.author_id) (sym same);
      row_opponent = ap (λ r. r.opponent_id) (sym same);
      row_winner = ap (λ r. r.winner_id) (sym same);
      row_score = ap (λ r. r.score) (sym same);
      row_status = ap (λ r. r.status) (sym same);
      row_time = ap (λ r. r.submitted_at) (sym same);
    }

-- What an accepted submission leaves in the tables: one pending row more, with a new id.
pub record IsCreated {F : Type 0} (roster : Roster) (now : ℕ) (s : Submission) (old : Tables F)
    (res : GameResult) (t : Tables F) : Type 0 where
  pub accepted : IsAccepted roster now s res
  pub new_id : res.id ≡ old.next_id
  pub tables : t ≡ record old { results = res ∷ old.results; next_id = old.next_id + 1 }

insert_row-IsCreated :
    {F : Type 0} (roster : Roster) (now : ℕ) (s : Submission) (row : GameResult) (old : Tables F)
    → IsAccepted roster now s row
    → IsCreated roster now s old (insert_row row old).0 (insert_row row old).1
unfolding insert_row
insert_row-IsCreated roster now s row old a = record {
  accepted = record {
    author = a.author;
    game = a.game;
    opponent = a.opponent;
    parts = a.parts;
    author_known = a.author_known;
    author_in = a.author_in;
    apart = a.apart;
    game_known = a.game_known;
    two_players = a.two_players;
    inside = a.inside;
    parts_known = a.parts_known;
    author_plays = a.author_plays;
    opponent_plays = a.opponent_plays;
    opponent_known = a.opponent_known;
    opponent_in = a.opponent_in;
    scored = a.scored;
    row_group = a.row_group;
    row_author = a.row_author;
    row_opponent = a.row_opponent;
    row_winner = a.row_winner;
    row_score = a.row_score;
    row_status = a.row_status;
    row_time = a.row_time;
  };
  new_id = refl;
  tables = refl;
}

-- A submission is accepted only from a registered author about another registered player of a
-- two-player game inside the window, neither of whom has opted out, with a valid score; then
-- exactly one pending row is added, under a new id. Any error leaves the tables as they were.
pub submit_lem :
    {F : Type 0} (roster : Roster) (now : ℕ) (s : Submission) (w : World (Tables F) (Event F))
    → Settled w.db (IsCreated roster now s w.db) (submit roster now s w)
unfolding submit
submit_lem roster now s w = go (check roster now s) refl
  where
    go :
        (c : Check GameResult)
        → check roster now s ≡ c
        → Settled w.db (IsCreated roster now s w.db) (create_checked s.author_user c w)
    go (inl e) h = unfold create_checked raise in refl
    go (inr row) h =
        unfold create_checked create in
        bind-Settled w.db (IsCreated roster now s w.db) (IsCreated roster now s w.db) _ _ w
          (stmt-Settled (IsCreated roster now s w.db) SubmitError.database (insert_row row) w
            (insert_row-IsCreated roster now s row w.db (check-IsAccepted roster now s row h)))
          (λ res v k. event-Settled _ w.db (IsCreated roster now s w.db) _ res v k)
