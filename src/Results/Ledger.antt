-- ===== src/Results/Ledger.antt =====
-- The tables of results and ratings over time: every request of
-- cmd/management/service/game_result_service.go and every round of auto_approve_results.go keeps
-- them consistent, in whatever order they come and whatever fails.
use squash_bot.Prelude.{
  ℕ, ◌+◌, ◌≤◌, ◌≡◌, ◌≢◌, ◌⊎◌, inl, inr, refl, sym, ap, ◌∙◌, Option, none, some, Bool, true, false,
  ◌&&◌, ◌==◌, if◌then◌else◌, ℤ, arith, Bool-cases, ==_iff,
}
use squash_bot.Results.Rows.{find_result-id, find_result-put}
use squash_bot.Store.{World}
use squash_bot.Store.Hoare.{Settled}
use squash_bot.Rating.Floats.{Floats}
use squash_bot.Rating.Tables.{Status, is_pending, GameResult, Tables, find_result}
use squash_bot.Rating.Service.{Event}
use squash_bot.Rating.Service.Counts.{games_at, changes_at, changes_for}
use squash_bot.Results.{Wiring, is_approved, commit_decision, auto_approve_one}
use squash_bot.Results.Decision.{
  decided_row, rounds, IsDecided, commit_decision_lem, auto_approve_one_lem,
}
use squash_bot.Results.Command.{AreDistinct}
use squash_bot.Results.{Roster}
use squash_bot.Results.Submit.{Submission, submit}
use squash_bot.Results.Submit.Created.{IsCreated, submit_lem}

-- An approval, by the opponent or by the job.
abbrev pub counts : Status → Bool
counts Status.approved = true
counts Status.auto_approved = true
counts s = false

-- How many changes a result should have in the history.
abbrev pub expected : Bool → Option GameResult → ℕ
expected rated none = 0
expected rated (some r) = rounds (counts r.status && rated) + rounds (counts r.status && rated)

-- A player's games are those of the history; a result has its two changes if it is approved and
-- ratings are wired, and else none; ids are handed out once; the players of a result differ.
pub record IsConsistent {F : Type 0} (rated : Bool) (t : Tables F) : Type 0 where
  pub games_match : (g : ℤ) (p : ℕ) → games_at g p t.ratings ≡ changes_at g p t.changes
  pub rated_once : (id : ℕ) → changes_for id t.changes ≡ expected rated (find_result id t.results)
  pub fresh : (id : ℕ) → t.next_id ≤ id → find_result id t.results ≡ none
  pub distinct : AreDistinct t

not_pending-counts : (s : Status) → is_pending s ≡ true → counts s ≡ false
not_pending-counts Status.pending e = refl
not_pending-counts Status.approved e = cc
not_pending-counts Status.auto_approved e = cc
not_pending-counts Status.rejected e = cc
not_pending-counts Status.canceled e = cc

same_players :
    (row r : GameResult) (status : Status) (now : ℕ)
    → row.author_id ≢ row.opponent_id
    → some (decided_row row status now) ≡ some r
    → r.author_id ≢ r.opponent_id
same_players row r status now n e =
    let a : row.author_id ≡ r.author_id = ground arith in
    let o : row.opponent_id ≡ r.opponent_id = ground arith in λ q. n (a ∙ q ∙ sym o)

module _ {F : Type 0} (rated : Bool) where
  -- A decision whose rating goes with the new status keeps the tables consistent.
  decided-IsConsistent :
      (old t : Tables F) (res : GameResult) (status : Status) (now : ℕ)
      → IsConsistent rated old
      → IsDecided (rounds (counts status && rated)) old res status now t
      → IsConsistent rated t
  decided-IsConsistent old t res status now c h = record {
    games_match = λ g p. omega (arith, h.games g p, h.by_player g p, c.games_match g p);
    rated_once = λ id. elim (Bool-cases (res.id == id)) [
      | inl b ↦
          let same : res.id ≡ id = (==_iff res.id id).0 b in
          let none_yet : changes_for id old.changes ≡ 0 =
            c.rated_once id ∙ rw (← same, h.was, not_pending-counts h.row.status h.open_row) refl in
          let now_there = simp b at (found id) in
          rw now_there (omega (arith, simp b at (h.by_result id), none_yet))
      | inr b ↦
          let as_before = simp b at (found id) in
          rw as_before (omega (arith, simp b at (h.by_result id), c.rated_once id))
    ];
    fresh = λ id l. elim (Bool-cases (res.id == id)) [
      | inl b ↦
          let same : res.id ≡ id = (==_iff res.id id).0 b in
          let gone : find_result res.id old.results ≡ none =
            c.fresh res.id (omega (arith, same, l, h.next_kept)) in
          absurd (let both = h.was in cc)
      | inr b ↦ (simp b at (found id)) ∙ c.fresh id (omega (arith, l, h.next_kept))
    ];
    distinct = λ id r e. elim (Bool-cases (res.id == id)) [
      | inl b ↦
          let row : some (decided_row h.row status now) ≡ some r = sym (simp b at (found id)) ∙ e in
          same_players h.row r status now (c.distinct res.id h.row h.was) row
      | inr b ↦ c.distinct id r (sym (simp b at (found id)) ∙ e)
    ];
  }
    where
      found :
          (k : ℕ)
          → find_result k t.results ≡ (
              if res.id == k
              then some (decided_row h.row status now)
              else find_result k old.results)
      found k =
          ap (find_result k) h.results
          ∙ find_result-put res.id k old.results h.row (decided_row h.row status now) h.was
              (find_result-id res.id old.results h.row h.was)

  created-IsConsistent :
      (roster : Roster) (now : ℕ) (s : Submission) (old t : Tables F) (res : GameResult)
      → IsConsistent rated old
      → IsCreated roster now s old res t
      → IsConsistent rated t
  created-IsConsistent roster now s old t res c h = rw h.tables (record {
    games_match = c.games_match;
    rated_once = λ id. elim (Bool-cases (res.id == id)) [
      | inl b ↦
          let e : old.next_id ≡ id = sym h.new_id ∙ (==_iff res.id id).0 b in
          let unrated : changes_for id old.changes ≡ 0 =
            c.rated_once id ∙ ap (expected rated) (c.fresh id (omega (arith, e))) in
          simp (b, h.accepted.row_status) unrated
      | inr b ↦ simp b (c.rated_once id)
    ];
    fresh = λ id l.
        let other : (res.id == id) ≡ false = ground (arith, h.new_id, l) in
        simp other (c.fresh id (omega (arith, l)));
    distinct = λ id r e. elim (Bool-cases (res.id == id)) [
      | inl b ↦
          let row : res ≡ r = ground (arith, b, e) in
          let n : res.author_id ≢ res.opponent_id =
            λ q. h.accepted.apart (sym h.accepted.row_author ∙ q ∙ h.accepted.row_opponent) in
          rw (← row) n
      | inr b ↦ c.distinct id r (simp b at e)
    ];
  })

module _ {F : Type 0} (fl : Floats F) (wiring : Wiring) where
  -- What one request or one round of the job does to the tables, whatever fails in it. A decision
  -- works on a copy of the row that was read earlier.
  pub data Step : Tables F → Tables F → Type 0 where
    submits :
        (roster : Roster) (now : ℕ) (s : Submission) (w : World (Tables F) (Event F))
        → Step w.db (submit roster now s w).1.db
    decides :
        (res : GameResult) (status : Status) (now : ℕ) (w : World (Tables F) (Event F))
        → status ≢ Status.auto_approved
        → res.author_id ≢ res.opponent_id
        → Step w.db (commit_decision fl wiring res status now w).1.db
    auto_approves :
        (res : GameResult) (now : ℕ) (w : World (Tables F) (Event F))
        → res.author_id ≢ res.opponent_id
        → Step w.db (auto_approve_one fl wiring res now w).1.db

  -- Finitely many steps.
  pub data Steps : Tables F → Tables F → Type 0 where
    done : (t : Tables F) → Steps t t
    next : (t u v : Tables F) → Step t u → Steps u v → Steps t v

  kept :
      {A : Type 0} {E : Type 0} (old : Tables F) (Q : A → Tables F → Type 0)
      (r : (E ⊎ A) × World (Tables F) (Event F))
      → IsConsistent wiring.rated old
      → ((a : A) (t : Tables F) → Q a t → IsConsistent wiring.rated t)
      → Settled old Q r
      → IsConsistent wiring.rated r.1.db
  kept old Q (inl e, w) c f h = rw h c
  kept old Q (inr a, w) c f h = f a w.db h

  approved-counts : (s : Status) → s ≢ Status.auto_approved → is_approved s ≡ counts s
  approved-counts Status.pending n = refl
  approved-counts Status.approved n = refl
  approved-counts Status.auto_approved n = absurd (n refl)
  approved-counts Status.rejected n = refl
  approved-counts Status.canceled n = refl

  Step-IsConsistent :
      (t u : Tables F) → Step t u → IsConsistent wiring.rated t → IsConsistent wiring.rated u
  Step-IsConsistent t u (submits roster now s w) c =
      kept w.db (IsCreated roster now s w.db) (submit roster now s w) c
        (λ res v h. created-IsConsistent wiring.rated roster now s w.db v res c h)
        (submit_lem roster now s w)
  Step-IsConsistent t u (decides res status now w na n) c =
      kept w.db
        (λ _ v. IsDecided (rounds (is_approved status && wiring.rated)) w.db res status now v)
        (commit_decision fl wiring res status now w) c
        (λ _ v h.
          decided-IsConsistent wiring.rated w.db v res status now c
            (rw (approved-counts status na) at h))
        (commit_decision_lem res status now fl wiring w n)
  Step-IsConsistent t u (auto_approves res now w n) c =
      kept w.db (λ _ v. IsDecided (rounds wiring.rated) w.db res Status.auto_approved now v)
        (auto_approve_one fl wiring res now w) c
        (λ _ v h. decided-IsConsistent wiring.rated w.db v res Status.auto_approved now c h)
        (auto_approve_one_lem fl wiring res now w n)

  -- Whatever submissions, decisions and automatic approvals come, in any order and with any
  -- failures: a player's number of games is the number of changes in the history, an approved
  -- result has its two rating changes exactly once, where ratings are wired, and every other
  -- result has none.
  pub steps-IsConsistent :
      (t u : Tables F) → Steps t u → IsConsistent wiring.rated t → IsConsistent wiring.rated u
  steps-IsConsistent t u (done t') c = c
  steps-IsConsistent t u (next t' v u' s ss) c =
      steps-IsConsistent v u ss (Step-IsConsistent t v s c)
