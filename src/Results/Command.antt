-- ===== src/Results/Command.antt =====
-- Approve, Reject and CancelByAuthor of cmd/management/service/game_result_service.go: who may
-- decide a result, and what the command answers.
use squash_bot.Prelude.{
  ℕ, ◌≡◌, ◌≢◌, inl, inr, refl, sym, Option, none, some, Bool, true, false, ◌&&◌, ◌==◌, Bool-cases,
  ==_iff,
}
use squash_bot.Store.{World, pure, raise}
use squash_bot.Store.Hoare.{
  Settled, stmt-Settled, bind-Settled, Settled-map, event-Settled, Settled-from,
}
use squash_bot.Rating.Floats.{Floats}
use squash_bot.Rating.Tables.{Status, GameResult, Tables, find_result}
use squash_bot.Rating.Service.{Error, Event}
use squash_bot.Results.{
  Lookup, Player, Roster, is_approved, Wiring, commit_decision, may_act, decide_found, get_by_id,
  decide,
}
use squash_bot.Results.Decision.{decided_row, rounds, IsDecided, commit_decision_lem}

-- The players of every result differ.
abbrev pub AreDistinct : {F : Type 0} → Tables F → Type 0
AreDistinct t =
    (id : ℕ) (r : GameResult) → find_result id t.results ≡ some r → r.author_id ≢ r.opponent_id

module _ {F : Type 0} (fl : Floats F) (wiring : Wiring) where
  -- The actor is the player that the command asks for.
  abbrev pub ActsAs : Bool → GameResult → ℕ → Type 0
  ActsAs true res player = player ≡ res.author_id
  ActsAs false res player = player ≡ res.opponent_id

  -- What a successful command has found and done.
  pub record IsCommanded (roster : Roster) (id actor_user : ℕ) (status : Status)
      (author_action : Bool) (now : ℕ) (old : Tables F) (answer : GameResult) (t : Tables F)
      : Type 0 where
    pub row : GameResult
    pub was : find_result id old.results ≡ some row
    pub actor : Player
    pub known : roster.player_by_user actor_user ≡ Lookup.found actor
    pub acts : ActsAs author_action row actor.id
    pub decided : IsDecided (rounds (is_approved status && wiring.rated)) old row status now t
    pub answered : answer ≡ decided_row row status now

  may_act-Settled :
      (old : Tables F) (author_action : Bool) (res : GameResult) (l : Lookup Player)
      (w : World (Tables F) (Event F))
      → w.db ≡ old
      → Settled old
          (λ _ t.
            (t ≡ old)
            × ((actor : Player) × ((l ≡ Lookup.found actor) × ActsAs author_action res actor.id)))
          (may_act fl wiring author_action res l w)
  unfolding may_act
  may_act-Settled old author_action res Lookup.failed w e = unfold raise in e
  may_act-Settled old author_action res Lookup.missing w e = unfold raise in e
  may_act-Settled old true res (Lookup.found actor) w e =
      elim (Bool-cases (actor.id == res.author_id)) [
        | inl b ↦ simp b (unfold pure in (e, (actor, (refl, (==_iff actor.id res.author_id).0 b))))
        | inr b ↦ simp b (unfold raise in e)
      ]
  may_act-Settled old false res (Lookup.found actor) w e =
      elim (Bool-cases (actor.id == res.opponent_id)) [
        | inl b ↦
            simp b (unfold pure in (e, (actor, (refl, (==_iff actor.id res.opponent_id).0 b))))
        | inr b ↦ simp b (unfold raise in e)
      ]

  module _ (roster : Roster) (id actor_user : ℕ) (status : Status) (author_action : Bool) (now : ℕ)
      (old : Tables F) where
    decide_found-Settled :
        (o : Option GameResult) (w : World (Tables F) (Event F))
        → AreDistinct old
        → o ≡ find_result id old.results
        → w.db ≡ old
        → Settled old
            (IsCommanded roster id actor_user status author_action now old)
            (decide_found fl wiring roster id actor_user status author_action now o w)
    unfolding decide_found
    decide_found-Settled none w d f e = unfold raise in e
    decide_found-Settled (some res) w d f e =
        bind-Settled old Acted (IsCommanded roster id actor_user status author_action now old) _ _ w
          (may_act-Settled old author_action res (roster.player_by_user actor_user) w e)
          (λ _ v (same, acted).
            bind-Settled old (λ _ t. Acted tt old × IsDecided n old res status now t)
              (IsCommanded roster id actor_user status author_action now old) _ _ v
              (Settled-map (λ _ t. IsDecided n old res status now t)
                (λ _ t. Acted tt old × IsDecided n old res status now t) _ old
                (λ _ t h. ((refl, acted), h)) (committed v same))
              (λ _ u (a, h).
                event-Settled _ old (IsCommanded roster id actor_user status author_action now old)
                  _ (decided_row res status now) u
                  (record {
                    row = res;
                    was = sym f;
                    actor = a.1.0;
                    known = a.1.1.0;
                    acts = a.1.1.1;
                    decided = h;
                    answered = refl;
                  })))
      where
        n : ℕ
        n = rounds (is_approved status && wiring.rated)

        Acted : Unit {0} → Tables F → Type 0
        Acted _ t =
            (t ≡ old)
            × ((actor : Player) × ((roster.player_by_user actor_user ≡ Lookup.found actor)
                  × ActsAs author_action res actor.id))

        committed :
            (v : World (Tables F) (Event F))
            → v.db ≡ old
            → Settled old
                (λ _ t. IsDecided n old res status now t)
                (commit_decision fl wiring res status now v)
        committed v same =
            Settled-from (λ _ t. IsDecided n old res status now t) _ v.db old same
              (rw (← same) (commit_decision_lem res status now fl wiring v (d id res (sym f))))

  -- A success of decide is one of an actor that it was asked to accept, with the decided row as the
  -- answer and the tables after the decision; any error leaves the tables as they were.
  pub decide_lem :
      (roster : Roster) (id actor_user : ℕ) (status : Status) (author_action : Bool) (now : ℕ)
      (w : World (Tables F) (Event F))
      → AreDistinct w.db
      → Settled w.db
          (IsCommanded roster id actor_user status author_action now w.db)
          (decide fl wiring roster id actor_user status author_action now w)
  unfolding decide get_by_id
  decide_lem roster id actor_user status author_action now w d =
      bind-Settled w.db (λ o t. (o ≡ find_result id w.db.results) × (t ≡ w.db))
        (IsCommanded roster id actor_user status author_action now w.db) _ _ w
        (stmt-Settled (λ o t. (o ≡ find_result id w.db.results) × (t ≡ w.db)) Error.database _ w
          (refl, refl))
        (λ o v (f, same).
          decide_found-Settled roster id actor_user status author_action now w.db o v d f same)
