-- ===== src/Results/Success.antt =====
-- Decisions of cmd/management/service/game_result_service.go in which nothing fails: they succeed.
use squash_bot.Prelude.{
  ℕ, ◌≡◌, inl, inr, refl, ap, ◌∙◌, Option, some, Bool, true, false, ◌||◌, not, [], ◌==◌, Bool-cases,
  ==_iff,
}
use squash_bot.Store.{World, pure}
use squash_bot.Store.Calm.{
  Succeeds, Succeeds-with, stmt-Succeeds, bind-Succeeds, in_tx-Succeeds, event-Succeeds,
}
use squash_bot.Rating.Floats.{Floats}
use squash_bot.Rating.Tables.{Status, is_pending, GameResult, Tables, find_result}
use squash_bot.Rating.Service.{Error, Event}
use squash_bot.Rating.Service.Success.{Converges, apply_in_tx-Succeeds}
use squash_bot.Results.{
  Lookup, Player, Roster, decide_row, or_not_pending, decide_in, is_approved, Wiring,
  decide_and_rate, commit_decision, may_act, decide_found, get_by_id, decide,
}
use squash_bot.Results.Command.{AreDistinct, ActsAs, IsCommanded, decide_lem}

module _ {F : Type 0} (res row : GameResult) (status : Status) (now : ℕ) where
  Any : {A : Type 0} → A → Tables F → Type 0
  Any a t = Unit

  decide_row_pending :
      (t : Tables F) (o : Option GameResult)
      → o ≡ some row
      → is_pending row.status ≡ true
      → (decide_row res.id status now t o).0 ≡ true
  unfolding decide_row
  decide_row_pending t o e p = simp (e, p) refl

  decide_in-Succeeds :
      (w : World (Tables F) (Event F))
      → w.down ≡ []
      → find_result res.id w.db.results ≡ some row
      → is_pending row.status ≡ true
      → Succeeds Any (decide_in res.id status now w)
  unfolding decide_in or_not_pending Any
  decide_in-Succeeds w calm e p =
      bind-Succeeds (λ b t. b ≡ true) Any _ or_not_pending w
        (stmt-Succeeds (λ b t. b ≡ true) Error.database _ w calm
          (decide_row_pending w.db (find_result res.id w.db.results) e p))
        (λ b v y quiet. rw y (unfold pure in (tt, quiet)))

  module _ (fl : Floats F) (wiring : Wiring) (converges : Converges fl wiring.fuel) where
    decide_and_rate-Succeeds :
        (w : World (Tables F) (Event F))
        → w.down ≡ []
        → find_result res.id w.db.results ≡ some row
        → is_pending row.status ≡ true
        → Succeeds Any (decide_and_rate fl wiring res status now w)
    unfolding decide_and_rate Any
    decide_and_rate-Succeeds w calm e p =
        in_tx-Succeeds Any Error.database Error.database _ w calm (λ v same quiet.
          bind-Succeeds Any Any _ _ v
            (decide_in-Succeeds v quiet (ap (λ t. find_result res.id t.results) same ∙ e) p)
            (λ _ u _ still.
              apply_in_tx-Succeeds fl wiring.fuel converges wiring.has_flags now res u still))

    commit_decision-Succeeds :
        (w : World (Tables F) (Event F))
        → w.down ≡ []
        → find_result res.id w.db.results ≡ some row
        → is_pending row.status ≡ true
        → Succeeds Any (commit_decision fl wiring res status now w)
    unfolding commit_decision
    commit_decision-Succeeds w calm e p =
        elim (Bool-cases (not (is_approved status) || not wiring.rated)) [
          | inl b ↦ simp b (decide_in-Succeeds w calm e p)
          | inr b ↦ simp b (decide_and_rate-Succeeds w calm e p)
        ]

module _ {F : Type 0} (fl : Floats F) (wiring : Wiring) (converges : Converges fl wiring.fuel) where
  None : {A : Type 0} → A → Tables F → Type 0
  None a t = Unit

  may_act-Succeeds :
      (author_action : Bool) (res : GameResult) (actor : Player) (w : World (Tables F) (Event F))
      → w.down ≡ []
      → ActsAs fl wiring author_action res actor.id
      → Succeeds (λ _ t. t ≡ w.db) (may_act fl wiring author_action res (Lookup.found actor) w)
  unfolding may_act
  may_act-Succeeds true res actor w calm e =
      let b : (actor.id == res.author_id) ≡ true = (==_iff actor.id res.author_id).1 e in
      simp b (unfold pure in (refl, calm))
  may_act-Succeeds false res actor w calm e =
      let b : (actor.id == res.opponent_id) ≡ true = (==_iff actor.id res.opponent_id).1 e in
      simp b (unfold pure in (refl, calm))

  -- Without a failing statement, and if the numerical loops end, a command on a pending result by
  -- the player whom it is for does succeed, with the outcome of a successful command.
  pub decide-Succeeds :
      (roster : Roster) (id actor_user : ℕ) (status : Status) (author_action : Bool) (now : ℕ)
      (row : GameResult) (actor : Player) (w : World (Tables F) (Event F))
      → w.down ≡ []
      → AreDistinct w.db
      → find_result id w.db.results ≡ some row
      → row.id ≡ id
      → is_pending row.status ≡ true
      → roster.player_by_user actor_user ≡ Lookup.found actor
      → ActsAs fl wiring author_action row actor.id
      → Succeeds
          (IsCommanded fl wiring roster id actor_user status author_action now w.db)
          (decide fl wiring roster id actor_user status author_action now w)
  unfolding decide get_by_id None decide_found Any
  decide-Succeeds roster id actor_user status author_action now row actor w calm d e i p k a =
      Succeeds-with None (IsCommanded fl wiring roster id actor_user status author_action now w.db)
        w.db _
        (bind-Succeeds (λ o t. (o ≡ some row) × (t ≡ w.db)) None _ _ w
          (stmt-Succeeds (λ o t. (o ≡ some row) × (t ≡ w.db)) Error.database _ w calm (e, refl))
          (λ o v (f, same) quiet. rw f (
            bind-Succeeds (λ _ t. t ≡ v.db) None _ _ v
              (rw k (may_act-Succeeds author_action row actor v quiet a))
              (λ _ u kept still.
                bind-Succeeds None None _ _ u
                  (commit_decision-Succeeds row row status now fl wiring converges u still
                    (ap (find_result row.id) (ap (λ t. t.results) (kept ∙ same))
                      ∙ ap (λ k. find_result k w.db.results) i
                      ∙ e)
                    p)
                  (λ _ y _ calm_too. event-Succeeds _ None _ _ y calm_too tt)))))
        (decide_lem fl wiring roster id actor_user status author_action now w d)
