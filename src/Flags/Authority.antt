-- ===== src/Flags/Authority.antt =====
-- FeatureFlagService of cmd/management/service/feature_flag_service.go: who may write a flag, and
-- what a refused or failed write leaves behind.
use squash_bot.Prelude.{
  ℕ, ◌≡◌, inl, inr, refl, sym, ap, ◌∙◌, Option, none, some, Bool, true, ◌==◌, ℤ, pos, Bool-cases,
  Option-cases,
}
use squash_bot.Prelude.Text.{Text}
use squash_bot.Prelude.Int.{eqb_ℤ}
use squash_bot.Store.{World, pure, raise}
use squash_bot.Store.Hoare.{
  Settled, stmt-After, bind-After, in_tx-Settled, bind-Settled, Settled-map, Settled-from,
  event-Settled, stmt-Settled,
}
use squash_bot.Flags.{
  FlagTables, FlagError, FlagChanged, lookup, set_override, has_owner, check_group, authorize,
  repo_set, same_override, scope_allows, write_flag, set_flag, Definition,
}

-- What a successful write of a flag says of the tables.
pub record IsWritten (actor : ℕ) (key : Text) (group : Option ℤ) (enabled : Option Bool)
    (old new : FlagTables) : Type 0 where
  pub owner : has_owner old.owners actor ≡ true
  pub scoped : (d : Definition) × ((lookup key ≡ some d) × (scope_allows d group ≡ true))
  pub written : new.overrides ≡ set_override old.overrides key group enabled
  pub owners_kept : new.owners ≡ old.owners
  pub groups_kept : new.groups ≡ old.groups

module _ (key : Text) (group : Option ℤ) (enabled : Option Bool) where
  -- The tables after repo_set.
  abbrev WithOverride : FlagTables → Option Bool → FlagTables → Type 0
  WithOverride old prev new =
      new ≡ record old { overrides = set_override old.overrides key group enabled }

  repo_set-Settled :
      (w : World FlagTables FlagChanged)
      → Settled w.db (WithOverride w.db) (repo_set key group enabled w)
  unfolding repo_set
  repo_set-Settled w = elim (Option-cases (lookup key)) [
    | inl e ↦ rw (e, repo_set) (unfold raise in refl)
    | inr (d, e) ↦
        rw (e, repo_set)
          (in_tx-Settled (WithOverride w.db) FlagError.database FlagError.database _ w (λ v same.
            bind-After (λ _ t. t ≡ w.db) (WithOverride w.db) _ _ v
              (stmt-After (λ _ t. t ≡ w.db) FlagError.database _ v same)
              (λ _ v2 same2.
                bind-After (λ _ t. t ≡ w.db) (WithOverride w.db) _ _ v2
                  (stmt-After (λ _ t. t ≡ w.db) FlagError.database _ v2 same2)
                  (λ prev v3 same3.
                    stmt-After (WithOverride w.db) FlagError.database _ v3 (rw same3 refl)))))
  ]

  write_flag-Settled :
      (actor : ℕ) (w : World FlagTables FlagChanged)
      → Settled w.db (λ _ new. WithOverride w.db none new) (write_flag actor key group enabled w)
  unfolding write_flag
  write_flag-Settled actor w =
      bind-Settled w.db (WithOverride w.db) (λ _ new. WithOverride w.db none new) _ _ w
        (repo_set-Settled w)
        (λ prev v h. elim (Bool-cases (same_override prev enabled)) [
          | inl e ↦ rw e (unfold pure in h)
          | inr e ↦ rw e (event-Settled _ w.db (λ _ new. WithOverride w.db none new) _ tt v h)
        ])

  -- The tables as they were, for an owner.
  abbrev ByOwner : ℕ → FlagTables → FlagTables → Type 0
  ByOwner actor old new = (new ≡ old) × (has_owner old.owners actor ≡ true)

  check_group-Settled :
      (actor : ℕ) (old : FlagTables) (g : Option ℤ) (w : World FlagTables FlagChanged)
      → ByOwner actor old w.db
      → Settled old (λ _ t. ByOwner actor old t) (check_group g w)
  unfolding check_group
  check_group-Settled actor old none w h = unfold pure in h
  check_group-Settled actor old (some g) w h = elim (Bool-cases (eqb_ℤ g (pos 0))) [
    | inl e ↦ rw e (unfold raise in h.0)
    | inr e ↦ rw e (
        bind-Settled old (λ _ t. ByOwner actor old t) (λ _ t. ByOwner actor old t) _ _ w
          (Settled-from (λ _ t. ByOwner actor old t) _ w.db old h.0
            (stmt-Settled (λ _ t. ByOwner actor old t) FlagError.database _ w h))
          (λ known v k. elim (Bool-cases known) [
            | inl y ↦ rw y (unfold pure in k)
            | inr y ↦ rw y (unfold raise in k.0)
          ]))
  ]

  authorize-Settled :
      (actor : ℕ) (w : World FlagTables FlagChanged)
      → Settled w.db (λ _ t. ByOwner actor w.db t) (authorize actor group w)
  unfolding authorize
  authorize-Settled actor w = elim (Bool-cases (actor == 0)) [
    | inl e ↦ rw e (unfold raise in refl)
    | inr e ↦ rw e (
        bind-Settled w.db (λ o t. (t ≡ w.db) × (o ≡ has_owner w.db.owners actor))
          (λ _ t. ByOwner actor w.db t) _ _ w
          (stmt-Settled (λ o t. (t ≡ w.db) × (o ≡ has_owner w.db.owners actor)) FlagError.database _
            w (refl, refl))
          (λ o v k. elim (Bool-cases o) [
            | inl y ↦ rw y (check_group-Settled actor w.db group v (k.0, sym k.1 ∙ y))
            | inr y ↦ rw y (unfold raise in k.0)
          ]))
  ]

  write_flag-IsWritten :
      (actor : ℕ) (d : Definition) (old : FlagTables) (v : World FlagTables FlagChanged)
      → lookup key ≡ some d
      → scope_allows d group ≡ true
      → ByOwner actor old v.db
      → Settled old
          (λ _ new. IsWritten actor key group enabled old new)
          (write_flag actor key group enabled v)
  write_flag-IsWritten actor d old v e s (same, owner) =
      Settled-from (λ _ new. IsWritten actor key group enabled old new) _ v.db old same
        (Settled-map (λ _ new. WithOverride v.db none new)
          (λ _ new. IsWritten actor key group enabled old new) _ v.db
          (λ _ new h. record {
            owner = owner;
            scoped = (d, (e, s));
            written =
                ap (λ t. t.overrides) h ∙ ap (λ t. set_override t.overrides key group enabled) same;
            owners_kept = ap (λ t. t.owners) h ∙ ap (λ t. t.owners) same;
            groups_kept = ap (λ t. t.groups) h ∙ ap (λ t. t.groups) same;
          })
          (write_flag-Settled actor v))

  -- Setting a flag succeeds only for a server owner, a known flag and a scope that the flag has,
  -- and then exactly the override is written; any error, also one in the middle of the
  -- transaction, leaves the tables as they were.
  pub set_flag_lem :
      (actor : ℕ) (w : World FlagTables FlagChanged)
      → Settled w.db
          (λ _ new. IsWritten actor key group enabled w.db new)
          (set_flag actor key group enabled w)
  unfolding set_flag
  set_flag_lem actor w =
      bind-Settled w.db (λ _ t. ByOwner actor w.db t)
        (λ _ new. IsWritten actor key group enabled w.db new) _ _ w (authorize-Settled actor w)
        (λ _ v a. elim (Option-cases (lookup key)) [
          | inl e ↦ rw e (unfold raise in a.0)
          | inr (d, e) ↦ elim (Bool-cases (scope_allows d group)) [
            | inr s ↦ rw (e, s) (unfold raise in a.0)
            | inl s ↦ rw (e, s) (write_flag-IsWritten actor d w.db v e s a)
          ]
        ])
