-- ===== src/Users/Linked.antt =====
-- The statements of resolveIdentityOnce of cmd/management/storage/user_repo.go: the identity that
-- they find or create.
use squash_bot.Prelude.{
  ℕ, ◌≡◌, ◌≢◌, inl, inr, refl, sym, ap, ◌∙◌, Option, none, some, true, List, [], ◌∷◌, ◌++◌, ◌==◌,
  arith, Bool-cases, ==_iff,
}
use squash_bot.Prelude.Text.{Text}
use squash_bot.Prelude.Text.Equality.{text_eq_refl}
use squash_bot.Store.{World, pure, raise}
use squash_bot.Store.Ends.{Ends, stmt-Ends, or_raise-Ends, bind-Ends}
use squash_bot.Users.{
  User, Identity, Tables, UserError, Profile, identity_race, no_rows, database, display_name_for,
  is_identity, find_identity, insert_user, insert_identity, commit_rival, link, create_unless,
  find_or_create_user_id, updated_identity, update_identities, update_identity, find_user,
  update_users, update_user, renamed, resolve_in_tx,
}

abbrev pub W : Type 0
W = World Tables (Unit {0})

module _ (provider external_id : Text) where
  find_identity-append :
      (is : List Identity) (i : Identity)
      → find_identity provider external_id is ≡ none
      → is_identity provider external_id i ≡ true
      → find_identity provider external_id (is ++ i ∷ []) ≡ some i.user_id
  find_identity-append [] i h e = rw e refl
  find_identity-append (j ∷ is) i h e = elim (Bool-cases (is_identity provider external_id j)) [
    | inl x ↦ absurd (ground arith)
    | inr x ↦ rw x (find_identity-append is i (rw x at h) e)
  ]

  -- A later row does not take away an identity that is found.
  find_identity-kept :
      (is : List Identity) (i : Identity)
      → is_identity provider external_id i ≡ true
      → find_identity provider external_id (is ++ i ∷ []) ≢ none
  find_identity-kept [] i e h = ground arith
  find_identity-kept (j ∷ is) i e h = ground (arith, find_identity-kept is i e)

  own_identity :
      (user : ℕ) (t : Tables)
      → find_identity provider external_id
          (insert_identity user provider external_id t).1.identities
        ≢ none
  unfolding insert_identity
  own_identity user t =
      find_identity-kept t.identities _ (rw (text_eq_refl provider, text_eq_refl external_id) refl)

  pub commit_rival-found :
      (name : Text) (t : Tables)
      → find_identity provider external_id (commit_rival name provider external_id t).identities
        ≢ none
  unfolding commit_rival
  commit_rival-found name t = own_identity (insert_user name t).0 (insert_user name t).1

  find_identity-update :
      (p : Profile) (is : List Identity)
      → find_identity provider external_id (update_identities provider external_id p is)
        ≡ find_identity provider external_id is
  unfolding update_identities updated_identity
  find_identity-update p [] = refl
  find_identity-update p (i ∷ is) =
      let rest = find_identity-update p is in
      elim (Bool-cases (is_identity provider external_id i)) [
        | inl e ↦ rw (e, update_identities, updated_identity, e) refl
        | inr e ↦ rw (e, update_identities, e) rest
      ]

find_user-renamed :
    (name : Text) (id : ℕ) (us : List User) (u : User)
    → find_user id (update_users (renamed name) id us) ≡ some u
    → (u.id ≡ id) × (u.display_name ≡ name)
unfolding renamed
find_user-renamed name id [] u h = cc
find_user-renamed name id (v ∷ us) u h = elim (Bool-cases (v.id == id)) [
  | inl e ↦
      let same : record v { display_name = name } ≡ u =
        let first : some (record v { display_name = name }) ≡ some u = rw (e, renamed, e) at h in
        cc in
      (
        sym (ap (λ (x : User). x.id) same) ∙ (==_iff v.id id).0 e,
        sym (ap (λ (x : User). x.display_name) same),
      )
  | inr e ↦ find_user-renamed name id us u (rw (e, e) at h)
]

module _ (provider external_id : Text) where
  -- Whether the identity is found, with the user.
  abbrev pub IsLinked : ℕ → Tables → Type 0
  IsLinked user t = find_identity provider external_id t.identities ≡ some user

  -- The user of the identity, with the name of the profile.
  abbrev pub IsResolved : Profile → User → Tables → Type 0
  IsResolved p u t =
      IsLinked u.id t × (u.display_name ≡ display_name_for p.username p.first_name p.last_name)

  module _ (P : UserError → Type 0) (down : P database) (missing : P no_rows) where
    link-Ends :
        (rival : Option Text) (user : ℕ) (w : W)
        → ((name : Text) → P (identity_race name))
        → find_identity provider external_id w.db.identities ≡ none
        → Ends P (λ u t. IsLinked u t) (link rival provider external_id user w)
    unfolding link insert_identity raise
    link-Ends none user w race h =
        stmt-Ends P (λ u t. IsLinked u t) database _ w down
          (find_identity-append provider external_id w.db.identities _ h
            (rw (text_eq_refl provider, text_eq_refl external_id) refl))
    link-Ends (some name) user w race h =
        bind-Ends P (λ (_ : Unit {0}) t. Unit {0}) (λ u t. IsLinked u t) _ _ w
          (stmt-Ends P _ database _ w down tt) λ _ v k. race name

    create_unless-Ends :
        (rival : Option Text) (name : Text) (r : Option ℕ) (w : W)
        → find_identity provider external_id w.db.identities ≡ r
        → (r ≡ none → (name : Text) → P (identity_race name))
        → Ends P (λ u t. IsLinked u t) (create_unless rival provider external_id name r w)
    unfolding create_unless insert_user pure
    create_unless-Ends rival name (some user) w h race = h
    create_unless-Ends rival name none w h race =
        bind-Ends P (λ (_ : ℕ) t. find_identity provider external_id t.identities ≡ none)
          (λ u t. IsLinked u t) _ _ w
          (stmt-Ends P (λ (_ : ℕ) t. find_identity provider external_id t.identities ≡ none)
            database _ w down h)
          λ user v k. link-Ends rival user v (race refl) k

    find_or_create_user_id-Ends :
        (rival : Option Text) (name : Text) (w : W)
        → (find_identity provider external_id w.db.identities ≡ none
            → (name : Text) → P (identity_race name))
        → Ends P (λ u t. IsLinked u t) (find_or_create_user_id rival provider external_id name w)
    unfolding find_or_create_user_id
    find_or_create_user_id-Ends rival name w race =
        let Q : Option ℕ → Tables → Type 0 = λ r t.
          (find_identity provider external_id t.identities ≡ r)
          × (r ≡ none → (name : Text) → P (identity_race name)) in
        bind-Ends P Q (λ u t. IsLinked u t) _ _ w (stmt-Ends P Q database _ w down (refl, race))
          λ r v k. create_unless-Ends rival name r v k.0 k.1

    pub resolve_in_tx-Ends :
        (rival : Option Text) (p : Profile) (w : W)
        → (find_identity provider external_id w.db.identities ≡ none
            → (name : Text) → P (identity_race name))
        → Ends P (λ u t. IsResolved p u t) (resolve_in_tx rival provider external_id p w)
    unfolding resolve_in_tx update_identity update_user
    resolve_in_tx-Ends rival p w race =
        let name = display_name_for p.username p.first_name p.last_name in
        bind-Ends P (λ u t. IsLinked u t) (λ u t. IsResolved p u t) _ _ w
          (find_or_create_user_id-Ends rival name w race)
          λ user v1 k1.
            bind-Ends P (λ (_ : Unit {0}) t. IsLinked user t) (λ u t. IsResolved p u t) _ _ v1
              (stmt-Ends P (λ (_ : Unit {0}) t. IsLinked user t) database _ v1 down
                (find_identity-update provider external_id p v1.db.identities ∙ k1))
              λ _ v2 k2.
                let Q : Option User → Tables → Type 0 = λ r t.
                  IsLinked user t
                  × ((u : User) → r ≡ some u → (u.id ≡ user) × (u.display_name ≡ name)) in
                bind-Ends P Q (λ u t. IsResolved p u t) _ _ v2
                  (stmt-Ends P Q database _ v2 down
                    (k2, λ u e. find_user-renamed name user v2.db.users u e))
                  λ r v3 k3.
                    or_raise-Ends P _ r no_rows v3 missing
                      (λ u e. let own = k3.1 u e in (k3.0 ∙ ap some (sym own.0), own.1))
