-- ===== src/Users/Roles/Owners.antt =====
-- SetServerOwner of cmd/management/storage/user_repo.go: there is always an owner.
use squash_bot.Prelude.{
  ℕ, ◌+◌, ◌≤◌, ◌<◌, ◌≡◌, ◌≢◌, inl, inr, refl, sym, ap, ◌∙◌, Option, none, some, Bool, true, false,
  List, [], ◌∷◌, ltb, ◌==◌, if◌then◌else◌, arith, Bool-cases, ==_iff,
}
use squash_bot.Store.{World}
use squash_bot.Store.Hoare.{
  After, Settled, in_tx-Settled, stmt-Settled, stmt-After, bind-After, bind-Settled,
}
use squash_bot.Store.Checks.{require-After, require-Settled}
use squash_bot.Users.{User, Tables, no_rows, last_server_owner, database, find_user, update_users}
use squash_bot.Users.Roles.{
  owners, owner, has_user, set_field, update_field, is_server_owner, revoke, set_server_owner,
}

-- How many rows have the id; it is the key of the table.
abbrev pub count_id : ℕ → List User → ℕ
count_id id [] = 0
count_id id (u ∷ us) = (if u.id == id then 1 else 0) + count_id id us

-- What a change of the role of a user leaves: the user has it or not and is otherwise as before, no
-- other user and no identity changed, and there is still an owner if there was one.
pub record HasSet (id : ℕ) (enabled : Bool) (old new : Tables) : Type 0 where
  pub role : is_server_owner id new ≡ enabled
  pub others : (other : ℕ) → other ≢ id → is_server_owner other new ≡ is_server_owner other old
  pub row :
      (u : User)
      → find_user id old.users ≡ some u
      → find_user id new.users ≡ some (record u { is_server_owner = enabled })
  pub other_rows : (other : ℕ) → other ≢ id → find_user other new.users ≡ find_user other old.users
  pub identities : new.identities ≡ old.identities
  pub next_user : new.next_user ≡ old.next_user
  pub owned : 1 ≤ owners old.users → 1 ≤ owners new.users

role_of : ℕ → List User → Bool
role_of id us = elim (find_user id us) [ none ↦ false | some u ↦ u.is_server_owner ]

role_of-cons :
    (id : ℕ) (u : User) (us : List User)
    → role_of id (u ∷ us) ≡ (if u.id == id then u.is_server_owner else role_of id us)
unfolding role_of
role_of-cons id u us = elim (Bool-cases (u.id == id)) [
  | inl e ↦ rw (role_of, e) refl
  | inr e ↦ rw (role_of, e) refl
]

role_of-set :
    (b : Bool) (id : ℕ) (us : List User)
    → has_user id us ≡ true
    → role_of id (update_users (owner b) id us) ≡ b
role_of-set b id [] h = cc
role_of-set b id (u ∷ us) h = elim (Bool-cases (u.id == id)) [
  | inl e ↦
      rw
        (role_of-cons id (if u.id == id then owner b u else u) (update_users (owner b) id us), e, e)
        refl
  | inr e ↦
      rw
        (role_of-cons id (if u.id == id then owner b u else u) (update_users (owner b) id us), e, e)
        (role_of-set b id us (rw e at h))
]

role_of-other :
    (b : Bool) (id other : ℕ) (us : List User)
    → other ≢ id
    → role_of other (update_users (owner b) id us) ≡ role_of other us
role_of-other b id other [] h = refl
role_of-other b id other (u ∷ us) h =
    let rest = role_of-other b id other us h in
    elim (Bool-cases (u.id == id)) [
      | inl e ↦
          let same : u.id ≡ id = (==_iff u.id id).0 e in
          let apart : (u.id == other) ≡ false = ground (arith, same) in
          rw
            (
              role_of-cons other (if u.id == id then owner b u else u)
                  (update_users (owner b) id us),
              role_of-cons other u us,
              e,
              apart,
            )
            rest
      | inr e ↦
          rw
            (
              role_of-cons other (if u.id == id then owner b u else u)
                  (update_users (owner b) id us),
              role_of-cons other u us,
              e,
              rest,
            )
            refl
    ]

find_user-owner :
    (b : Bool) (id : ℕ) (us : List User) (u : User)
    → find_user id us ≡ some u
    → find_user id (update_users (owner b) id us) ≡ some (record u { is_server_owner = b })
find_user-owner b id [] u h = cc
find_user-owner b id (x ∷ us) u h = elim (Bool-cases (x.id == id)) [
  | inl e ↦
      let found : some x ≡ some u = rw e at h in
      let same : x ≡ u = cc in
      rw (e, e) (ap {A = User} {B = Option User} (λ y. some (owner b y)) same)
  | inr e ↦ rw (e, e) (find_user-owner b id us u (rw e at h))
]

find_user-owner_other :
    (b : Bool) (id other : ℕ) (us : List User)
    → other ≢ id
    → find_user other (update_users (owner b) id us) ≡ find_user other us
find_user-owner_other b id other [] h = refl
find_user-owner_other b id other (u ∷ us) h =
    let rest = find_user-owner_other b id other us h in
    elim (Bool-cases (u.id == id)) [
      | inl e ↦
          let same : u.id ≡ id = (==_iff u.id id).0 e in
          let apart : (u.id == other) ≡ false = ground (arith, same) in rw (e, apart) rest
      | inr e ↦ rw (e, rest) refl
    ]

-- Owners are lost only among the rows of the user.
owners-revoke :
    (id : ℕ) (us : List User)
    → owners us ≤ owners (update_users (owner false) id us) + count_id id us
owners-revoke id [] = omega arith
owners-revoke id (u ∷ us) = let rest = owners-revoke id us in ground (arith, rest)

owners-grant : (id : ℕ) (us : List User) → owners us ≤ owners (update_users (owner true) id us)
owners-grant id [] = omega arith
owners-grant id (u ∷ us) = let rest = owners-grant id us in ground (arith, rest)

role_of-has_user : (id : ℕ) (us : List User) → role_of id us ≡ true → has_user id us ≡ true
role_of-has_user id [] h = unfold role_of in cc
role_of-has_user id (u ∷ us) h = elim (Bool-cases (u.id == id)) [
  | inl e ↦ rw e refl
  | inr e ↦ rw e (role_of-has_user id us (rw (role_of-cons id u us, e) at h))
]

set_field-HasSet :
    (id : ℕ) (b : Bool) (t : Tables)
    → has_user id t.users ≡ true
    → owners t.users ≤ owners (update_users (owner b) id t.users) + (if b then 0 else 1)
    → (1 ≤ owners t.users → (if b then 0 else 1) < owners t.users)
    → HasSet id b t (record t { users = update_users (owner b) id t.users })
unfolding is_server_owner role_of
set_field-HasSet id b t h kept enough = record {
  role = role_of-set b id t.users h;
  others = λ other apart. role_of-other b id other t.users apart;
  row = find_user-owner b id t.users;
  other_rows = λ other apart. find_user-owner_other b id other t.users apart;
  identities = refl;
  next_user = refl;
  owned = λ some_owner. let left = enough some_owner in omega arith;
}

grant-HasSet :
    (id : ℕ) (w : World Tables (Unit {0}))
    → Settled w.db (λ _ t. HasSet id true w.db t) (update_field (owner true) id w)
unfolding update_field set_field
grant-HasSet id w =
    bind-Settled w.db (λ ok t. (ok ≡ true → HasSet id true w.db t) × (ok ≡ false → t ≡ w.db)) _ _ _
      w
      (stmt-Settled _ database _ w (elim (Bool-cases (has_user id w.db.users)) [
        | inl e ↦ rw e (
          λ _.
              set_field-HasSet id true w.db e (let more = owners-grant id w.db.users in omega arith)
                (λ k. k),
          λ f. cc,
        )
        | inr e ↦ rw e (λ f. cc, λ _. refl)
      ]))
      λ ok v h. require-Settled w.db _ ok no_rows v h.0 h.1

revoke-HasSet :
    (id : ℕ) (old : Tables) (w : World Tables (Unit {0}))
    → count_id id old.users ≤ 1
    → w.db ≡ old
    → After (λ _ t. HasSet id false old t) (revoke id w)
unfolding revoke
revoke-HasSet id old w key same =
    bind-After (λ (_ : Unit {0}) t. t ≡ old) _ _ _ w (stmt-After _ database _ w same)
      λ _ v1 h1.
        bind-After (λ known t. (t ≡ old) × (is_server_owner id old ≡ known)) _ _ _ v1
          (stmt-After _ database _ v1 (h1, ap (is_server_owner id) (sym h1)))
          λ known v2 h2.
            bind-After (λ (_ : Unit {0}) t. (t ≡ old) × (is_server_owner id old ≡ true)) _ _ _ v2
              (require-After _ known no_rows v2 (λ e. (h2.0, h2.1 ∙ e)))
              λ _ v3 h3.
                bind-After (λ n t. (t ≡ old) × (n ≡ owners old.users)) _ _ _ v3
                  (stmt-After _ database _ v3 (h3.0, ap (λ (t : Tables). owners t.users) h3.0))
                  λ n v4 h4.
                    bind-After (λ (_ : Unit {0}) t. (t ≡ old) × (1 < owners old.users)) _ _ _ v4
                      (require-After _ (ltb 1 n) last_server_owner v4
                        (λ e. (h4.0, let count = h4.1 in ground arith)))
                      λ _ v5 h5. stmt-After _ database _ v5 (
                        rw (h5.0) (
                          set_field-HasSet id false old
                            (role_of-has_user id old.users (unfold is_server_owner role_of in h3.1))
                            (let lost = owners-revoke id old.users in omega arith) (λ _. h5.1)))

-- Granting or revoking the role of a server owner either fails and changes nothing, or leaves that
-- user with the role or without it and otherwise as before, every other user and all identities as
-- before, and at least one owner if there was one; ids are unique.
pub set_server_owner-HasSet :
    (id : ℕ) (enabled : Bool) (w : World Tables (Unit {0}))
    → count_id id w.db.users ≤ 1
    → Settled w.db (λ _ t. HasSet id enabled w.db t) (set_server_owner id enabled w)
unfolding set_server_owner
set_server_owner-HasSet id true w key = grant-HasSet id w
set_server_owner-HasSet id false w key =
    in_tx-Settled (λ _ t. HasSet id false w.db t) database database (revoke id) w
      λ v same. revoke-HasSet id w.db v key same
