-- ===== src/Users/Roles.antt =====
-- Server owners and preferences: the operations of cmd/management/storage/user_repo.go on one user.
pub mod Owners
use squash_bot.Prelude.{
  ℕ, zero, suc, ◌+◌, ◌-◌, ◌*◌, ◌/◌, ◌%◌, ◌^◌, ◌≤◌, ◌<◌, min, ◌≡◌, ◌≢◌, ◌⊎◌, ◌↔◌, inl, inr, refl,
  sym, ap, ◌∙◌, Option, none, some, Bool, true, false, ◌&&◌, ◌||◌, not, List, [], ◌∷◌, ◌++◌, map,
  append_assoc, append-nil, length, length-append, take, ltb, leb, is_nil, ◌==◌, if◌then◌else◌, ℤ,
  pos, negsuc, arith, Bool-cases, Option-cases, All, All-append, All-map, ==_iff, ltb→lt, lt→ltb,
  leb→le, String,
}
use squash_bot.Prelude.Text.{Text, text_eq, trim_space}
use squash_bot.Store.{World, Prog, pure, raise, stmt, in_tx, require, or_raise, ◌>>=◌}
use squash_bot.Users.{
  User, Tables, UserError, UserProg, no_rows, last_server_owner, database, find_user, update_users,
}

abbrev pub owners : List User → ℕ
owners [] = 0
owners (u ∷ us) = (if u.is_server_owner then 1 else 0) + owners us

abbrev pub owner : Bool → User → User
owner b u = record u { is_server_owner = b }

abbrev pub has_user : ℕ → List User → Bool
has_user id [] = false
has_user id (u ∷ us) = u.id == id || has_user id us

-- UPDATE users SET … WHERE id = $1, and whether a row was affected.
set_field : (User → User) → ℕ → Tables → Bool × Tables
set_field f id t =
    if has_user id t.users
    then (true, record t { users = update_users f id t.users })
    else (false, t)

update_field : (User → User) → ℕ → UserProg (Unit {0})
unfolding set_field
update_field f id = stmt database (set_field f id) >>= λ ok. require ok no_rows

-- IsServerOwner
pub is_server_owner : ℕ → Tables → Bool
is_server_owner id t = elim (find_user id t.users) [ none ↦ false | some u ↦ u.is_server_owner ]

-- The statements of a revocation, behind the lock.
revoke : ℕ → UserProg (Unit {0})
unfolding is_server_owner
revoke id = stmt database (λ t. (tt, t)) >>= λ _.
    stmt database (λ t. (is_server_owner id t, t)) >>= λ known. require known no_rows >>= λ _.
    stmt database (λ t. (owners t.users, t)) >>= λ count.
    require (ltb 1 count) last_server_owner >>= λ _.
    stmt database (λ t. (tt, record t { users = update_users (owner false) id t.users }))

-- SetServerOwner
pub set_server_owner : ℕ → Bool → UserProg (Unit {0})
unfolding update_field revoke
set_server_owner id true = update_field (owner true) id
set_server_owner id false = in_tx database database (revoke id)

-- SetDMLanguage
pub set_dm_language : ℕ → Text → UserProg (Unit {0})
unfolding update_field
set_dm_language id language = update_field (λ u. record u { dm_language = language }) id

-- SetResultsOptOut
pub set_results_opt_out : ℕ → Bool → UserProg (Unit {0})
unfolding update_field
set_results_opt_out id out = update_field (λ u. record u { results_opt_out = out }) id
