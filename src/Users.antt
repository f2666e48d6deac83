-- ===== src/Users.antt =====
-- Users and their identities: cmd/management/storage/user_repo.go. Time stamps are left out.
pub mod Linked
pub mod Resolved
pub mod Roles
mod Tests
use squash_bot.Prelude.{
  ℕ, zero, suc, ◌+◌, ◌-◌, ◌*◌, ◌/◌, ◌%◌, ◌^◌, ◌≤◌, ◌<◌, min, ◌≡◌, ◌≢◌, ◌⊎◌, ◌↔◌, inl, inr, refl,
  sym, ap, ◌∙◌, Option, none, some, Bool, true, false, ◌&&◌, ◌||◌, not, List, [], ◌∷◌, ◌++◌, map,
  append_assoc, append-nil, length, length-append, take, ltb, leb, is_nil, ◌==◌, if◌then◌else◌, ℤ,
  pos, negsuc, arith, Bool-cases, Option-cases, All, All-append, All-map, ==_iff, ltb→lt, lt→ltb,
  leb→le, String,
}
use squash_bot.Prelude.Text.{Text, text_eq, trim_space}
use squash_bot.Store.{World, Prog, pure, raise, stmt, in_tx, require, or_raise, ◌>>=◌}

-- User
pub record User : Type 0 where
  pub id : ℕ
  pub display_name : Text
  pub is_server_owner : Bool
  pub dm_language : Text
  pub results_opt_out : Bool

-- A row of user_identities.
pub record Identity : Type 0 where
  pub user_id : ℕ
  pub provider : Text
  pub external_id : Text
  pub username : Option Text
  pub first_name : Option Text
  pub last_name : Option Text
  pub photo_url : Option Text

pub record Tables : Type 0 where
  pub users : List User
  pub identities : List Identity
  pub next_user : ℕ

-- errIdentityRace, with the display name of the user that the other transaction created, the end of
-- the retries, ErrLastServerOwner, pgx.ErrNoRows and the other errors.
pub data UserError : Type 0 where
  identity_race : Text → UserError
  exhausted_retries last_server_owner no_rows database : UserError

abbrev pub UserProg : Type 0 → Type 0
UserProg A = Prog Tables (Unit {0}) UserError A

-- The profile that a caller has at hand.
pub record Profile : Type 0 where
  pub username : Text
  pub first_name : Text
  pub last_name : Text
  pub photo_url : Text

-- displayNameFor
pub display_name_for : Text → Text → Text → Text
display_name_for username first_name last_name =
    if not (is_nil username) then b'@' ∷ username else trim_space (first_name ++ b' ' ∷ last_name)

abbrev pub is_identity : Text → Text → Identity → Bool
is_identity provider external_id i =
    text_eq i.provider provider && text_eq i.external_id external_id

-- SELECT user_id FROM user_identities WHERE provider = $1 AND external_id = $2
abbrev pub find_identity : Text → Text → List Identity → Option ℕ
find_identity provider external_id [] = none
find_identity provider external_id (i ∷ is) =
    let rest = find_identity provider external_id is in
    if is_identity provider external_id i then some i.user_id else rest

new_user : ℕ → Text → User
new_user id display_name = record {
  id = id;
  display_name = display_name;
  is_server_owner = false;
  dm_language = [];
  results_opt_out = false;
}

insert_user : Text → Tables → ℕ × Tables
unfolding new_user
insert_user display_name t = (
  t.next_user,
  record t {
    users = t.users ++ new_user t.next_user display_name ∷ [];
    next_user = t.next_user + 1;
  },
)

blank_identity : ℕ → Text → Text → Identity
blank_identity user provider external_id = record {
  user_id = user;
  provider = provider;
  external_id = external_id;
  username = none;
  first_name = none;
  last_name = none;
  photo_url = none;
}

insert_identity : ℕ → Text → Text → Tables → ℕ × Tables
unfolding blank_identity
insert_identity user provider external_id t =
    (user, record t { identities = t.identities ++ blank_identity user provider external_id ∷ [] })

-- A transaction that creates the identity at the same time, and commits first.
pub commit_rival : Text → Text → Text → Tables → Tables
unfolding insert_user insert_identity
commit_rival display_name provider external_id t =
    let u = insert_user display_name t in (insert_identity u.0 provider external_id u.1).1

-- The insert of the identity: it violates the key when a rival has committed.
link : Option Text → Text → Text → ℕ → UserProg ℕ
unfolding insert_identity
link none provider external_id user = stmt database (insert_identity user provider external_id)
link (some rival) provider external_id user =
    stmt database (λ t. (tt, t)) >>= λ _. raise (identity_race rival)

create_unless : Option Text → Text → Text → Text → Option ℕ → UserProg ℕ
unfolding insert_user link
create_unless rival provider external_id display_name (some user) = pure user
create_unless rival provider external_id display_name none =
    stmt database (insert_user display_name) >>= link rival provider external_id

-- findOrCreateUserID
find_or_create_user_id : Option Text → Text → Text → Text → UserProg ℕ
unfolding create_unless
find_or_create_user_id rival provider external_id display_name =
    stmt database (λ t. (find_identity provider external_id t.identities, t))
    >>= create_unless rival provider external_id display_name

abbrev nullif : Text → Option Text
nullif s = if is_nil s then none else some s

abbrev coalesce : Option Text → Option Text → Option Text
coalesce none other = other
coalesce (some s) other = some s

updated_identity : Profile → Identity → Identity
updated_identity p i = record i {
  username = nullif p.username;
  first_name = nullif p.first_name;
  last_name = nullif p.last_name;
  photo_url = coalesce (nullif p.photo_url) i.photo_url;
}

update_identities : Text → Text → Profile → List Identity → List Identity
unfolding updated_identity
update_identities provider external_id p [] = []
update_identities provider external_id p (i ∷ is) =
    (if is_identity provider external_id i then updated_identity p i else i)
    ∷ update_identities provider external_id p is

update_identity : Text → Text → Profile → Tables → Unit {0} × Tables
unfolding update_identities
update_identity provider external_id p t =
    (tt, record t { identities = update_identities provider external_id p t.identities })

-- SELECT … FROM users WHERE id = $1
abbrev pub find_user : ℕ → List User → Option User
find_user id [] = none
find_user id (u ∷ us) = let rest = find_user id us in if u.id == id then some u else rest

-- UPDATE users SET … WHERE id = $1
abbrev pub update_users : (User → User) → ℕ → List User → List User
update_users f id [] = []
update_users f id (u ∷ us) = (if u.id == id then f u else u) ∷ update_users f id us

-- … RETURNING the row.
update_user : (User → User) → ℕ → Tables → Option User × Tables
update_user f id t =
    let users = update_users f id t.users in (find_user id users, record t { users = users })

renamed : Text → User → User
renamed name u = record u { display_name = name }

-- The statements of resolveIdentityOnce.
pub resolve_in_tx : Option Text → Text → Text → Profile → UserProg User
unfolding find_or_create_user_id update_identity update_user renamed
resolve_in_tx rival provider external_id p =
    let name = display_name_for p.username p.first_name p.last_name in
    find_or_create_user_id rival provider external_id name >>= λ user.
    stmt database (update_identity provider external_id p) >>= λ _.
    stmt database (update_user (renamed name) user) >>= λ r. or_raise r no_rows

-- The result `retry`, as `none`: what the rival committed is there for the next attempt.
retry_on_race :
    {A : Type 0}
    → Text
    → Text
    → UserError ⊎ A
    → World Tables (Unit {0})
    → (UserError ⊎ Option A) × World Tables (Unit {0})
unfolding commit_rival
retry_on_race provider external_id (inr u) w = (inr (some u), w)
retry_on_race provider external_id (inl (identity_race rival)) w =
    (inr none, record w { db = commit_rival rival provider external_id w.db })
retry_on_race provider external_id (inl exhausted_retries) w = (inl exhausted_retries, w)
retry_on_race provider external_id (inl last_server_owner) w = (inl last_server_owner, w)
retry_on_race provider external_id (inl no_rows) w = (inl no_rows, w)
retry_on_race provider external_id (inl database) w = (inl database, w)

-- resolveIdentityOnce
resolve_identity_once : Option Text → Text → Text → Profile → UserProg (Option User)
unfolding resolve_in_tx retry_on_race
resolve_identity_once rival provider external_id p w =
    let r = in_tx database database (resolve_in_tx rival provider external_id p) w in
    retry_on_race provider external_id r.0 r.1

abbrev pub next_rival : List (Option Text) → Option Text
next_rival [] = none
next_rival (r ∷ rs) = r

abbrev pub rest_rivals : List (Option Text) → List (Option Text)
rest_rivals [] = []
rest_rivals (r ∷ rs) = rs

-- if !retry { return user, err }
or_retry : UserProg User → Option User → UserProg User
or_retry rest none = rest
or_retry rest (some u) = pure u

-- The attempts that are left of `for attempt < maxAttempts`, each with the rival it meets.
attempts : (Option Text → UserProg (Option User)) → ℕ → List (Option Text) → UserProg User
unfolding or_retry
attempts once zero rivals = raise exhausted_retries
attempts once (suc k) rivals =
    let rest = attempts once k (rest_rivals rivals) in once (next_rival rivals) >>= or_retry rest

abbrev max_attempts : ℕ
max_attempts = 3

-- ResolveIdentity
pub resolve_identity : List (Option Text) → Text → Text → Profile → UserProg User
unfolding resolve_identity_once attempts
resolve_identity rivals provider external_id p =
    attempts (λ rival. resolve_identity_once rival provider external_id p) max_attempts rivals

-- ensureIdentityOnce
ensure_identity_once : Option Text → Text → Text → UserProg (Option User)
unfolding find_or_create_user_id retry_on_race
ensure_identity_once rival provider external_id w =
    let r =
      in_tx database database
        (find_or_create_user_id rival provider external_id [] >>= λ user.
          stmt database (λ t. (find_user user t.users, t)) >>= λ u. or_raise u no_rows)
        w in
    retry_on_race provider external_id r.0 r.1

-- EnsureIdentity
pub ensure_identity : List (Option Text) → Text → Text → UserProg User
unfolding ensure_identity_once attempts
ensure_identity rivals provider external_id =
    attempts (λ rival. ensure_identity_once rival provider external_id) max_attempts rivals
