-- ===== src/Booking/Credentials/Service.antt =====
-- The operations of cmd/management/service/venue_credential_service.go on the tables, with the
-- statements of cmd/management/storage/venue_credential_repo.go. The cipher is a parameter: what
-- `encrypt` and `decrypt` answer. A credential that the database returns in a list without
-- passwords has an empty one.
pub mod Roundtrip
pub mod Removed
pub mod Offered
mod Tests
use squash_bot.Prelude.{
  ℕ, zero, suc, ◌+◌, ◌-◌, ◌*◌, ◌/◌, ◌%◌, ◌^◌, ◌≤◌, ◌<◌, min, ◌≡◌, ◌≢◌, ◌⊎◌, ◌↔◌, inl, inr, refl,
  sym, ap, ◌∙◌, Option, none, some, Bool, true, false, ◌&&◌, ◌||◌, not, List, [], ◌∷◌, ◌++◌, map,
  append_assoc, append-nil, length, length-append, take, ltb, leb, is_nil, ◌==◌, if◌then◌else◌, ℤ,
  pos, negsuc, arith, Bool-cases, Option-cases, All, All-append, All-map, ==_iff, ltb→lt, lt→ltb,
  leb→le, String,
}
use squash_bot.Prelude.Int.{eqb_ℤ}
use squash_bot.Prelude.Text.{Text, text_eq}
use squash_bot.Store.{World, Prog, pure, raise, stmt, require, or_raise, ◌>>=◌}
use squash_bot.Venues.Tables.{find_venue, BookingRow, Tables as VenueTables}
use squash_bot.Venues.Service.{venue_today}
use squash_bot.Booking.Credentials.{
  VenueCredential, DecryptedCredential, list_for_booking, mark_error,
}

pub record Tables : Type 0 where
  pub venue_tables : VenueTables
  pub credentials : List VenueCredential
  pub next_credential : ℕ

-- ErrDuplicateCredentialLogin, ErrCredentialInUse and ErrCredentialNotFound, and the errors that the
-- service wraps.
pub data CredentialError : Type 0 where
  duplicate_login in_use not_found not_owned cipher database : CredentialError

abbrev pub CredentialProg : Type 0 → Type 0
CredentialProg A = Prog Tables (Unit {0}) CredentialError A

-- Whether GetByIDAndGroupID finds the venue.
abbrev pub is_owned : ℕ → ℤ → VenueTables → Bool
is_owned id group t = elim (find_venue id t.venues) [
  | none ↦ false
  | some v ↦ eqb_ℤ v.group_id group
]

-- The check of the ownership, with the errors of a failed call and of a missing row.
pub own_venue : CredentialError → CredentialError → ℕ → ℤ → CredentialProg (Unit {0})
own_venue failed missing venue group =
    stmt failed (λ t. (is_owned venue group t.venue_tables, t)) >>= λ ok. require ok missing

abbrev pub is_login : ℕ → Text → VenueCredential → Bool
is_login venue login c = c.venue_id == venue && text_eq c.login login

-- ExistsByLogin
abbrev pub exists_by_login : ℕ → Text → List VenueCredential → Bool
exists_by_login venue login [] = false
exists_by_login venue login (c ∷ cs) = is_login venue login c || exists_by_login venue login cs

abbrev pub new_credential : ℕ → ℕ → Text → Text → ℕ → ℕ → VenueCredential
new_credential id venue login enc_password priority max_courts = record {
  id = id;
  venue_id = venue;
  login = login;
  priority = priority;
  max_courts = max_courts;
  last_error_at = none;
  encrypted_password = enc_password;
}

abbrev pub has_venue : ℕ → VenueTables → Bool
has_venue id t = elim (find_venue id t.venues) [ none ↦ false | some v ↦ true ]

-- Create; `none` when a constraint of the table fails.
pub create : ℕ → Text → Text → ℕ → ℕ → Tables → Option VenueCredential × Tables
create venue login enc_password priority max_courts t =
    let c = new_credential t.next_credential venue login enc_password priority max_courts in
    if has_venue venue t.venue_tables && not (exists_by_login venue login t.credentials)
    then (
      some c,
      record t { credentials = t.credentials ++ c ∷ []; next_credential = t.next_credential + 1 },
    )
    else (none, t)

-- WHERE venue_id = $1
abbrev pub of_venue : ℕ → List VenueCredential → List VenueCredential
of_venue venue [] = []
of_venue venue (c ∷ cs) =
    let rest = of_venue venue cs in if c.venue_id == venue then c ∷ rest else rest

abbrev pub insert_by_priority : VenueCredential → List VenueCredential → List VenueCredential
insert_by_priority c [] = c ∷ []
insert_by_priority c (d ∷ ds) =
    let rest = insert_by_priority c ds in if ltb d.priority c.priority then d ∷ rest else c ∷ d ∷ ds

-- ORDER BY priority ASC; rows of one priority keep the order of the table, which SQL leaves open.
abbrev pub by_priority : List VenueCredential → List VenueCredential
by_priority [] = []
by_priority (c ∷ cs) = insert_by_priority c (by_priority cs)

-- ListWithPasswordByVenueID
pub list_with_password_by_venue_id : ℕ → List VenueCredential → List VenueCredential
list_with_password_by_venue_id venue cs = by_priority (of_venue venue cs)

abbrev hide_password : VenueCredential → VenueCredential
hide_password c = record c { encrypted_password = [] }

-- ListByVenueID
pub list_by_venue_id : ℕ → List VenueCredential → List VenueCredential
unfolding list_with_password_by_venue_id
list_by_venue_id venue cs = map hide_password (list_with_password_by_venue_id venue cs)

-- PrioritiesInUse of the repository
pub repo_priorities_in_use : ℕ → List VenueCredential → List ℕ
unfolding list_with_password_by_venue_id
repo_priorities_in_use venue cs = map (λ c. c.priority) (list_with_password_by_venue_id venue cs)

-- GetWithPasswordByID
abbrev pub get_with_password_by_id : ℕ → List VenueCredential → Option VenueCredential
get_with_password_by_id id [] = none
get_with_password_by_id id (c ∷ cs) =
    let rest = get_with_password_by_id id cs in if c.id == id then some c else rest

abbrev pub is_id : ℕ → Option ℕ → Bool
is_id id none = false
is_id id (some c) = c == id

module _ (today : Text → ℕ) where
  -- A booking that is neither canceled nor past, in the time zone of its venue's group.
  abbrev pub is_live : VenueTables → BookingRow → Bool
  is_live t b =
      not b.canceled
      && elim (venue_today today b.venue_id t) [ none ↦ false | some date ↦ leb date b.game_date ]

  abbrev pub uses_credential : ℕ → VenueTables → BookingRow → Bool
  uses_credential id t b = is_id id b.credential_id && is_live t b

  abbrev pub any_uses : ℕ → VenueTables → List BookingRow → Bool
  any_uses id t [] = false
  any_uses id t (b ∷ bs) = uses_credential id t b || any_uses id t bs

  -- HasActiveByCredentialID
  pub has_active_by_credential_id : ℕ → VenueTables → Bool
  has_active_by_credential_id id t = any_uses id t t.bookings

abbrev pub is_key : ℕ → ℕ → VenueCredential → Bool
is_key id venue c = c.id == id && c.venue_id == venue

abbrev pub has_key : ℕ → ℕ → List VenueCredential → Bool
has_key id venue [] = false
has_key id venue (c ∷ cs) = is_key id venue c || has_key id venue cs

abbrev pub without_key : ℕ → ℕ → List VenueCredential → List VenueCredential
without_key id venue [] = []
without_key id venue (c ∷ cs) =
    let rest = without_key id venue cs in if is_key id venue c then rest else c ∷ rest

-- ON DELETE SET NULL
abbrev pub detach : ℕ → BookingRow → BookingRow
detach id b = if is_id id b.credential_id then record b { credential_id = none } else b

-- Delete
pub delete : ℕ → ℕ → Tables → Bool × Tables
delete id venue t =
    if has_key id venue t.credentials
    then (
      true,
      record t {
        credentials = without_key id venue t.credentials;
        venue_tables = record t.venue_tables { bookings = map (detach id) t.venue_tables.bookings };
      },
    )
    else (false, t)

-- SetLastErrorAt; false when there is no such row.
pub set_last_error_at : ℕ → ℕ → Tables → Bool × Tables
set_last_error_at now id t = elim (get_with_password_by_id id t.credentials) [
  | none ↦ (false, t)
  | some c ↦ (true, record t { credentials = mark_error now id t.credentials })
]

-- Add
pub add : (Text → Option Text) → ℕ → ℤ → Text → Text → ℕ → ℕ → CredentialProg VenueCredential
unfolding own_venue create
add encrypt venue group login password priority max_courts =
    own_venue database not_owned venue group >>= λ _.
    stmt database (λ t. (exists_by_login venue login t.credentials, t)) >>= λ exists.
    require (not exists) duplicate_login >>= λ _.
    or_raise (encrypt password) cipher >>= λ enc_password.
    stmt database (create venue login enc_password priority max_courts) >>= λ r. or_raise r database

-- List
pub list : ℕ → ℤ → CredentialProg (List VenueCredential)
unfolding own_venue list_by_venue_id
list venue group = own_venue database not_owned venue group >>= λ _.
    stmt database (λ t. (list_by_venue_id venue t.credentials, t))

-- The check of the bookings; `wired` is whether the service has their repository.
active_bookings : (Text → ℕ) → Bool → ℕ → CredentialProg Bool
unfolding has_active_by_credential_id
active_bookings today true id =
    stmt database (λ t. (has_active_by_credential_id today id t.venue_tables, t))
active_bookings today false id = pure false

-- Remove
pub remove : (Text → ℕ) → Bool → ℕ → ℕ → ℤ → CredentialProg (Unit {0})
unfolding own_venue active_bookings delete
remove today wired id venue group = own_venue not_found not_found venue group >>= λ _.
    active_bookings today wired id >>= λ active. require (not active) in_use >>= λ _.
    stmt not_found (delete id venue) >>= λ ok. require ok not_found

decrypted : (Text → Option Text) → VenueCredential → Option DecryptedCredential
decrypted decrypt c = elim (decrypt c.encrypted_password) [
  | none ↦ none
  | some password ↦ some (record {
    id = c.id;
    venue_id = c.venue_id;
    login = c.login;
    password = password;
    priority = c.priority;
    max_courts = c.max_courts;
  })
]

-- GetDecryptedByID
pub get_decrypted_by_id : (Text → Option Text) → ℕ → CredentialProg DecryptedCredential
unfolding decrypted
get_decrypted_by_id decrypt id =
    stmt database (λ t. (get_with_password_by_id id t.credentials, t)) >>= λ r.
    or_raise r database >>= λ c. or_raise (decrypted decrypt c) cipher

-- PrioritiesInUse
pub priorities_in_use : ℕ → ℤ → CredentialProg (List ℕ)
unfolding own_venue repo_priorities_in_use
priorities_in_use venue group = own_venue database not_owned venue group >>= λ _.
    stmt database (λ t. (repo_priorities_in_use venue t.credentials, t))

-- ListForBooking
pub offered : (Text → Option Text) → ℕ → ℕ → ℕ → CredentialProg (List DecryptedCredential)
unfolding list_with_password_by_venue_id
offered decrypt now cooldown venue = stmt database (λ t.
    (list_for_booking decrypt now cooldown (list_with_password_by_venue_id venue t.credentials), t))

-- MarkError
pub service_mark_error : ℕ → ℕ → CredentialProg (Unit {0})
unfolding set_last_error_at
service_mark_error now id = stmt database (set_last_error_at now id) >>= λ ok. require ok not_found
