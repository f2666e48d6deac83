-- ===== src/Booking/Credentials.antt =====
-- The credentials of a venue: ListForBooking, HasUsableCredentials and MarkError of
-- cmd/management/service/venue_credential_service.go, with VenueCredential of
-- internal/models/venue_credential.go. Instants and durations are numbers of one unit. Decryption
-- is a parameter: it fails on a text that the current key did not encrypt. Service has the rest.
pub mod Service
use squash_bot.Prelude.{
  ℕ, ◌+◌, ◌<◌, ◌≡◌, ◌≢◌, inl, inr, refl, Option, none, some, Bool, false, not, List, [], ◌∷◌, ltb,
  is_nil, ◌==◌, if◌then◌else◌, arith, Bool-cases, All,
}
use squash_bot.Prelude.Text.{Text}

-- VenueCredential
pub record VenueCredential : Type 0 where
  pub id : ℕ
  pub venue_id : ℕ
  pub login : Text
  pub priority : ℕ
  pub max_courts : ℕ
  pub last_error_at : Option ℕ
  pub encrypted_password : Text

-- DecryptedCredential
pub record DecryptedCredential : Type 0 where
  pub id : ℕ
  pub venue_id : ℕ
  pub login : Text
  pub password : Text
  pub priority : ℕ
  pub max_courts : ℕ

-- c.LastErrorAt != nil && c.LastErrorAt.After(now - cooldown)
unfoldable pub in_cooldown : ℕ → ℕ → Option ℕ → Bool
in_cooldown now cooldown none = false
in_cooldown now cooldown (some t) = ltb now (t + cooldown)

module _ (decrypt : Text → Option Text) (now cooldown : ℕ) where
  unfoldable pub usable : VenueCredential → Option DecryptedCredential
  usable c =
      if in_cooldown now cooldown c.last_error_at
      then none
      else elim (decrypt c.encrypted_password) [
        | none ↦ none
        | some password ↦ some (record {
          id = c.id;
          venue_id = c.venue_id;
          login = c.login;
          password = password;
          priority = c.priority;
          max_courts = c.max_courts;
        })
      ]

  -- ListForBooking, on the rows that the repository returns.
  unfoldable pub list_for_booking : List VenueCredential → List DecryptedCredential
  list_for_booking [] = []
  list_for_booking (c ∷ cs) =
      let rest = list_for_booking cs in elim (usable c) [ none ↦ rest | some d ↦ d ∷ rest ]

abbrev pub total_max_courts : List DecryptedCredential → ℕ
total_max_courts [] = 0
total_max_courts (d ∷ ds) = d.max_courts + total_max_courts ds

-- HasUsableCredentials
pub has_usable_credentials : (Text → Option Text) → ℕ → ℕ → List VenueCredential → Bool × ℕ
has_usable_credentials decrypt now cooldown all =
    let creds = list_for_booking decrypt now cooldown all in
    (not (is_nil creds), total_max_courts creds)

-- MarkError: UPDATE venue_credentials SET last_error_at = now WHERE id = cred_id
unfoldable pub mark_error : ℕ → ℕ → List VenueCredential → List VenueCredential
mark_error now cred_id [] = []
mark_error now cred_id (c ∷ cs) =
    (if c.id == cred_id then record c { last_error_at = some now } else c)
    ∷ mark_error now cred_id cs

-- The credential of this id is not in the list.
abbrev pub LacksId : ℕ → List DecryptedCredential → Type 0
LacksId cred_id = All (λ d. d.id ≢ cred_id)

module _ (decrypt : Text → Option Text) where
  usable-id :
      (now cooldown : ℕ) (c : VenueCredential) (d : DecryptedCredential)
      → usable decrypt now cooldown c ≡ some d
      → (d.id ≡ c.id) × (in_cooldown now cooldown c.last_error_at ≡ false)
  unfolding usable
  usable-id now cooldown c d h = ground arith

  list-cons-LacksId :
      (now cooldown cred_id : ℕ) (c : VenueCredential) (cs : List VenueCredential)
      → ((d : DecryptedCredential) → usable decrypt now cooldown c ≡ some d → d.id ≢ cred_id)
      → LacksId cred_id (list_for_booking decrypt now cooldown cs)
      → LacksId cred_id (list_for_booking decrypt now cooldown (c ∷ cs))
  unfolding list_for_booking
  list-cons-LacksId now cooldown cred_id c cs h rest = go (usable decrypt now cooldown c) refl
    where
      go :
          (o : Option DecryptedCredential)
          → usable decrypt now cooldown c ≡ o
          → LacksId cred_id (list_for_booking decrypt now cooldown (c ∷ cs))
      go none e = rw (e, list_for_booking) rest
      go (some d) e = rw (e, list_for_booking) (h d e, rest)

  marked_unusable :
      (now cooldown failed_at cred_id : ℕ) (c : VenueCredential) (d : DecryptedCredential)
      → now < failed_at + cooldown
      → usable decrypt now cooldown
          (if c.id == cred_id then record c { last_error_at = some failed_at } else c)
        ≡ some d
      → d.id ≢ cred_id
  marked_unusable now cooldown failed_at cred_id c d h e same =
      elim (Bool-cases (c.id == cred_id)) [
        | inl t ↦
            let p =
              usable-id now cooldown (record c { last_error_at = some failed_at }) d (rw t at e) in
            unfold in_cooldown in ground (arith, p.1)
        | inr t ↦ let p = usable-id now cooldown c d (rw t at e) in ground (arith, p.0)
      ]

  -- A credential that failed at an instant is not offered again before its cooldown is over,
  -- whatever the rows hold.
  pub list_for_booking-mark_error :
      (cs : List VenueCredential) (cred_id failed_at now cooldown : ℕ)
      → now < failed_at + cooldown
      → LacksId cred_id (list_for_booking decrypt now cooldown (mark_error failed_at cred_id cs))
  unfolding mark_error
  list_for_booking-mark_error [] cred_id failed_at now cooldown h = unfold list_for_booking in tt
  list_for_booking-mark_error (c ∷ cs) cred_id failed_at now cooldown h =
      list-cons-LacksId now cooldown cred_id
        (if c.id == cred_id then record c { last_error_at = some failed_at } else c)
        (mark_error failed_at cred_id cs)
        (λ d e. marked_unusable now cooldown failed_at cred_id c d h e)
        (list_for_booking-mark_error cs cred_id failed_at now cooldown h)
