-- ===== src/Booking/Credentials/Service/Removed.antt =====
-- Remove of cmd/management/service/venue_credential_service.go.
use squash_bot.Prelude.{
  ℕ, ◌≡◌, ◌≢◌, inl, inr, refl, ◌∙◌, Bool, true, false, not, List, [], ◌∷◌, map, ℤ, arith,
  Bool-cases, All,
}
use squash_bot.Prelude.Text.{Text}
use squash_bot.Store.{World, pure}
use squash_bot.Store.Hoare.{Settled, stmt-Settled_from, bind-Settled}
use squash_bot.Store.Checks.{require-Settled}
use squash_bot.Venues.Tables.{BookingRow, Tables as VenueTables}
use squash_bot.Booking.Credentials.{VenueCredential}
use squash_bot.Booking.Credentials.Service.{
  Tables, CredentialError, is_owned, get_with_password_by_id, is_id, is_live, uses_credential,
  any_uses, has_active_by_credential_id, has_key, without_key, detach, delete, remove,
  active_bookings,
}
use squash_bot.Booking.Credentials.Service.Roundtrip.{own_venue-Settled}

module _ (today : Text → ℕ) (wired : Bool) (id venue : ℕ) (group : ℤ) where
  -- What a removal did: the venue is the group's, the credential was the venue's and is gone, the
  -- others are as before, and no booking that is still to be played lost its credential.
  pub record HasRemoved (old new : Tables) : Type 0 where
    pub owned : is_owned venue group old.venue_tables ≡ true
    pub there : has_key id venue old.credentials ≡ true
    pub gone : has_key id venue new.credentials ≡ false
    pub others :
        (key : ℕ)
        → key ≢ id
        → get_with_password_by_id key new.credentials ≡ get_with_password_by_id key old.credentials
    pub bookings : new.venue_tables.bookings ≡ map (detach id) old.venue_tables.bookings
    pub live :
        wired ≡ true
        → All
            (λ b. is_live today old.venue_tables b ≡ true → detach id b ≡ b)
            old.venue_tables.bookings

  has_key-without_key :
      (cs : List VenueCredential) → has_key id venue (without_key id venue cs) ≡ false
  has_key-without_key [] = refl
  has_key-without_key (c ∷ cs) = ground (arith, has_key-without_key cs)

  get_with_password_by_id-without_key :
      (key : ℕ) (cs : List VenueCredential)
      → key ≢ id
      → get_with_password_by_id key (without_key id venue cs) ≡ get_with_password_by_id key cs
  get_with_password_by_id-without_key key [] h = refl
  get_with_password_by_id-without_key key (c ∷ cs) h =
      ground (arith, get_with_password_by_id-without_key key cs h)

  detach-not_live :
      (t : VenueTables) (b : BookingRow)
      → uses_credential today id t b ≡ false
      → is_live today t b ≡ true
      → detach id b ≡ b
  detach-not_live t b u l = elim (Bool-cases (is_id id b.credential_id)) [
    | inl e ↦ ground arith
    | inr e ↦ rw e refl
  ]

  any_uses-All :
      (t : VenueTables) (bs : List BookingRow)
      → any_uses today id t bs ≡ false
      → All (λ b. is_live today t b ≡ true → detach id b ≡ b) bs
  any_uses-All t [] h = tt
  any_uses-All t (b ∷ bs) h =
      (λ l. detach-not_live t b (ground arith) l, any_uses-All t bs (ground arith))

  active_bookings-Settled :
      (b : Bool) (old : Tables) (w : World Tables (Unit {0}))
      → w.db ≡ old
      → Settled old
          (λ active t.
            (t ≡ old) × (b ≡ true → has_active_by_credential_id today id old.venue_tables ≡ active))
          (active_bookings today b id w)
  unfolding active_bookings pure
  active_bookings-Settled true old w same =
      stmt-Settled_from old _ CredentialError.database _ w same (refl, λ _. refl)
  active_bookings-Settled false old w same = (same, λ e. cc)

  delete-HasRemoved :
      (t : Tables)
      → is_owned venue group t.venue_tables ≡ true
      → (wired ≡ true → has_active_by_credential_id today id t.venue_tables ≡ false)
      → ((delete id venue t).0 ≡ true → HasRemoved t (delete id venue t).1)
        × ((delete id venue t).0 ≡ false → (delete id venue t).1 ≡ t)
  unfolding delete has_active_by_credential_id
  delete-HasRemoved t owned idle = elim (Bool-cases (has_key id venue t.credentials)) [
    | inl e ↦
        rw (e, delete)
          (
            λ _. record {
              owned = owned;
              there = e;
              gone = has_key-without_key t.credentials;
              others = λ key h. get_with_password_by_id-without_key key t.credentials h;
              bookings = refl;
              live = λ u. any_uses-All t.venue_tables t.venue_tables.bookings (idle u);
            },
            λ f. cc,
          )
    | inr e ↦ rw (e, delete) (λ f. cc, λ _. refl)
  ]

  -- Removing a credential either fails and leaves the tables as they were, or the venue is the
  -- group's, its credential is gone and every other one is as before; and no booking that is neither
  -- canceled nor past has lost its credential, when the service has the repository of the bookings.
  pub remove-HasRemoved :
      (w : World Tables (Unit {0}))
      → Settled w.db (λ _ t. HasRemoved w.db t) (remove today wired id venue group w)
  unfolding remove
  remove-HasRemoved w =
      bind-Settled w.db
        (λ (_ : Unit {0}) t. (t ≡ w.db) × (is_owned venue group w.db.venue_tables ≡ true)) _ _ _ w
        (own_venue-Settled CredentialError.not_found CredentialError.not_found venue group w)
        λ _ v1 h1.
          bind-Settled w.db
            (λ active t.
              (t ≡ w.db)
              × (wired ≡ true → has_active_by_credential_id today id w.db.venue_tables ≡ active))
            _ _ _ v1 (active_bookings-Settled wired w.db v1 h1.0)
            λ active v2 h2.
              bind-Settled w.db (λ (_ : Unit {0}) t. (t ≡ w.db) × (active ≡ false)) _ _ _ v2
                (require-Settled w.db _ (not active) CredentialError.in_use v2
                  (λ e. (h2.0, ground arith)) (λ _. h2.0))
                λ _ v3 h3.
                  bind-Settled w.db
                    (λ ok t. (ok ≡ true → HasRemoved w.db t) × (ok ≡ false → t ≡ w.db)) _ _ _ v3
                    (stmt-Settled_from w.db _ CredentialError.not_found _ v3 h3.0
                      (delete-HasRemoved w.db h1.1 (λ e. h2.1 e ∙ h3.1)))
                    λ ok v4 h4. require-Settled w.db _ ok CredentialError.not_found v4 h4.0 h4.1
