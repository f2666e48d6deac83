-- ===== src/Booking/Credentials/Service/Roundtrip.antt =====
-- A credential that Add of cmd/management/service/venue_credential_service.go stores is the one that
-- GetDecryptedByID reads.
use squash_bot.Prelude.{
  ℕ, ◌+◌, ◌<◌, ◌≡◌, inl, inr, refl, sym, ap, ◌∙◌, Option, none, some, Bool, true, ◌&&◌, not, List,
  [], ◌∷◌, ◌++◌, ℤ, arith, Bool-cases, All, All-append,
}
use squash_bot.Prelude.Text.{Text}
use squash_bot.Store.{World}
use squash_bot.Store.Hoare.{Settled, stmt-Settled_from, stmt-Settled, bind-Settled}
use squash_bot.Store.Checks.{require-Settled, or_raise-Settled, or_raise-Succeeds}
use squash_bot.Store.Calm.{Succeeds, stmt-Succeeds, bind-Succeeds}
use squash_bot.Booking.Credentials.{VenueCredential, DecryptedCredential}
use squash_bot.Booking.Credentials.Service.{
  Tables, CredentialError, is_owned, own_venue, exists_by_login, new_credential, has_venue, create,
  get_with_password_by_id, add, decrypted, get_decrypted_by_id,
}

-- Ids of credentials are below the next one.
abbrev pub IsFresh : Tables → Type 0
IsFresh t = All (λ c. c.id < t.next_credential) t.credentials

get_with_password_by_id-append :
    (id : ℕ) (cs : List VenueCredential) (c : VenueCredential)
    → All (λ d. d.id < id) cs
    → c.id ≡ id
    → get_with_password_by_id id (cs ++ c ∷ []) ≡ some c
get_with_password_by_id-append id [] c h e = ground arith
get_with_password_by_id-append id (d ∷ cs) c h e =
    let rest = get_with_password_by_id-append id cs c h.1 e in ground (arith, h.0)

All-below :
    (n : ℕ) (cs : List VenueCredential) → All (λ c. c.id < n) cs → All (λ c. c.id < n + 1) cs
All-below n [] h = tt
All-below n (c ∷ cs) h = (let low = h.0 in omega arith, All-below n cs h.1)

pub own_venue-Settled :
    (failed missing : CredentialError) (venue : ℕ) (group : ℤ) (w : World Tables (Unit {0}))
    → Settled w.db
        (λ _ t. (t ≡ w.db) × (is_owned venue group w.db.venue_tables ≡ true))
        (own_venue failed missing venue group w)
unfolding own_venue
own_venue-Settled failed missing venue group w =
    bind-Settled w.db (λ ok t. (t ≡ w.db) × (is_owned venue group w.db.venue_tables ≡ ok)) _ _ _ w
      (stmt-Settled _ failed _ w (refl, refl))
      λ ok v h.
        require-Settled w.db (λ _ t. (t ≡ w.db) × (is_owned venue group w.db.venue_tables ≡ true))
          ok missing v (λ e. (h.0, h.1 ∙ e)) (λ e. h.0)

module _ (venue : ℕ) (login enc_password : Text) (priority max_courts : ℕ) where
  -- What Create leaves.
  abbrev IsCreated : Tables → Option VenueCredential → Tables → Type 0
  IsCreated old none t = t ≡ old
  IsCreated old (some c) t =
      (c ≡ new_credential old.next_credential venue login enc_password priority max_courts)
      × (t ≡ record old {
        credentials = old.credentials ++ c ∷ [];
        next_credential = old.next_credential + 1;
      })

  create-IsCreated :
      (t : Tables)
      → IsCreated t
          (create venue login enc_password priority max_courts t).0
          (create venue login enc_password priority max_courts t).1
  unfolding create
  create-IsCreated t =
      elim (Bool-cases
        (has_venue venue t.venue_tables && not (exists_by_login venue login t.credentials))) [
          | inl e ↦ rw (e, create) (refl, refl)
          | inr e ↦ rw (e, create) refl
        ]

module _ (encrypt decrypt : Text → Option Text)
    (opens : (p c : Text) → encrypt p ≡ some c → decrypt c ≡ some p) (venue : ℕ) (group : ℤ)
    (login password : Text) (priority max_courts : ℕ) where
  -- What the id has to give back.
  abbrev pub expected : ℕ → DecryptedCredential
  expected id = record {
    id = id;
    venue_id = venue;
    login = login;
    password = password;
    priority = priority;
    max_courts = max_courts;
  }

  -- The credential `c` is in the tables, and its password can be read.
  abbrev pub IsReadable : VenueCredential → Tables → Type 0
  IsReadable c t =
      (v : World Tables (Unit {0}))
      → v.db ≡ t
      → v.down ≡ []
      → Succeeds (λ (d : DecryptedCredential) s. (d ≡ expected c.id) × (s ≡ t))
          (get_decrypted_by_id decrypt c.id v)

  decrypted-new_credential :
      (n : ℕ) (enc_password : Text)
      → encrypt password ≡ some enc_password
      → decrypted decrypt (new_credential n venue login enc_password priority max_courts)
        ≡ some (expected n)
  unfolding decrypted
  decrypted-new_credential n enc_password e =
      let opened = opens password enc_password e in rw (decrypted, opened) refl

  decrypted-expected :
      (n : ℕ) (enc_password : Text) (c x : VenueCredential)
      → encrypt password ≡ some enc_password
      → x ≡ c
      → c ≡ new_credential n venue login enc_password priority max_courts
      → decrypted decrypt x ≡ some (expected c.id)
  decrypted-expected n enc_password c x e p q =
      ap (decrypted decrypt) (p ∙ q)
      ∙ decrypted-new_credential n enc_password e
      ∙ ap (λ (y : VenueCredential). some (expected y.id)) (sym q)

  IsCreated-IsReadable :
      (enc_password : Text) (old : Tables) (c : VenueCredential) (t : Tables)
      → encrypt password ≡ some enc_password
      → IsFresh old
      → IsCreated venue login enc_password priority max_courts old (some c) t
      → IsFresh t × IsReadable c t
  unfolding get_decrypted_by_id decrypted
  IsCreated-IsReadable enc_password old c t e fresh (same, new) =
      let own : c.id ≡ old.next_credential = ap (λ x. x.id) same in
      (
        rw new (
            All-append (λ x. x.id < old.next_credential + 1) old.credentials (c ∷ [])
              (All-below old.next_credential old.credentials fresh) (omega arith, tt)),
        λ v at_t calm.
            bind-Succeeds (λ r s. (r ≡ some c) × (s ≡ t)) _ _ _ v
              (stmt-Succeeds _ CredentialError.database _ v calm (
                rw (at_t, new)
                    (get_with_password_by_id-append c.id old.credentials c (rw own fresh) refl),
                at_t,
              ))
              λ r v1 h1 calm1.
                bind-Succeeds (λ x s. (x ≡ c) × (s ≡ t)) _ _ _ v1
                  (or_raise-Succeeds _ r c CredentialError.database v1 calm1 h1.0 (refl, h1.1))
                  λ x v2 h2 calm2.
                    or_raise-Succeeds _ (decrypted decrypt x) (expected c.id) CredentialError.cipher
                      v2 calm2 (decrypted-expected old.next_credential enc_password c x e h2.0 same)
                      (refl, h2.1),
      )

  -- Adding a credential either fails and leaves the tables as they were, or answers a credential
  -- whose id then gives back the login, the password, the priority and the number of courts that
  -- were added, whenever the database answers. What encryption makes of a text, decryption opens,
  -- and the ids in the table lie below the next one, which stays so.
  pub get_decrypted_by_id-add :
      (w : World Tables (Unit {0}))
      → IsFresh w.db
      → Settled w.db
          (λ c t. IsFresh t × IsReadable c t)
          (add encrypt venue group login password priority max_courts w)
  unfolding add
  get_decrypted_by_id-add w fresh =
      bind-Settled w.db
        (λ (_ : Unit {0}) t. (t ≡ w.db) × (is_owned venue group w.db.venue_tables ≡ true)) _ _ _ w
        (own_venue-Settled CredentialError.database CredentialError.not_owned venue group w)
        λ _ v1 h1.
          bind-Settled w.db (λ (_ : Bool) t. t ≡ w.db) _ _ _ v1
            (stmt-Settled_from w.db _ CredentialError.database _ v1 h1.0 refl)
            λ exists v2 h2.
              bind-Settled w.db (λ (_ : Unit {0}) t. t ≡ w.db) _ _ _ v2
                (require-Settled w.db _ (not exists) CredentialError.duplicate_login v2 (λ _. h2)
                  (λ _. h2))
                λ _ v3 h3.
                  bind-Settled w.db (λ x t. (t ≡ w.db) × (encrypt password ≡ some x)) _ _ _ v3
                    (or_raise-Settled w.db _ (encrypt password) CredentialError.cipher v3
                      (λ x e. (h3, e)) (λ _. h3))
                    λ x v4 h4.
                      bind-Settled w.db
                        (λ r t. IsCreated venue login x priority max_courts w.db r t) _ _ _ v4
                        (stmt-Settled_from w.db _ CredentialError.database _ v4 h4.0
                          (create-IsCreated venue login x priority max_courts w.db))
                        λ r v5 h5.
                          or_raise-Settled w.db _ r CredentialError.database v5
                            (λ c e. IsCreated-IsReadable x w.db c v5.db h4.1 fresh (rw e at h5))
                            (λ e. rw e at h5)
