-- ===== src/Users/Resolved.antt =====
-- ResolveIdentity of cmd/management/storage/user_repo.go: its retries are enough.
use squash_bot.Prelude.{
  ℕ, suc, ◌≡◌, ◌≢◌, ◌⊎◌, inl, inr, refl, Option, none, some, Bool, true, false, List,
}
use squash_bot.Prelude.Text.{Text}
use squash_bot.Store.{pure}
use squash_bot.Store.Ends.{Ends, in_tx-Ends, bind-Ends}
use squash_bot.Users.{
  User, Tables, UserError, UserProg, Profile, identity_race, exhausted_retries, last_server_owner,
  no_rows, database, find_identity, retry_on_race, resolve_identity_once, next_rival, rest_rivals,
  attempts, or_retry, resolve_identity,
}
use squash_bot.Users.Linked.{W, IsResolved, resolve_in_tx-Ends, commit_rival-found}

abbrev pub is_race : UserError → Bool
is_race (identity_race name) = true
is_race exhausted_retries = false
is_race last_server_owner = false
is_race no_rows = false
is_race database = false

abbrev pub is_exhausted : UserError → Bool
is_exhausted (identity_race name) = false
is_exhausted exhausted_retries = true
is_exhausted last_server_owner = false
is_exhausted no_rows = false
is_exhausted database = false

abbrev pub IsNotExhausted : UserError → Type 0
IsNotExhausted e = is_exhausted e ≡ false

module _ (provider external_id : Text) where
  -- A race ends an attempt without an error; then the rival's identity is there.
  retry_on_race-Ends :
      {A : Type 0} (P : UserError → Type 0) (Q : A → Tables → Type 0) (r : UserError ⊎ A) (w : W)
      → Ends (λ e. is_race e ≡ false → P e) Q (r, w)
      → Ends P
          (λ o t.
            ((a : A) → o ≡ some a → Q a t)
            × (o ≡ none → find_identity provider external_id t.identities ≢ none))
          (retry_on_race provider external_id r w)
  unfolding retry_on_race
  retry_on_race-Ends {A} P Q (inr a) w h = (λ b e. let same : a ≡ b = cc in rw same at h, λ e. cc)
  retry_on_race-Ends P Q (inl (identity_race name)) w h =
      (λ b e. cc, λ _. commit_rival-found provider external_id name w.db)
  retry_on_race-Ends P Q (inl exhausted_retries) w h = h refl
  retry_on_race-Ends P Q (inl last_server_owner) w h = h refl
  retry_on_race-Ends P Q (inl no_rows) w h = h refl
  retry_on_race-Ends P Q (inl database) w h = h refl

  -- Without a race, an attempt that ends without an error has a result.
  retry_on_race-settled :
      {A : Type 0} (P : UserError → Type 0) (Q : A → Tables → Type 0) (r : UserError ⊎ A) (w : W)
      → Ends (λ e. (is_race e ≡ false) × P e) Q (r, w)
      → Ends P (λ o t. (a : A) × (o ≡ some a) × Q a t) (retry_on_race provider external_id r w)
  unfolding retry_on_race
  retry_on_race-settled P Q (inr a) w h = (a, refl, h)
  retry_on_race-settled P Q (inl (identity_race name)) w h = absurd (let x = h.0 in cc)
  retry_on_race-settled P Q (inl exhausted_retries) w h = h.1
  retry_on_race-settled P Q (inl last_server_owner) w h = h.1
  retry_on_race-settled P Q (inl no_rows) w h = h.1
  retry_on_race-settled P Q (inl database) w h = h.1

  resolve_identity_once-Ends :
      (rival : Option Text) (p : Profile) (w : W)
      → Ends IsNotExhausted
          (λ o t.
            ((u : User) → o ≡ some u → IsResolved provider external_id p u t)
            × (o ≡ none → find_identity provider external_id t.identities ≢ none))
          (resolve_identity_once rival provider external_id p w)
  unfolding resolve_identity_once
  resolve_identity_once-Ends rival p w =
      let P : UserError → Type 0 = λ e. is_race e ≡ false → IsNotExhausted e in
      retry_on_race-Ends IsNotExhausted (λ u t. IsResolved provider external_id p u t) _ _
        (in_tx-Ends P (λ u t. IsResolved provider external_id p u t) database database _ w
          (λ _. refl) (λ _. refl)
          λ v same.
            resolve_in_tx-Ends provider external_id P (λ _. refl) (λ _. refl) rival p v
              (λ _ name e. cc))

  -- Once the identity is there, no attempt meets a race.
  resolve_identity_once-settled :
      (rival : Option Text) (p : Profile) (w : W)
      → find_identity provider external_id w.db.identities ≢ none
      → Ends IsNotExhausted
          (λ o t. (u : User) × (o ≡ some u) × IsResolved provider external_id p u t)
          (resolve_identity_once rival provider external_id p w)
  unfolding resolve_identity_once
  resolve_identity_once-settled rival p w known =
      let P : UserError → Type 0 = λ e. (is_race e ≡ false) × IsNotExhausted e in
      retry_on_race-settled IsNotExhausted (λ u t. IsResolved provider external_id p u t) _ _
        (in_tx-Ends P (λ u t. IsResolved provider external_id p u t) database database _ w
          (refl, refl) (refl, refl)
          λ v same.
            resolve_in_tx-Ends provider external_id P (refl, refl) (refl, refl) rival p v
              (λ none_there name. absurd (known (rw same at none_there))))

  once : Profile → Option Text → UserProg (Option User)
  once p rival = resolve_identity_once rival provider external_id p

  attempts_settled :
      (p : Profile) (k : ℕ) (rivals : List (Option Text)) (w : W)
      → find_identity provider external_id w.db.identities ≢ none
      → Ends IsNotExhausted
          (λ u t. IsResolved provider external_id p u t)
          (attempts (once p) (suc k) rivals w)
  unfolding attempts or_retry once pure
  attempts_settled p k rivals w known =
      bind-Ends IsNotExhausted
        (λ o t. (u : User) × (o ≡ some u) × IsResolved provider external_id p u t)
        (λ u t. IsResolved provider external_id p u t) _ _ w
        (resolve_identity_once-settled (next_rival rivals) p w known) λ o v (u, e, h). rw e h

  after_once :
      (p : Profile) (k : ℕ) (rivals : List (Option Text)) (o : Option User) (w : W)
      → ((u : User) → o ≡ some u → IsResolved provider external_id p u w.db)
      → (o ≡ none → find_identity provider external_id w.db.identities ≢ none)
      → Ends IsNotExhausted
          (λ u t. IsResolved provider external_id p u t)
          (or_retry (attempts (once p) (suc k) rivals) o w)
  unfolding or_retry pure
  after_once p k rivals none w h known = attempts_settled p k rivals w (known refl)
  after_once p k rivals (some u) w h known = h u refl

  -- ResolveIdentity never runs out of attempts, whichever of them meet a transaction that creates
  -- the same identity and commits first, and whatever else fails: after the first race the identity
  -- is there. When it answers a user, that is the one that the identity is linked to, with the
  -- display name of the profile.
  pub resolve_identity-IsResolved :
      (p : Profile) (rivals : List (Option Text)) (w : W)
      → Ends IsNotExhausted
          (λ u t. IsResolved provider external_id p u t)
          (resolve_identity rivals provider external_id p w)
  unfolding resolve_identity attempts once
  resolve_identity-IsResolved p rivals w =
      bind-Ends IsNotExhausted
        (λ o t.
          ((u : User) → o ≡ some u → IsResolved provider external_id p u t)
          × (o ≡ none → find_identity provider external_id t.identities ≢ none))
        (λ u t. IsResolved provider external_id p u t) _ _ w
        (resolve_identity_once-Ends (next_rival rivals) p w)
        λ o v h. after_once p 1 (rest_rivals rivals) o v h.0 h.1
