-- ===== src/AutoBooking/Notify.antt =====
-- The notify functions of cmd/management/service/auto_booking.go: whom they write to. A text is
-- kept as its message key and arguments; a message that is not delivered is only logged there.
use squash_bot.Prelude.{
  ℕ, ◌+◌, ◌≡◌, inl, inr, refl, sym, ap, ◌∙◌, Option, none, some, Bool, true, false, ◌&&◌, ◌||◌, not,
  List, [], ◌∷◌, ◌==◌, if◌then◌else◌, arith, Bool-cases, ==_iff,
}
use squash_bot.Prelude.Text.{Text}

-- What the loops read of tgbotapi.ChatMember.
pub record Admin : Type 0 where
  pub user_id : ℕ
  pub is_bot : Bool

-- The message keys, with the venue, the date, the time and the numbers of courts.
pub data Notice : Type 0 where
  success : ℕ → Text → Text → Text → Notice
  fail_dm : Text → Text → Text → ℕ → ℕ → Notice
  no_credentials : Text → Notice
  cred_error : Text → Text → ℕ → Notice
  cred_exhausted : Text → ℕ → ℕ → Notice
  game_create_failed : Text → ℕ → Text → Notice

pub record Dm : Type 0 where
  pub user : ℕ
  pub notice : Notice
  pub silent : Bool
  pub markdown : Bool

abbrev pub seen_before : ℕ → List ℕ → Bool
seen_before u [] = false
seen_before u (v ∷ vs) = u == v || seen_before u vs

-- for _, admin := range admins
pub recipients : List ℕ → List Admin → List ℕ
recipients seen [] = []
recipients seen (a ∷ admins) =
    let rest = recipients seen admins in
    let next = recipients (a.user_id ∷ seen) admins in
    if a.is_bot || seen_before a.user_id seen then rest else a.user_id ∷ next

dms : Notice → Bool → Bool → List ℕ → List Dm
dms notice silent markdown [] = []
dms notice silent markdown (u ∷ us) =
    record { user = u; notice = notice; silent = silent; markdown = markdown }
    ∷ dms notice silent markdown us

-- The messages to the administrators, `none` when their list cannot be read.
dms_to : Notice → Bool → Bool → Option (List Admin) → List Dm
unfolding recipients dms
dms_to notice silent markdown none = []
dms_to notice silent markdown (some admins) = dms notice silent markdown (recipients [] admins)

-- notifyAutoBookingSuccess
notify_auto_booking_success : ℕ → Text → Text → Text → Option (List Admin) → List Dm
unfolding dms_to
notify_auto_booking_success booked venue date time admins =
    dms_to (success booked venue date time) true false admins

-- notifyAutoBookingFailure
notify_auto_booking_failure : Text → Text → Text → ℕ → ℕ → Option (List Admin) → List Dm
unfolding dms_to
notify_auto_booking_failure venue date time booked target admins =
    dms_to (fail_dm venue date time booked target) true false admins

-- notifyNoCredentials
notify_no_credentials : Text → Option (List Admin) → List Dm
unfolding dms_to
notify_no_credentials venue admins = dms_to (no_credentials venue) false true admins

-- notifyCredentialError
notify_credential_error : Text → Text → ℕ → Option (List Admin) → List Dm
unfolding dms_to
notify_credential_error venue login cooldown admins =
    dms_to (cred_error venue login cooldown) false true admins

-- notifyCredentialsExhausted
notify_credentials_exhausted : Text → ℕ → ℕ → Option (List Admin) → List Dm
unfolding dms_to
notify_credentials_exhausted venue booked target admins =
    dms_to (cred_exhausted venue booked target) true true admins

-- notifyAutoBookingGameCreateFailed
notify_auto_booking_game_create_failed : Text → ℕ → Text → Option (List Admin) → List Dm
unfolding dms_to
notify_auto_booking_game_create_failed venue day time admins =
    dms_to (game_create_failed venue day time) false true admins

-- The messages that carry a notice.
pub notify : Notice → Option (List Admin) → List Dm
unfolding notify_auto_booking_success notify_auto_booking_failure notify_no_credentials
    notify_credential_error notify_credentials_exhausted notify_auto_booking_game_create_failed
notify (success n venue date time) admins = notify_auto_booking_success n venue date time admins
notify (fail_dm venue date time n target) admins =
    notify_auto_booking_failure venue date time n target admins
notify (no_credentials venue) admins = notify_no_credentials venue admins
notify (cred_error venue login cooldown) admins =
    notify_credential_error venue login cooldown admins
notify (cred_exhausted venue n target) admins = notify_credentials_exhausted venue n target admins
notify (game_create_failed venue day time) admins =
    notify_auto_booking_game_create_failed venue day time admins

-- How many messages go to a user.
abbrev pub received : ℕ → List Dm → ℕ
received u [] = 0
received u (d ∷ ds) = (if d.user == u then 1 else 0) + received u ds

-- The user is among the administrators, and no bot.
abbrev pub is_person : ℕ → List Admin → Bool
is_person u [] = false
is_person u (a ∷ admins) = (a.user_id == u && not a.is_bot) || is_person u admins

-- An administrator who gets no message does not change who is still to get one, …
is_person_skip :
    (u : ℕ) (a : Admin) (admins : List Admin) (seen : List ℕ)
    → (a.is_bot || seen_before a.user_id seen) ≡ true
    → (is_person u admins && not (seen_before u seen))
      ≡ (is_person u (a ∷ admins) && not (seen_before u seen))
is_person_skip u a admins seen h = elim (Bool-cases (a.user_id == u)) [
  | inl e ↦
      let same : a.user_id ≡ u = (==_iff a.user_id u).0 e in
      let known : (a.is_bot || seen_before u seen) ≡ true = rw same at h in
      rw e (ground (arith, known))
  | inr e ↦ rw e refl
]

zero_more : (n : ℕ) → 0 + n ≡ n
zero_more n = omega arith

-- … and one who gets a message is done with.
is_person_send :
    (u : ℕ) (a : Admin) (admins : List Admin) (seen : List ℕ)
    → (a.is_bot || seen_before a.user_id seen) ≡ false
    → (if a.user_id == u then 1 else 0)
        + (if is_person u admins && not (seen_before u (a.user_id ∷ seen)) then 1 else 0)
      ≡ (if is_person u (a ∷ admins) && not (seen_before u seen) then 1 else 0)
is_person_send u a admins seen h = elim (Bool-cases (a.user_id == u)) [
  | inl e ↦
      let same : a.user_id ≡ u = (==_iff a.user_id u).0 e in
      let known : (a.is_bot || seen_before u seen) ≡ false = rw same at h in
      let back : (u == a.user_id) ≡ true = (==_iff u a.user_id).1 (sym same) in
      rw (e, back) (ground (arith, known))
  | inr e ↦ let back : (u == a.user_id) ≡ false = ground (arith, e) in rw (e, back) (zero_more _)
]

received-dms :
    (u : ℕ) (n : Notice) (silent markdown : Bool) (admins : List Admin) (seen : List ℕ)
    → received u (dms n silent markdown (recipients seen admins))
      ≡ (if is_person u admins && not (seen_before u seen) then 1 else 0)
unfolding dms recipients
received-dms u n silent markdown [] seen = refl
received-dms u n silent markdown (a ∷ admins) seen =
    elim (Bool-cases (a.is_bot || seen_before a.user_id seen)) [
      | inl e ↦
          rw (e, recipients, dms)
            (received-dms u n silent markdown admins seen
              ∙ ap (λ b. if b then 1 else 0) (is_person_skip u a admins seen e))
      | inr e ↦
          rw (e, recipients, dms)
            (ap (λ k. (if a.user_id == u then 1 else 0) + k)
                (received-dms u n silent markdown admins (a.user_id ∷ seen))
              ∙ is_person_send u a admins seen e)
    ]

received-dms_to :
    (u : ℕ) (n : Notice) (silent markdown : Bool) (admins : List Admin)
    → received u (dms_to n silent markdown (some admins)) ≡ (if is_person u admins then 1 else 0)
unfolding dms_to
received-dms_to u n silent markdown admins =
    received-dms u n silent markdown admins [] ∙ ap (λ b. if b then 1 else 0) (ground arith)

-- Whatever the notice, once the list of administrators is read, every one of them who is not a bot
-- gets exactly one message, however often the list names them, and nobody else gets any.
pub received-notify :
    (u : ℕ) (n : Notice) (admins : List Admin)
    → received u (notify n (some admins)) ≡ (if is_person u admins then 1 else 0)
unfolding notify notify_auto_booking_success notify_auto_booking_failure notify_no_credentials
    notify_credential_error notify_credentials_exhausted notify_auto_booking_game_create_failed
received-notify u (success k v d t) admins = received-dms_to u (success k v d t) true false admins
received-notify u (fail_dm v d t k m) admins =
    received-dms_to u (fail_dm v d t k m) true false admins
received-notify u (no_credentials v) admins = received-dms_to u (no_credentials v) false true admins
received-notify u (cred_error v l c) admins = received-dms_to u (cred_error v l c) false true admins
received-notify u (cred_exhausted v k m) admins =
    received-dms_to u (cred_exhausted v k m) true true admins
received-notify u (game_create_failed v d t) admins =
    received-dms_to u (game_create_failed v d t) false true admins
