-- ===== src/Cancellation/Cancel/Answers.antt =====
-- What the calls of the loop in cmd/management/service/court_cancellation.go have to do with the
-- credentials and with the answers of the booking service.
use squash_bot.Prelude.{
  ℕ, ◌≡◌, inl, inr, refl, ap, Option, none, some, Bool, true, false, List, [], ◌∷◌, ◌++◌, is_nil,
  if◌then◌else◌, ℤ, Bool-cases, Option-cases,
}
use squash_bot.Prelude.Text.{Text}
use squash_bot.Cancellation.{CourtBooking}
use squash_bot.Cancellation.Cancel.{
  CredReply, lookup_failed, missing, found, no_credentials, credential_lookup, login_for, next_ok,
  rest_ok,
}

-- The booking names a credential, this is found, and it has the login, which is not empty.
abbrev pub OwnLogin : Option (ℕ → CredReply) → CourtBooking → Text → Type 0
OwnLogin creds entry login =
    (id : ℕ) × (lookup : ℕ → CredReply) × (password : Text) × (entry.credential_id ≡ some id)
    × (creds ≡ some lookup)
    × (lookup id ≡ found login password)
    × (is_nil login ≡ false)

login_for-OwnLogin_found :
    (lookup : ℕ → CredReply) (label : ℤ) (entry : CourtBooking) (login : Text) (id : ℕ)
    (r : CredReply)
    → entry.credential_id ≡ some id
    → lookup id ≡ r
    → login_for (some lookup) label entry ≡ inr login
    → OwnLogin (some lookup) entry login
unfolding login_for
login_for-OwnLogin_found lookup label entry login id lookup_failed i r h =
    let bad : inl (credential_lookup label) ≡ inr login = rw (login_for, i, r) at h in cc
login_for-OwnLogin_found lookup label entry login id missing i r h =
    let bad : inl (no_credentials label) ≡ inr login = rw (login_for, i, r) at h in cc
login_for-OwnLogin_found lookup label entry login id (found l password) i r h =
    elim (Bool-cases (is_nil l)) [
      | inl e ↦
          let bad : inl (no_credentials label) ≡ inr login = rw (login_for, i, r, e) at h in cc
      | inr e ↦
          let known : inr l ≡ inr login = rw (login_for, i, r, e) at h in
          let same : l ≡ login = cc in (id, lookup, password, i, refl, rw (← same) r, rw (← same) e)
    ]

pub login_for-OwnLogin :
    (creds : Option (ℕ → CredReply)) (label : ℤ) (entry : CourtBooking) (login : Text)
    → login_for creds label entry ≡ inr login
    → OwnLogin creds entry login
unfolding login_for
login_for-OwnLogin none label entry login h = elim (Option-cases entry.credential_id) [
  | inl e ↦ let bad : inl (no_credentials label) ≡ inr login = rw (login_for, e) at h in cc
  | inr (id, e) ↦ let bad : inl (no_credentials label) ≡ inr login = rw (login_for, e) at h in cc
]
login_for-OwnLogin (some lookup) label entry login h = elim (Option-cases entry.credential_id) [
  | inl e ↦ let bad : inl (no_credentials label) ≡ inr login = rw (login_for, e) at h in cc
  | inr (id, e) ↦ login_for-OwnLogin_found lookup label entry login id (lookup id) e refl h
]

-- The matches of the calls that the service confirmed: each call has the next answer, and one
-- without an answer was not confirmed.
abbrev pub confirmed : List (Text × Text) → List Bool → List Text
confirmed [] replies = []
confirmed (c ∷ cs) [] = []
confirmed (c ∷ cs) (true ∷ replies) = c.0 ∷ confirmed cs replies
confirmed (c ∷ cs) (false ∷ replies) = confirmed cs replies

-- The answers that are left after the calls.
abbrev pub left_after : List (Text × Text) → List Bool → List Bool
left_after [] replies = replies
left_after (c ∷ cs) [] = []
left_after (c ∷ cs) (r ∷ replies) = left_after cs replies

pub confirmed-append :
    (cs : List (Text × Text)) (match_id login : Text) (replies : List Bool)
    → confirmed (cs ++ (match_id, login) ∷ []) replies
      ≡ confirmed cs replies ++ (if next_ok (left_after cs replies) then match_id ∷ [] else [])
unfolding next_ok
confirmed-append [] m l [] = refl
confirmed-append [] m l (true ∷ replies) = refl
confirmed-append [] m l (false ∷ replies) = refl
confirmed-append (c ∷ cs) m l [] = refl
confirmed-append (c ∷ cs) m l (true ∷ replies) =
    ap {A = List Text} {B = List Text} (λ ms. c.0 ∷ ms) (confirmed-append cs m l replies)
confirmed-append (c ∷ cs) m l (false ∷ replies) = confirmed-append cs m l replies

pub left_after-append :
    (cs : List (Text × Text)) (c : Text × Text) (replies : List Bool)
    → left_after (cs ++ c ∷ []) replies ≡ rest_ok (left_after cs replies)
unfolding rest_ok
left_after-append [] c [] = refl
left_after-append [] c (r ∷ replies) = refl
left_after-append (d ∷ cs) c [] = refl
left_after-append (d ∷ cs) c (r ∷ replies) = left_after-append cs c replies
