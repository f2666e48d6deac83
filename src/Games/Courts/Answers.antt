-- ===== src/Games/Courts/Answers.antt =====
-- What the calls of RemoveCourtsAndCancelBookings in cmd/management/service/game_service.go have to do
-- with the credentials and with the answers of the booking service.
use squash_bot.Prelude.{
  ℕ, ◌≡◌, inl, inr, refl, ap, ◌∙◌, Option, none, some, Bool, false, List, [], ◌∷◌, ◌++◌, is_nil,
  Bool-cases, Option-cases,
}
use squash_bot.Prelude.Text.{Text}
use squash_bot.Cancellation.{CourtBooking}
use squash_bot.Cancellation.Cancel.{CredReply, next_ok, rest_ok}
use squash_bot.Cancellation.Cancel.Answers.{OwnLogin}
use squash_bot.Games.Courts.{Reason, Call, login_of}

login_of-OwnLogin_found :
    (lookup : ℕ → CredReply) (entry : CourtBooking) (login : Text) (id : ℕ) (r : CredReply)
    → entry.credential_id ≡ some id
    → lookup id ≡ r
    → login_of (some lookup) entry ≡ inr login
    → OwnLogin (some lookup) entry login
unfolding login_of
login_of-OwnLogin_found lookup entry login id CredReply.lookup_failed i r h =
    let bad : inl Reason.credential_lookup ≡ inr login = rw (login_of, i, r) at h in cc
login_of-OwnLogin_found lookup entry login id CredReply.missing i r h =
    let bad : inl Reason.no_credentials ≡ inr login = rw (login_of, i, r) at h in cc
login_of-OwnLogin_found lookup entry login id (CredReply.found l password) i r h =
    elim (Bool-cases (is_nil l)) [
      | inl e ↦ let bad : inl Reason.no_credentials ≡ inr login = rw (login_of, i, r, e) at h in cc
      | inr e ↦
          let known : inr l ≡ inr login = rw (login_of, i, r, e) at h in
          let same : l ≡ login = cc in (id, lookup, password, i, refl, rw (← same) r, rw (← same) e)
    ]

pub login_of-OwnLogin :
    (creds : Option (ℕ → CredReply)) (entry : CourtBooking) (login : Text)
    → login_of creds entry ≡ inr login
    → OwnLogin creds entry login
unfolding login_of
login_of-OwnLogin none entry login h = elim (Option-cases entry.credential_id) [
  | inl e ↦ let bad : inl Reason.no_credentials ≡ inr login = rw (login_of, e) at h in cc
  | inr (id, e) ↦ let bad : inl Reason.no_credentials ≡ inr login = rw (login_of, e) at h in cc
]
login_of-OwnLogin (some lookup) entry login h = elim (Option-cases entry.credential_id) [
  | inl e ↦ let bad : inl Reason.no_credentials ≡ inr login = rw (login_of, e) at h in cc
  | inr (id, e) ↦ login_of-OwnLogin_found lookup entry login id (lookup id) e refl h
]

-- The answers of the calls: each call has the next one, and one without an answer failed.
abbrev pub answers_to : List Call → List Bool → List Bool
answers_to [] replies = []
answers_to (c ∷ cs) [] = false ∷ answers_to cs []
answers_to (c ∷ cs) (r ∷ replies) = r ∷ answers_to cs replies

-- The answers that are left after the calls.
abbrev pub left_after : List Call → List Bool → List Bool
left_after [] replies = replies
left_after (c ∷ cs) [] = []
left_after (c ∷ cs) (r ∷ replies) = left_after cs replies

pub answers_to-append :
    (cs : List Call) (c : Call) (replies : List Bool)
    → answers_to (cs ++ c ∷ []) replies
      ≡ answers_to cs replies ++ next_ok (left_after cs replies) ∷ []
unfolding next_ok
answers_to-append [] c [] = refl
answers_to-append [] c (r ∷ replies) = refl
answers_to-append (d ∷ cs) c [] =
    ap {A = List Bool} {B = List Bool} (λ bs. false ∷ bs) (answers_to-append cs c []) ∙ nil_left cs
  where
    nil_left :
        (ds : List Call)
        → false ∷ (answers_to ds [] ++ next_ok (left_after ds []) ∷ [])
          ≡ false ∷ (answers_to ds [] ++ next_ok [] ∷ [])
    nil_left [] = refl
    nil_left (x ∷ ds) = refl
answers_to-append (d ∷ cs) c (r ∷ replies) =
    ap {A = List Bool} {B = List Bool} (λ bs. r ∷ bs) (answers_to-append cs c replies)

pub left_after-append :
    (cs : List Call) (c : Call) (replies : List Bool)
    → left_after (cs ++ c ∷ []) replies ≡ rest_ok (left_after cs replies)
unfolding rest_ok
left_after-append [] c [] = refl
left_after-append [] c (r ∷ replies) = refl
left_after-append (d ∷ cs) c [] = refl
left_after-append (d ∷ cs) c (r ∷ replies) = left_after-append cs c replies
