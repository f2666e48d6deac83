-- ===== src/Cancellation/Cancel/Loop.antt =====
-- The loop of cancelUsingBookingEntries in cmd/management/service/court_cancellation.go: what
-- becomes of each selected court.
use squash_bot.Prelude.{
  ℕ, ◌+◌, ◌≡◌, ◌⊎◌, inl, inr, refl, sym, ap, ◌∙◌, Option, none, some, Bool, List, [], ◌∷◌, ◌++◌,
  map, append_assoc, append-nil, length, length-append, ℤ, arith, Bool-cases, Option-cases, All,
  All-append,
}
use squash_bot.Cancellation.Cancel.Answers.{
  OwnLogin, login_for-OwnLogin, confirmed, left_after, confirmed-append, left_after-append,
}
use squash_bot.Prelude.Text.{Text}
use squash_bot.Courts.Groups.Select.{count, count-append}
use mathlib.Core.List.{map-append}
use squash_bot.Cancellation.{CourtBooking, entry_by_label, is_some}
use squash_bot.Cancellation.Selection.{HasEntry}
use squash_bot.Cancellation.Cancel.{
  CredReply, CancelError, credential_lookup, no_credentials, cancel_match, Progress, login_for,
  next_ok, rest_ok, skipped, called, cancel_one, cancel_loop, begin,
}

-- The court that an error is about.
abbrev pub court_of : CancelError → ℤ
court_of (credential_lookup l) = l
court_of (no_credentials l) = l
court_of (cancel_match l) = l

-- The match of a court's booking.
abbrev match_in : Option CourtBooking → Text
match_in none = []
match_in (some entry) = entry.match_id

abbrev pub match_of : List CourtBooking → ℤ → Text
match_of entries label = match_in (entry_by_label entries label)

-- A call with the match of some court's booking and the login of the credential that booked it.
abbrev pub Issued : Option (ℕ → CredReply) → List CourtBooking → Text × Text → Type 0
Issued creds entries (match_id, login) =
    (label : ℤ) × (entry : CourtBooking) × ((entry_by_label entries label ≡ some entry)
      × (entry.match_id ≡ match_id)
      × OwnLogin creds entry login)

-- Each of the courts `selected` was cancelled or is reported by an error, as often as it was
-- selected; exactly the cancelled courts' bookings are marked, and these are the ones that the
-- service confirmed; every call is for a booking, with its own login.
pub record IsSettled (creds : Option (ℕ → CredReply)) (entries : List CourtBooking)
    (replies : List Bool) (selected : List ℤ) (p : Progress) : Type 0 where
  pub settled : (c : ℤ) → count c p.canceled + count c (map court_of p.errors) ≡ count c selected
  pub counted : length p.canceled + length p.errors ≡ length selected
  pub marks : p.marked ≡ map (match_of entries) p.canceled
  pub confirmed_marks : p.marked ≡ confirmed p.calls replies
  pub left : p.replies ≡ left_after p.calls replies
  pub issued : All (Issued creds entries) p.calls

module _ (creds : Option (ℕ → CredReply)) (entries : List CourtBooking) (replies : List Bool) where
  skipped-IsSettled :
      (selected : List ℤ) (e : CancelError) (p : Progress)
      → IsSettled creds entries replies selected p
      → IsSettled creds entries replies (selected ++ court_of e ∷ []) (skipped e p)
  unfolding skipped
  skipped-IsSettled selected e p h = record {
    settled = λ c. rw map-append (
        omega (
          arith,
          count-append c (map court_of p.errors) (court_of e ∷ []),
          count-append c selected (court_of e ∷ []),
          h.settled c,
        ));
    counted = omega (
      arith,
      length-append p.errors (e ∷ []),
      length-append selected (court_of e ∷ []),
      h.counted,
    );
    marks = h.marks;
    confirmed_marks = h.confirmed_marks;
    left = h.left;
    issued = h.issued;
  }

  called-IsSettled :
      (selected : List ℤ) (label : ℤ) (entry : CourtBooking) (login : Text) (p : Progress)
      → entry_by_label entries label ≡ some entry
      → login_for creds label entry ≡ inr login
      → IsSettled creds entries replies selected p
      → IsSettled creds entries replies (selected ++ label ∷ []) (called label entry login p)
  unfolding called
  called-IsSettled selected label entry login p e l h =
      let issued =
        All-append (Issued creds entries) p.calls ((entry.match_id, login) ∷ []) h.issued
          ((label, entry, (e, refl, login_for-OwnLogin creds label entry login l)), tt) in
      let left =
        ap rest_ok h.left ∙ sym (left_after-append p.calls (entry.match_id, login) replies) in
      let now : next_ok (left_after p.calls replies) ≡ next_ok p.replies =
        ap next_ok (sym h.left) in
      let more = confirmed-append p.calls entry.match_id login replies in
      elim (Bool-cases (next_ok p.replies)) [
        | inl ok ↦ simp ok (record {
          settled = λ c. omega (
            arith,
            count-append c p.canceled (label ∷ []),
            count-append c selected (label ∷ []),
            h.settled c,
          );
          counted = omega (
            arith,
            length-append p.canceled (label ∷ []),
            length-append selected (label ∷ []),
            h.counted,
          );
          marks = rw (map-append, h.marks, e) refl;
          confirmed_marks =
              ap (λ ms. ms ++ entry.match_id ∷ []) h.confirmed_marks ∙ sym (rw (now ∙ ok) at more);
          left = left;
          issued = issued;
        })
        | inr bad ↦ simp bad (record {
          settled = λ c. rw map-append (
              omega (
                arith,
                count-append c (map court_of p.errors) (label ∷ []),
                count-append c selected (label ∷ []),
                h.settled c,
              ));
          counted = omega (
            arith,
            length-append p.errors (cancel_match label ∷ []),
            length-append selected (label ∷ []),
            h.counted,
          );
          marks = h.marks;
          confirmed_marks =
              h.confirmed_marks
              ∙ (sym (append-nil (confirmed p.calls replies)) ∙ sym (rw (now ∙ bad) at more));
          left = left;
          issued = issued;
        })
      ]

  login_for-court_of :
      (label : ℤ) (entry : CourtBooking) (e : CancelError)
      → login_for creds label entry ≡ inl e
      → court_of e ≡ label
  unfolding login_for
  login_for-court_of label entry e h = ground arith

  cancel_one-IsSettled :
      (selected : List ℤ) (label : ℤ) (entry : CourtBooking) (p : Progress)
      → entry_by_label entries label ≡ some entry
      → IsSettled creds entries replies selected p
      → IsSettled creds entries replies (selected ++ label ∷ []) (cancel_one creds label entry p)
  unfolding cancel_one
  cancel_one-IsSettled selected label entry p e h = go (login_for creds label entry) refl
    where
      go :
          (o : CancelError ⊎ Text)
          → login_for creds label entry ≡ o
          → IsSettled creds entries replies
              (selected ++ label ∷ [])
              (cancel_one creds label entry p)
      go (inl err) g =
          rw (g, cancel_one, ← login_for-court_of label entry err g)
            (skipped-IsSettled selected err p h)
      go (inr login) g = rw (g, cancel_one) (called-IsSettled selected label entry login p e g h)

  cancel_loop_from :
      (done ls : List ℤ) (p : Progress)
      → All (HasEntry entries) ls
      → IsSettled creds entries replies done p
      → (q : Progress) × ((cancel_loop creds entries ls p ≡ some q)
          × IsSettled creds entries replies (done ++ ls) q)
  unfolding cancel_loop
  cancel_loop_from done [] p a h = (p, (refl, rw append-nil h))
  cancel_loop_from done (l ∷ ls) p (has, a) h = elim (Option-cases (entry_by_label entries l)) [
    | inl e ↦ absurd (unfold is_some in ground arith)
    | inr (entry, e) ↦
        let (q, (r, s)) =
          cancel_loop_from (done ++ l ∷ []) ls (cancel_one creds l entry p) a
            (cancel_one-IsSettled done l entry p e h) in
        (q, (rw (e, cancel_loop) r, rw append_assoc at s))
  ]

  -- If every selected court has a booking, the loop ends without a panic, and each selected court
  -- was cancelled or is reported by an error; exactly the bookings of the cancelled courts are
  -- marked, and these are, in their order, those of the calls that the booking service confirmed;
  -- every call is for the booking of a court, with the login, not empty, that was found for the
  -- booking's own credential.
  pub cancel_loop_lem :
      (selected : List ℤ)
      → All (HasEntry entries) selected
      → (p : Progress) × ((cancel_loop creds entries selected (begin replies) ≡ some p)
          × IsSettled creds entries replies selected p)
  cancel_loop_lem selected a = cancel_loop_from [] selected (begin replies) a (
      unfold begin in
      record {
        settled = λ c. refl;
        counted = refl;
        marks = refl;
        confirmed_marks = refl;
        left = refl;
        issued = tt;
      })
