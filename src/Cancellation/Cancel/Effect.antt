-- ===== src/Cancellation/Cancel/Effect.antt =====
-- cancelUnusedCourtsLogicOnly of cmd/management/service/court_cancellation.go: the game's row and
-- the answer, on every branch.
use squash_bot.Prelude.{
  ℕ, ◌-◌, ◌≤◌, ◌≡◌, ◌⊎◌, inl, inr, refl, ap, ◌∙◌, Option, none, some, Bool, true, false, ◌||◌, not,
  List, [], ◌∷◌, map, length, ◌==◌, ℤ, arith, Bool-cases,
}
use squash_bot.Cancellation.Cancel.Answers.{confirmed}
use squash_bot.Prelude.Text.{Text, trim_space, join, itoa}
use squash_bot.Courts.Labels.{split_courts}
use squash_bot.Cancellation.{CourtBooking, CancelGame, select_labels}
use squash_bot.Cancellation.Selection.{select_labels_lem}
use squash_bot.Cancellation.Cancel.{
  CredReply, CancelError, Progress, begin, canceled_count, new_courts, CancelResult, Failure,
  Outcome, no_op, conclude, cancel_using_booking_entries, Bookings, unchanged, with_entries,
  entries_of, cancel_unused_courts,
}
use squash_bot.Cancellation.Cancel.Loop.{match_of, cancel_loop_lem}
use squash_bot.Cancellation.Cancel.Rebuild.{
  count_text, count_text-new_courts, canceled_count-count_text,
}

-- The new list of courts has each name as often as the old one, less its cancellations.
abbrev pub Rebuilt : CancelGame → CancelGame → List ℤ → Type 0
Rebuilt old new canceled =
    (kept : List Text) × ((new.courts ≡ join kept 44)
      × (new.courts_count ≡ length kept)
      × ((t : Text)
          → count_text t kept
            ≡ count_text t (map trim_space (split_courts old.courts))
              - count_text t (map itoa canceled)))

-- What the caller is told of the row and the calls: after an error, and if no court was cancelled,
-- the row is the old one; a result has the courts and the count of the row, and the loop's
-- cancellations and errors.
abbrev pub Reported : CancelGame → CancelGame → Progress → Failure ⊎ CancelResult → Type 0
Reported old new p (inl f) = new ≡ old
Reported old new p (inr r) =
    (new.courts ≡ r.remaining_courts)
    × (new.courts_count ≡ r.remaining_count)
    × (p.canceled ≡ r.canceled_courts)
    × (p.errors ≡ r.cancel_errors)
    × (((new ≡ old) × (r.canceled_courts ≡ [])) ⊎ Rebuilt old new r.canceled_courts)

conclude_fields :
    (game : CancelGame) (update_ok : Bool) (canceled : List ℤ) (errors : List CancelError)
    (calls : List (Text × Text)) (marked : List Text) (replies : List Bool)
    → (let p : Progress = record {
      canceled = canceled;
      errors = errors;
      calls = calls;
      marked = marked;
      replies = replies;
    } in
        Reported game
          (conclude game update_ok p).game
          (conclude game update_ok p).progress
          (conclude game update_ok p).answer)
unfolding conclude no_op
conclude_fields game update_ok [] errors calls marked replies =
    (refl, refl, refl, refl, inl (refl, refl))
conclude_fields game false (c ∷ cs) errors calls marked replies = refl
conclude_fields game true (c ∷ cs) errors calls marked replies =
    let counts = canceled_count (c ∷ cs) in
    let old = split_courts game.courts in
    (
      refl,
      refl,
      refl,
      refl,
      inr (
        new_courts counts old,
        (
          refl,
          refl,
          λ t.
              count_text-new_courts counts old t
              ∙ ap (λ n. count_text t (map trim_space old) - n)
                  (canceled_count-count_text (c ∷ cs) t),
        ),
      ),
    )

conclude-Reported :
    (game : CancelGame) (update_ok : Bool) (p : Progress)
    → Reported game
        (conclude game update_ok p).game
        (conclude game update_ok p).progress
        (conclude game update_ok p).answer
unfolding conclude no_op
conclude-Reported game update_ok p =
    conclude_fields game update_ok p.canceled p.errors p.calls p.marked p.replies

progress-conclude :
    (game : CancelGame) (update_ok : Bool) (p : Progress) → (conclude game update_ok p).progress ≡ p
unfolding conclude
progress-conclude game update_ok p = ground arith

-- The bookings that were found.
abbrev pub listed : Option (List CourtBooking) → List CourtBooking
listed none = []
listed (some entries) = entries

-- The cancelled courts are those of the bookings whose cancellation the service confirmed.
abbrev pub Confirmed : List CourtBooking → List Bool → Progress → Type 0
Confirmed entries replies p =
    (p.marked ≡ map (match_of entries) p.canceled) × (p.marked ≡ confirmed p.calls replies)

-- Fewer courts are cancelled than are to be freed, or as many.
abbrev pub IsWithin :
    CancelGame → ℕ → List Bool → Option (List CourtBooking) → Option Outcome → Type 0
IsWithin game n replies entries o =
    (out : Outcome) × ((o ≡ some out)
      × (length out.progress.canceled ≤ n)
      × Confirmed (listed entries) replies out.progress
      × Reported game out.game out.progress out.answer)

module _ (creds : Option (ℕ → CredReply)) (game : CancelGame) (n : ℕ) (update_ok : Bool)
    (replies : List Bool) where
  using_entries-IsWithin :
      (entries : List CourtBooking)
      → IsWithin game n replies
          (some entries)
          (cancel_using_booking_entries creds game entries n update_ok replies)
  unfolding cancel_using_booking_entries
  using_entries-IsWithin entries =
      let (known, few) = select_labels_lem game entries n in
      let (p, (e, s)) =
        cancel_loop_lem creds entries replies (select_labels game entries n) known in
      (
        conclude game update_ok p,
        (
          rw (e, cancel_using_booking_entries) refl,
          rw (progress-conclude game update_ok p) (omega (arith, s.counted, few)),
          rw (progress-conclude game update_ok p) (s.marks, s.confirmed_marks),
          conclude-Reported game update_ok p,
        ),
      )

  unchanged-IsWithin :
      (entries : Option (List CourtBooking)) (answer : Failure ⊎ CancelResult)
      → Reported game game (begin replies) answer
      → IsWithin game n replies entries (unchanged game replies answer)
  unfolding unchanged
  unchanged-IsWithin entries answer h =
      let out : Outcome = record { game = game; progress = begin replies; answer = answer } in
      (out, (refl, unfold begin in omega arith, unfold begin in (refl, refl), h))

  no_op-Reported : Reported game game (begin replies) (inr (no_op game))
  unfolding no_op begin
  no_op-Reported = (refl, refl, refl, refl, inl (refl, refl))

  with_entries-IsWithin :
      (entries : Option (List CourtBooking))
      → IsWithin game n replies entries (with_entries creds game n update_ok replies entries)
  unfolding with_entries
  with_entries-IsWithin none = unchanged-IsWithin none (inl Failure.no_booking_records) refl
  with_entries-IsWithin (some []) =
      unchanged-IsWithin (some []) (inl Failure.no_booking_records) refl
  with_entries-IsWithin (some (e ∷ es)) = using_entries-IsWithin (e ∷ es)

  -- Whatever the booking service, the credentials and the repositories answer, the call does not
  -- panic, cancels at most as many courts as asked, and these are the courts of the bookings whose
  -- cancellation the service confirmed. Its answer agrees with the game's row: an error leaves the
  -- row as it was, and so does a result without cancellations; after a result with cancellations,
  -- each name stands in the list as often as before less the cancelled courts of that name, and the
  -- count is that of the list.
  pub cancel_unused_courts_lem :
      (has_client : Bool) (bookings : Option Bookings)
      → IsWithin game n replies
          (entries_of bookings game)
          (cancel_unused_courts has_client bookings creds game n update_ok replies)
  unfolding cancel_unused_courts
  cancel_unused_courts_lem has_client bookings = elim (Bool-cases (not has_client || n == 0)) [
    | inl e ↦
        rw (e, cancel_unused_courts)
          (unchanged-IsWithin (entries_of bookings game) (inr (no_op game)) no_op-Reported)
    | inr e ↦ rw (e, cancel_unused_courts) (with_entries-IsWithin (entries_of bookings game))
  ]
