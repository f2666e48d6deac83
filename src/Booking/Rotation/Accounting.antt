-- ===== src/Booking/Rotation/Accounting.antt =====
-- bookFreeCourts of cmd/management/service/booking_core.go: how the result follows from the calls
-- that the loop made.
use squash_bot.Prelude.{
  ℕ, zero, suc, ◌+◌, ◌≤◌, ◌<◌, min, ◌≡◌, inl, inr, refl, Option, none, some, ◌&&◌, ◌||◌, not, List,
  [], ◌∷◌, ◌++◌, map, append_assoc, length, length-append, ltb, is_nil, ◌==◌, arith, Bool-cases,
}
use mathlib.Core.List.{map-append}
use squash_bot.Prelude.Text.{Text}
use squash_bot.Booking.Credentials.{DecryptedCredential}
use squash_bot.Booking.Rotation.Steps.{
  booked_uuids, failed_ids, booked_uuids-failed, booked_uuids-booked, failed_ids-failed,
  failed_ids-booked, call, attempts_empty, attempts-failed, attempts-booked, rotate_stop,
  rotate_next,
}
use squash_bot.Booking.Rotation.{
  BookResult, Reply, Run, next_reply, failed, booked, attempts, rotate, conclude, start,
  book_candidates,
}

-- The loop's variables agree with its calls: the candidates are the booked courts, in order, and
-- then those that are left; each booked court has its label in the result; booked and remaining
-- make up the count; and the credentials marked are those of the failed calls.
pub record IsAccounted (label : Text → Text) (count : ℕ) (courts : List Text) (run : Run)
    : Type 0 where
  pub taken : booked_uuids run.calls ++ run.available ≡ courts
  pub labelled : run.booked_labels ≡ map label (booked_uuids run.calls)
  pub counted : length run.booked_labels + run.remaining ≡ count
  pub marks : run.marked ≡ failed_ids run.calls

module _ (label : Text → Text) (cred : DecryptedCredential) (count : ℕ) (courts : List Text) where
  failed-IsAccounted :
      (uuid : Text) (rest : List Text) (r : Reply) (run : Run)
      → run.available ≡ uuid ∷ rest
      → r.result ≡ none
      → IsAccounted label count courts run
      → IsAccounted label count courts (failed label cred uuid rest r run)
  unfolding failed
  failed-IsAccounted uuid rest r run a e h = record {
    taken = rw (booked_uuids-failed run.calls (call cred uuid r) e, ← a) h.taken;
    labelled = rw (booked_uuids-failed run.calls (call cred uuid r) e) h.labelled;
    counted = h.counted;
    marks = rw (failed_ids-failed run.calls (call cred uuid r) e, h.marks);
  }

  booked-IsAccounted :
      (uuid : Text) (rest : List Text) (b : BookResult) (r : Reply) (run : Run)
      → run.available ≡ uuid ∷ rest
      → r.result ≡ some b
      → 0 < run.remaining
      → IsAccounted label count courts run
      → IsAccounted label count courts (booked label cred uuid rest b r run)
  unfolding booked
  booked-IsAccounted uuid rest b r run a e pos_left h = record {
    taken = rw (booked_uuids-booked run.calls (call cred uuid r) e, append_assoc) (rw a at h.taken);
    labelled = rw (booked_uuids-booked run.calls (call cred uuid r) e, map-append, h.labelled);
    counted = omega (arith, length-append run.booked_labels (label uuid ∷ []), h.counted);
    marks = rw (failed_ids-booked run.calls (call cred uuid r) e) h.marks;
  }

  attempts-IsAccounted :
      (k : ℕ) (run : Run)
      → k ≤ run.remaining
      → IsAccounted label count courts run
      → IsAccounted label count courts (attempts label cred k run)
  attempts-IsAccounted zero run le h = unfold attempts in h
  attempts-IsAccounted (suc k) run le h =
      go run.available refl (next_reply run.replies).result refl (λ uuid rest b a e.
        attempts-IsAccounted k (booked label cred uuid rest b (next_reply run.replies) run)
          (unfold booked in omega arith)
          (booked-IsAccounted uuid rest b (next_reply run.replies) run a e (omega arith) h))
    where
      go :
          (av : List Text)
          → run.available ≡ av
          → (o : Option BookResult) → (next_reply run.replies).result ≡ o
          → ((uuid : Text) (rest : List Text) (b : BookResult)
              → run.available ≡ uuid ∷ rest
              → (next_reply run.replies).result ≡ some b
              → IsAccounted label count courts (
                  attempts label cred k
                    (booked label cred uuid rest b (next_reply run.replies) run)))
          → IsAccounted label count courts (attempts label cred (suc k) run)
      go [] a o e ih = rw (attempts_empty label cred (suc k) run a) h
      go (uuid ∷ rest) a none e ih =
          rw (attempts-failed label cred k run uuid rest a e)
            (failed-IsAccounted uuid rest (next_reply run.replies) run a e h)
      go (uuid ∷ rest) a (some b) e ih =
          rw (attempts-booked label cred k run uuid rest b a e) (ih uuid rest b a e)

rotate-IsAccounted :
    (label : Text → Text) (count : ℕ) (courts : List Text) (creds : List DecryptedCredential)
    (run : Run)
    → IsAccounted label count courts run
    → IsAccounted label count courts (rotate label creds run)
rotate-IsAccounted label count courts [] run h = unfold rotate in h
rotate-IsAccounted label count courts (cred ∷ creds) run h =
    elim (Bool-cases (run.remaining == 0 || is_nil run.available)) [
      | inl e ↦ rw (rotate_stop label cred creds run e) h
      | inr e ↦ rw (rotate_next label cred creds run e) (
          rotate-IsAccounted label count courts creds
            (attempts label cred (min cred.max_courts run.remaining) run)
            (attempts-IsAccounted label cred count courts (min cred.max_courts run.remaining) run
              (omega arith) h))
    ]

conclude-IsAccounted :
    (label : Text → Text) (count n : ℕ) (courts : List Text) (run : Run)
    → IsAccounted label count courts run
    → IsAccounted label count courts (conclude n run)
unfolding conclude
conclude-IsAccounted label count n courts run h =
    elim (Bool-cases (ltb 0 run.remaining && not (is_nil run.available))) [
      | inl e ↦
          rw e (record {
            taken = h.taken;
            labelled = h.labelled;
            counted = h.counted;
            marks = h.marks;
          })
      | inr e ↦ rw e h
    ]

-- Whatever the booking service answers, the result agrees with the calls made: the candidates are
-- the booked courts, in their order, and then those that are left over; the result names the label
-- of each booked court; booked and remaining courts make up the count; and MarkError is called for
-- the credential of each failed call, in order.
pub book_candidates-IsAccounted :
    (label : Text → Text) (creds : List DecryptedCredential) (count : ℕ) (courts : List Text)
    (replies : List Reply)
    → IsAccounted label count courts (book_candidates label creds count courts replies)
unfolding book_candidates start
book_candidates-IsAccounted label creds count [] replies = record {
  taken = refl;
  labelled = refl;
  counted = omega arith;
  marks = refl;
}
book_candidates-IsAccounted label creds count (u ∷ us) replies =
    conclude-IsAccounted label count count (u ∷ us) _ (
      rotate-IsAccounted label count (u ∷ us) creds _
        (record { taken = refl; labelled = refl; counted = omega arith; marks = refl }))
