-- ===== src/Booking/Rotation/Steps.antt =====
-- bookFreeCourts of cmd/management/service/booking_core.go: what the calls add up to, and the rounds
-- of its loops as equations.
use squash_bot.Prelude.{
  ℕ, zero, suc, ◌+◌, min, ◌≡◌, refl, Option, none, some, true, false, ◌||◌, List, [], ◌∷◌, ◌++◌,
  append-nil, is_nil, ◌==◌, if◌then◌else◌, arith,
}
use squash_bot.Prelude.Text.{Text}
use squash_bot.Booking.Credentials.{DecryptedCredential}
use squash_bot.Booking.Rotation.{
  BookResult, Reply, Call, Run, next_reply, failed, booked, attempts, rotate,
}

abbrev pub none_or {ℓ} : {A : Type 0} {B : Type ℓ} → Option A → B → (A → B) → B
none_or none d f = d
none_or (some a) d f = f a

-- The courts of the calls that succeeded.
abbrev pub booked_uuids : List Call → List Text
booked_uuids [] = []
booked_uuids (c ∷ cs) =
    none_or c.reply.result (booked_uuids cs) (λ b. c.court_uuid ∷ booked_uuids cs)

-- The credentials of the calls that failed.
abbrev pub failed_ids : List Call → List ℕ
failed_ids [] = []
failed_ids (c ∷ cs) = none_or c.reply.result (c.cred_id ∷ failed_ids cs) (λ b. failed_ids cs)

-- How many calls with a credential succeeded, and how many failed.
abbrev pub successes : ℕ → List Call → ℕ
successes id [] = 0
successes id (c ∷ cs) =
    none_or c.reply.result 0 (λ b. if c.cred_id == id then 1 else 0) + successes id cs

abbrev pub errors : ℕ → List Call → ℕ
errors id [] = 0
errors id (c ∷ cs) =
    none_or c.reply.result (if c.cred_id == id then 1 else 0) (λ b. 0) + errors id cs

pub booked_uuids-append :
    (xs ys : List Call) → booked_uuids (xs ++ ys) ≡ booked_uuids xs ++ booked_uuids ys
booked_uuids-append [] ys = refl
booked_uuids-append (c ∷ xs) ys = ground (arith, booked_uuids-append xs ys)

pub failed_ids-append : (xs ys : List Call) → failed_ids (xs ++ ys) ≡ failed_ids xs ++ failed_ids ys
failed_ids-append [] ys = refl
failed_ids-append (c ∷ xs) ys = ground (arith, failed_ids-append xs ys)

pub successes-append :
    (id : ℕ) (xs ys : List Call) → successes id (xs ++ ys) ≡ successes id xs + successes id ys
successes-append id [] ys = omega arith
successes-append id (c ∷ xs) ys = omega (arith, successes-append id xs ys)

pub errors-append :
    (id : ℕ) (xs ys : List Call) → errors id (xs ++ ys) ≡ errors id xs + errors id ys
errors-append id [] ys = omega arith
errors-append id (c ∷ xs) ys = omega (arith, errors-append id xs ys)

pub booked_uuids-failed :
    (calls : List Call) (c : Call)
    → c.reply.result ≡ none
    → booked_uuids (calls ++ c ∷ []) ≡ booked_uuids calls
booked_uuids-failed calls c e = rw (booked_uuids-append, e, append-nil)

pub booked_uuids-booked :
    (calls : List Call) (c : Call) {b : BookResult}
    → c.reply.result ≡ some b
    → booked_uuids (calls ++ c ∷ []) ≡ booked_uuids calls ++ c.court_uuid ∷ []
booked_uuids-booked calls c e = rw (booked_uuids-append, e)

pub failed_ids-failed :
    (calls : List Call) (c : Call)
    → c.reply.result ≡ none
    → failed_ids (calls ++ c ∷ []) ≡ failed_ids calls ++ c.cred_id ∷ []
failed_ids-failed calls c e = rw (failed_ids-append, e)

pub failed_ids-booked :
    (calls : List Call) (c : Call) {b : BookResult}
    → c.reply.result ≡ some b
    → failed_ids (calls ++ c ∷ []) ≡ failed_ids calls
failed_ids-booked calls c e = rw (failed_ids-append, e, append-nil)

abbrev pub call : DecryptedCredential → Text → Reply → Call
call cred uuid r = record { cred_id = cred.id; court_uuid = uuid; reply = r }

module _ (label : Text → Text) (cred : DecryptedCredential) where
  pub attempts_empty : (k : ℕ) (run : Run) → run.available ≡ [] → attempts label cred k run ≡ run
  unfolding attempts
  attempts_empty zero run a = refl
  attempts_empty (suc k) run a = ground arith

  pub attempts-failed :
      (k : ℕ) (run : Run) (uuid : Text) (rest : List Text)
      → run.available ≡ uuid ∷ rest
      → (next_reply run.replies).result ≡ none
      → attempts label cred (suc k) run ≡ failed label cred uuid rest (next_reply run.replies) run
  unfolding attempts
  attempts-failed k run uuid rest a e = ground arith

  pub attempts-booked :
      (k : ℕ) (run : Run) (uuid : Text) (rest : List Text) (b : BookResult)
      → run.available ≡ uuid ∷ rest
      → (next_reply run.replies).result ≡ some b
      → attempts label cred (suc k) run
        ≡ attempts label cred k (booked label cred uuid rest b (next_reply run.replies) run)
  unfolding attempts
  attempts-booked k run uuid rest b a e = ground arith

pub rotate_stop :
    (label : Text → Text) (cred : DecryptedCredential) (creds : List DecryptedCredential)
    (run : Run)
    → (run.remaining == 0 || is_nil run.available) ≡ true
    → rotate label (cred ∷ creds) run ≡ run
unfolding rotate
rotate_stop label cred creds run e = simp e

pub rotate_next :
    (label : Text → Text) (cred : DecryptedCredential) (creds : List DecryptedCredential)
    (run : Run)
    → (run.remaining == 0 || is_nil run.available) ≡ false
    → rotate label (cred ∷ creds) run
      ≡ rotate label creds (attempts label cred (min cred.max_courts run.remaining) run)
unfolding rotate
rotate_next label cred creds run e = simp e
