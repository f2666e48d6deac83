-- ===== src/Booking/Rotation/Limits.antt =====
-- bookFreeCourts of cmd/management/service/booking_core.go: how often each credential is used.
use squash_bot.Prelude.{
  ℕ, zero, suc, ◌+◌, ◌≤◌, min, ◌≡◌, inl, inr, refl, Option, none, some, ◌||◌, List, [], ◌∷◌, is_nil,
  ◌==◌, if◌then◌else◌, arith, Bool-cases,
}
use squash_bot.Prelude.Text.{Text}
use squash_bot.Booking.Credentials.{DecryptedCredential}
use squash_bot.Booking.Rotation.{
  BookResult, Reply, Run, next_reply, failed, booked, attempts, rotate, conclude, start,
  book_candidates,
}
use squash_bot.Booking.Rotation.Steps.{
  call, successes, errors, successes-append, errors-append, attempts_empty, attempts-failed,
  attempts-booked, rotate_stop, rotate_next,
}

-- The courts that the credentials of an id may book together, and how many of them there are; an
-- id is a primary key, so this is one credential's `max_courts`, and one.
abbrev pub allowance : ℕ → List DecryptedCredential → ℕ
allowance id [] = 0
allowance id (d ∷ ds) = (if d.id == id then d.max_courts else 0) + allowance id ds

abbrev pub holders : ℕ → List DecryptedCredential → ℕ
holders id [] = 0
holders id (d ∷ ds) = (if d.id == id then 1 else 0) + holders id ds

-- The calls of `run` with a credential are those of `before` and at most so many more.
abbrev Within : ℕ → ℕ → ℕ → Run → Run → Type 0
Within id wins losses before run =
    (successes id run.calls ≤ successes id before.calls + wins)
    × (errors id run.calls ≤ errors id before.calls + losses)

module _ (label : Text → Text) (cred : DecryptedCredential) (id : ℕ) where
  abbrev own : ℕ → ℕ
  own k = if cred.id == id then k else 0

  failed-Within :
      (uuid : Text) (rest : List Text) (r : Reply) (run : Run)
      → r.result ≡ none
      → Within id 0 (own 1) run (failed label cred uuid rest r run)
  unfolding failed
  failed-Within uuid rest r run e = ground (
    arith,
    successes-append id run.calls (call cred uuid r ∷ []),
    errors-append id run.calls (call cred uuid r ∷ []),
  )

  booked-Within :
      (uuid : Text) (rest : List Text) (b : BookResult) (r : Reply) (run : Run)
      → r.result ≡ some b
      → Within id (own 1) 0 run (booked label cred uuid rest b r run)
  unfolding booked
  booked-Within uuid rest b r run e = ground (
    arith,
    successes-append id run.calls (call cred uuid r ∷ []),
    errors-append id run.calls (call cred uuid r ∷ []),
  )

  attempts-Within : (k : ℕ) (run : Run) → Within id (own k) (own 1) run (attempts label cred k run)
  attempts-Within zero run = unfold attempts in omega arith
  attempts-Within (suc k) run =
      go run.available refl (next_reply run.replies).result refl (λ uuid rest b.
        attempts-Within k (booked label cred uuid rest b (next_reply run.replies) run))
    where
      go :
          (av : List Text)
          → run.available ≡ av
          → (o : Option BookResult) → (next_reply run.replies).result ≡ o
          → ((uuid : Text) (rest : List Text) (b : BookResult)
              → Within id
                  (own k)
                  (own 1)
                  (booked label cred uuid rest b (next_reply run.replies) run)
                  (attempts label cred k
                    (booked label cred uuid rest b (next_reply run.replies) run)))
          → Within id (own (suc k)) (own 1) run (attempts label cred (suc k) run)
      go [] a o e ih = rw (attempts_empty label cred (suc k) run a) (omega arith, omega arith)
      go (uuid ∷ rest) a none e ih = rw (attempts-failed label cred k run uuid rest a e) (
          let w = failed-Within uuid rest (next_reply run.replies) run e in
          (omega (arith, w.0), w.1))
      go (uuid ∷ rest) a (some b) e ih = rw (attempts-booked label cred k run uuid rest b a e) (
          let w = booked-Within uuid rest b (next_reply run.replies) run e in
          let v = ih uuid rest b in (ground (arith, v.0, w.0), ground (arith, v.1, w.1)))

rotate-Within :
    (label : Text → Text) (id : ℕ) (creds : List DecryptedCredential) (run : Run)
    → Within id (allowance id creds) (holders id creds) run (rotate label creds run)
rotate-Within label id [] run = unfold rotate in (omega arith, omega arith)
rotate-Within label id (cred ∷ creds) run =
    elim (Bool-cases (run.remaining == 0 || is_nil run.available)) [
      | inl e ↦ rw (rotate_stop label cred creds run e) (omega arith, omega arith)
      | inr e ↦ rw (rotate_next label cred creds run e) (
          let k = min cred.max_courts run.remaining in
          let w = attempts-Within label cred id k run in
          let v = rotate-Within label id creds (attempts label cred k run) in
          (ground (arith, v.0, w.0), ground (arith, v.1, w.1)))
    ]

conclude-Within : (id n : ℕ) (run : Run) → (conclude n run).calls ≡ run.calls
unfolding conclude
conclude-Within id n run = ground arith

-- Whatever the booking service answers, a credential books at most its `max_courts` courts, and at
-- most one call with it fails.
pub book_candidates_limits :
    (label : Text → Text) (creds : List DecryptedCredential) (count : ℕ) (courts : List Text)
    (replies : List Reply) (id : ℕ)
    → (successes id (book_candidates label creds count courts replies).calls ≤ allowance id creds)
      × (errors id (book_candidates label creds count courts replies).calls ≤ holders id creds)
unfolding book_candidates start
book_candidates_limits label creds count [] replies id = (omega arith, omega arith)
book_candidates_limits label creds count (u ∷ us) replies id =
    let run = start count (u ∷ us) replies in
    let w = rotate-Within label id creds run in
    rw (conclude-Within id count (rotate label creds run)) (omega (arith, w.0), omega (arith, w.1))
