-- ===== src/Cancellation/Cancel.antt =====
-- cancelUsingBookingEntries, cancelUsingListMatches, loadCourtBookingEntries and
-- cancelUnusedCourtsLogicOnly of cmd/management/service/court_cancellation.go: what happens to the
-- selected courts and to the game's row.
pub mod Answers
pub mod Loop
pub mod Rebuild
pub mod Effect
mod Tests
use squash_bot.Prelude.{
  ℕ, zero, suc, ◌+◌, ◌-◌, ◌*◌, ◌/◌, ◌%◌, ◌^◌, ◌≤◌, ◌<◌, min, ◌≡◌, ◌≢◌, ◌⊎◌, ◌↔◌, inl, inr, refl,
  sym, ap, ◌∙◌, Option, none, some, Bool, true, false, ◌&&◌, ◌||◌, not, List, [], ◌∷◌, ◌++◌, map,
  append_assoc, append-nil, length, length-append, take, ltb, leb, is_nil, ◌==◌, if◌then◌else◌, ℤ,
  pos, negsuc, arith, Bool-cases, Option-cases, All, All-append, All-map, ==_iff, ltb→lt, lt→ltb,
  leb→le, String,
}
use squash_bot.Prelude.Text.{Text, text_eq, trim_space, join, itoa}
use squash_bot.Courts.Labels.{split_courts}
use squash_bot.Cancellation.{CourtBooking, CancelGame, entry_by_label, select_labels}

-- What GetDecryptedByID answers for a credential.
pub data CredReply : Type 0 where
  lookup_failed : CredReply
  missing : CredReply
  found : Text → Text → CredReply

pub data CancelError : Type 0 where
  credential_lookup : ℤ → CancelError
  no_credentials : ℤ → CancelError
  cancel_match : ℤ → CancelError

-- The variables of the loop over the selected courts. `calls` are the matches that CancelMatch was
-- called for, with the login; `marked` those that MarkCanceled was called for; `replies` is what
-- CancelMatch is still going to answer.
pub record Progress : Type 0 where
  pub canceled : List ℤ
  pub errors : List CancelError
  pub calls : List (Text × Text)
  pub marked : List Text
  pub replies : List Bool

-- The credential lookup before a call: an error, or the login to use.
pub login_for : Option (ℕ → CredReply) → ℤ → CourtBooking → CancelError ⊎ Text
login_for creds label entry =
    let or_missing : Text → CancelError ⊎ Text =
      λ login. if is_nil login then inl (no_credentials label) else inr login in
    elim entry.credential_id [
      | none ↦ inl (no_credentials label)
      | some id ↦ elim creds [
        | none ↦ inl (no_credentials label)
        | some lookup ↦ elim (lookup id) [
          | lookup_failed ↦ inl (credential_lookup label)
          | missing ↦ inl (no_credentials label)
          | found login password ↦ or_missing login
        ]
      ]
    ]

unfoldable pub next_ok : List Bool → Bool
next_ok [] = false
next_ok (b ∷ bs) = b

unfoldable pub rest_ok : List Bool → List Bool
rest_ok [] = []
rest_ok (b ∷ bs) = bs

skipped : CancelError → Progress → Progress
skipped e p = record p { errors = p.errors ++ e ∷ [] }

-- The call of CancelMatch and what follows it.
called : ℤ → CourtBooking → Text → Progress → Progress
unfolding next_ok rest_ok
called label entry login p =
    let after = record p {
      calls = p.calls ++ (entry.match_id, login) ∷ [];
      replies = rest_ok p.replies;
    } in
    if next_ok p.replies
    then record after {
      canceled = p.canceled ++ label ∷ [];
      marked = p.marked ++ entry.match_id ∷ [];
    }
    else record after { errors = p.errors ++ cancel_match label ∷ [] }

-- One round of the loop.
cancel_one : Option (ℕ → CredReply) → ℤ → CourtBooking → Progress → Progress
cancel_one creds label entry p = elim (login_for creds label entry) [
  | inl e ↦ skipped e p
  | inr login ↦ called label entry login p
]

-- The loop over `selected`. `entryByLabel[label]` of a label without an entry is nil, and reading
-- a field of it panics: that is `none`.
pub cancel_loop : Option (ℕ → CredReply) → List CourtBooking → List ℤ → Progress → Option Progress
cancel_loop creds entries [] p = some p
cancel_loop creds entries (l ∷ ls) p = elim (entry_by_label entries l) [
  | none ↦ none
  | some entry ↦ cancel_loop creds entries ls (cancel_one creds l entry p)
]

pub begin : List Bool → Progress
begin replies = record { canceled = []; errors = []; calls = []; marked = []; replies = replies }

-- canceledCount
pub canceled_count : List ℤ → Text → ℕ
canceled_count [] c = 0
canceled_count (l ∷ ls) c = (if text_eq (itoa l) c then 1 else 0) + canceled_count ls c

-- canceledCount[c]--
decremented : (Text → ℕ) → Text → Text → ℕ
decremented counts c d = if text_eq c d then counts d - 1 else counts d

-- The loop that collects newCourts.
pub new_courts : (Text → ℕ) → List Text → List Text
unfolding decremented
new_courts counts [] = []
new_courts counts (c ∷ cs) =
    let t = trim_space c in
    let removed = new_courts (decremented counts t) cs in
    let kept = t ∷ new_courts counts cs in if ltb 0 (counts t) then removed else kept

-- courtCancellationResult
pub record CancelResult : Type 0 where
  pub canceled_courts : List ℤ
  pub remaining_courts : Text
  pub remaining_count : ℕ
  pub cancel_errors : List CancelError

pub data Failure : Type 0 where
  persist_failed : Failure
  no_booking_records : Failure

-- What a call leaves behind: the game's row, the calls made, and the answer.
pub record Outcome : Type 0 where
  pub game : CancelGame
  pub progress : Progress
  pub answer : Failure ⊎ CancelResult

-- buildNoOpResult
pub no_op : CancelGame → CancelResult
no_op game = record {
  canceled_courts = [];
  remaining_courts = game.courts;
  remaining_count = game.courts_count;
  cancel_errors = [];
}

-- The end of cancelUsingBookingEntries, after the loop.
pub conclude : CancelGame → Bool → Progress → Outcome
conclude game update_ok p =
    let kept = new_courts (canceled_count p.canceled) (split_courts game.courts) in
    let courts = join kept 44 in
    let count = length kept in
    if is_nil p.canceled
    then record {
      game = game;
      progress = p;
      answer = inr (record (no_op game) { cancel_errors = p.errors });
    }
    else if update_ok
    then record {
      game = record game { courts = courts; courts_count = count };
      progress = p;
      answer = inr (record {
        canceled_courts = p.canceled;
        remaining_courts = courts;
        remaining_count = count;
        cancel_errors = p.errors;
      });
    }
    else record { game = game; progress = p; answer = inl persist_failed }

-- cancelUsingBookingEntries; `none` is a panic.
cancel_using_booking_entries :
    Option (ℕ → CredReply) → CancelGame → List CourtBooking → ℕ → Bool → List Bool → Option Outcome
cancel_using_booking_entries creds game entries n update_ok replies =
    elim (cancel_loop creds entries (select_labels game entries n) (begin replies)) [
      | none ↦ none
      | some p ↦ some (conclude game update_ok p)
    ]

-- What the two repositories answer to loadCourtBookingEntries: the time of the game's
-- auto-booking result, and the bookings of a venue and day, at one time or at any; `none` is an
-- error, and so is a missing result row for the time.
pub record Bookings : Type 0 where
  pub game_time : Option Text
  pub at_time : Text → Option (List CourtBooking)
  pub of_day : Option (List CourtBooking)

-- loadCourtBookingEntries
load_entries : Bookings → Option (List CourtBooking)
load_entries b = elim b.game_time [
  | none ↦ b.of_day
  | some time ↦
      if is_nil time
      then b.of_day
      else elim (b.at_time time) [ none ↦ b.of_day | some entries ↦ some entries ]
]

unchanged : CancelGame → List Bool → Failure ⊎ CancelResult → Option Outcome
unchanged game replies answer =
    some (record { game = game; progress = begin replies; answer = answer })

-- What follows the answer of loadCourtBookingEntries; cancelUsingListMatches is the last line.
with_entries :
    Option (ℕ → CredReply)
    → CancelGame
    → ℕ
    → Bool
    → List Bool
    → Option (List CourtBooking)
    → Option Outcome
with_entries creds game n update_ok replies (some (e ∷ es)) =
    cancel_using_booking_entries creds game (e ∷ es) n update_ok replies
with_entries creds game n update_ok replies entries =
    unchanged game replies (inl Failure.no_booking_records)

-- The bookings that are looked up: none without their repository or without a venue.
pub entries_of : Option Bookings → CancelGame → Option (List CourtBooking)
entries_of none game = none
entries_of (some b) game =
    if game.has_venue && not (game.venue_id == 0) then load_entries b else none

-- cancelUnusedCourtsLogicOnly. `has_client` and `bookings` are whether the job has a booking client
-- and a repository of bookings.
pub cancel_unused_courts :
    Bool
    → Option Bookings
    → Option (ℕ → CredReply)
    → CancelGame
    → ℕ
    → Bool
    → List Bool
    → Option Outcome
cancel_unused_courts has_client bookings creds game n update_ok replies =
    if not has_client || n == 0
    then unchanged game replies (inr (no_op game))
    else with_entries creds game n update_ok replies (entries_of bookings game)
