-- ===== src/Games/Courts.antt =====
-- The courts of a game in cmd/management/service/game_service.go: the lookup of their bookings,
-- RemoveCourtsAndCancelBookings, and what BookGameCourts does with newly booked courts. What the
-- repositories, the credentials and the booking service answer are arguments. Log lines, audit rows
-- and the edit of the chat message are left out.
use squash_bot.Prelude.{
  ℕ, zero, suc, ◌+◌, ◌-◌, ◌*◌, ◌/◌, ◌%◌, ◌^◌, ◌≤◌, ◌<◌, min, ◌≡◌, ◌≢◌, ◌⊎◌, ◌↔◌, inl, inr, refl,
  sym, ap, ◌∙◌, Option, none, some, Bool, true, false, ◌&&◌, ◌||◌, not, List, [], ◌∷◌, ◌++◌, map,
  append_assoc, append-nil, length, length-append, take, ltb, leb, is_nil, ◌==◌, if◌then◌else◌, ℤ,
  pos, negsuc, arith, Bool-cases, Option-cases, All, All-append, All-map, ==_iff, ltb→lt, lt→ltb,
  leb→le, String,
}
pub mod Answers
pub mod Entries
pub mod Removed
use squash_bot.Prelude.Text.{Text, text_eq, join}
use squash_bot.Prelude.Text.Sets.{member}
use squash_bot.Prelude.Text.Bags.{take_out, minus}
use squash_bot.Courts.Labels.{split_courts}
use squash_bot.Cancellation.{CourtBooking}
use squash_bot.Cancellation.Cancel.{CredReply, next_ok, rest_ok}

-- The bookings whose label is in the set.
with_label : List Text → List CourtBooking → List CourtBooking
with_label labels [] = []
with_label labels (b ∷ bs) =
    let rest = with_label labels bs in if member b.court_label labels then b ∷ rest else rest

-- activeBookingsByLabels. `game_time` is the slot of the automatic booking that the game is linked
-- to, empty if there is none or it cannot be read; the reads answer `none` for an error.
pub active_bookings_by_labels :
    Text
    → (Text → Option (List CourtBooking))
    → (List Text → Option (List CourtBooking))
    → List Text
    → Option (List CourtBooking)
unfolding with_label
active_bookings_by_labels game_time by_time by_labels labels =
    if is_nil game_time
    then by_labels labels
    else elim (by_time game_time) [ none ↦ none | some all ↦ some (with_label labels all) ]

-- Why a court was not cancelled; CourtCancelError has the label too.
pub data Reason : Type 0 where
  credential_lookup no_credentials cancel_match : Reason

-- A call of CancelMatch: the booking, the login, and whether it was answered without an error.
pub record Call : Type 0 where
  pub entry : CourtBooking
  pub login : Text
  pub ok : Bool

-- The variables of the loop over the entries. `marked` lists the calls of MarkCanceled, whose
-- errors are only logged.
pub record Removal : Type 0 where
  pub quota : List Text
  pub canceled : List Text
  pub errors : List (Text × Reason)
  pub calls : List Call
  pub marked : List Text
  pub replies : List Bool

-- The login for an entry.
pub login_of : Option (ℕ → CredReply) → CourtBooking → Reason ⊎ Text
login_of creds entry =
    let or_missing : Text → Reason ⊎ Text =
      λ login. if is_nil login then inl no_credentials else inr login in
    elim entry.credential_id [
      | none ↦ inl no_credentials
      | some id ↦ elim creds [
        | none ↦ inl no_credentials
        | some lookup ↦ elim (lookup id) [
          | CredReply.lookup_failed ↦ inl credential_lookup
          | CredReply.missing ↦ inl no_credentials
          | CredReply.found login password ↦ or_missing login
        ]
      ]
    ]

-- What the answer of CancelMatch leads to.
pub answered : CourtBooking → Text → Bool → Removal → Removal
answered entry login true p = record p {
  calls = p.calls ++ record { entry = entry; login = login; ok = true } ∷ [];
  canceled = p.canceled ++ entry.court_label ∷ [];
  marked = p.marked ++ entry.match_id ∷ [];
}
answered entry login false p = record p {
  calls = p.calls ++ record { entry = entry; login = login; ok = false } ∷ [];
  errors = p.errors ++ (entry.court_label, cancel_match) ∷ [];
}

-- The lookup of the credential failed, or CancelMatch is called.
pub attempt : CourtBooking → Reason ⊎ Text → Removal → Removal
unfolding answered
attempt entry (inl reason) p = record p { errors = p.errors ++ (entry.court_label, reason) ∷ [] }
attempt entry (inr login) p =
    answered entry login (next_ok p.replies) (record p { replies = rest_ok p.replies })

-- An entry within the quota of its label.
abbrev pub cancel_entry : Option (ℕ → CredReply) → CourtBooking → Removal → Removal
cancel_entry creds entry p = attempt entry (login_of creds entry) p

-- The loop over the entries.
pub cancel_entries : Option (ℕ → CredReply) → List CourtBooking → Removal → Removal
cancel_entries creds [] p = p
cancel_entries creds (e ∷ es) p = elim (take_out e.court_label p.quota) [
  | none ↦ cancel_entries creds es p
  | some left ↦ cancel_entries creds es (cancel_entry creds e (record p { quota = left }))
]

-- uniqueLabels: each label at its first place.
pub unique_labels : List Text → List Text → List Text
unique_labels seen [] = []
unique_labels seen (l ∷ ls) =
    let rest = unique_labels (l ∷ seen) ls in if member l seen then rest else l ∷ rest

-- The fields of the game that are read; `cancelable` is false without a venue or without the
-- booking infrastructure.
pub record RemoveGame : Type 0 where
  pub courts : Text
  pub cancelable : Bool

pub data RemoveError : Type 0 where
  get_game get_bookings update_courts : RemoveError

-- What the caller gets, and what was written: the courts and their number, if UpdateCourts was
-- called.
pub record RemoveOutcome : Type 0 where
  pub error : Option RemoveError
  pub removal : Removal
  pub updated : Option (Text × ℕ)

abbrev pub begin : List Text → List Bool → Removal
begin quota replies = record {
  quota = quota;
  canceled = [];
  errors = [];
  calls = [];
  marked = [];
  replies = replies;
}

-- UpdateCourts at the end.
pub persist : Text → Bool → Removal → RemoveOutcome
persist new_courts update_ok p = record {
  error = if update_ok then none else some update_courts;
  removal = p;
  updated = some (new_courts, length (split_courts new_courts));
}

-- Labels in the current list but not in the new one.
abbrev pub removed_labels : Text → Text → List Text
removed_labels courts new_courts = minus (split_courts courts) (split_courts new_courts)

pub remove_from :
    RemoveGame
    → Text
    → (List Text → Option (List CourtBooking))
    → Option (ℕ → CredReply)
    → List Bool
    → Bool
    → RemoveOutcome
remove_from game new_courts bookings creds replies update_ok =
    let removed = removed_labels game.courts new_courts in
    if is_nil removed || not game.cancelable
    then persist new_courts update_ok (begin [] replies)
    else elim (bookings (unique_labels [] removed)) [
      | none ↦ record { error = some get_bookings; removal = begin [] replies; updated = none }
      | some entries ↦
          persist new_courts update_ok (cancel_entries creds entries (begin removed replies))
    ]

-- RemoveCourtsAndCancelBookings
pub remove_courts_and_cancel_bookings :
    Option RemoveGame
    → Text
    → (List Text → Option (List CourtBooking))
    → Option (ℕ → CredReply)
    → List Bool
    → Bool
    → RemoveOutcome
unfolding remove_from
remove_courts_and_cancel_bookings none new_courts bookings creds replies update_ok = record {
  error = some get_game;
  removal = begin [] replies;
  updated = none;
}
remove_courts_and_cancel_bookings (some game) new_courts bookings creds replies update_ok =
    remove_from game new_courts bookings creds replies update_ok

-- allCourts of BookGameCourts: the booked labels that the list does not have yet are appended.
abbrev pub all_courts : Text → List Text → List Text
all_courts courts booked = split_courts courts ++ minus booked (split_courts courts)

-- The courts and the count that BookGameCourts writes; nothing without a booked court.
pub booked_courts : Text → List Text → Option (Text × ℕ)
booked_courts courts booked =
    let all = all_courts courts booked in
    if is_nil booked then none else some (join all b',', length all)
