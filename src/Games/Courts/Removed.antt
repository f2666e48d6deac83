-- ===== src/Games/Courts/Removed.antt =====
-- RemoveCourtsAndCancelBookings and BookGameCourts of cmd/management/service/game_service.go: how many
-- courts of each label are cancelled or added.
use squash_bot.Prelude.{
  ℕ, ◌+◌, ◌-◌, min, ◌≡◌, refl, ap, ◌∙◌, Option, none, some, Bool, false, List, length, is_nil,
  if◌then◌else◌,
}
use squash_bot.Prelude.Text.{Text, join}
use squash_bot.Prelude.Text.Bags.{count, minus, count-append, count-minus}
use squash_bot.Courts.Labels.{split_courts}
use squash_bot.Cancellation.{CourtBooking}
use squash_bot.Cancellation.Cancel.{CredReply}
use squash_bot.Games.Courts.{RemoveError, RemoveOutcome, all_courts, booked_courts}
use squash_bot.Games.Courts.Entries.{labels, settled_count, IsHonest}

-- The removal behind the bookings that were read.
pub record IsRemoval (courts new_courts : Text) (entries : List CourtBooking)
    (creds : Option (ℕ → CredReply)) (replies : List Bool) (update_ok : Bool) (r : RemoveOutcome)
    : Type 0 where
  pub settled :
      (x : Text)
      → settled_count x r.removal
        ≡ min
            (count x (split_courts courts) - count x (split_courts new_courts))
            (count x (labels entries))
  pub honest : IsHonest creds replies r.removal
  pub written : r.updated ≡ some (new_courts, length (split_courts new_courts))
  pub answer : r.error ≡ (if update_ok then none else some RemoveError.update_courts)

-- The courts that BookGameCourts writes hold each label as often as the old list or the booked
-- labels do, whichever is more; so a booked label that the list has already is not added again.
pub booked_courts_lem :
    (courts : Text) (booked : List Text) (x : Text)
    → (let rest = count x (split_courts courts) in
        count x (all_courts courts booked) ≡ rest + (count x booked - rest))
      × (is_nil booked ≡ false
          → booked_courts courts booked
            ≡ some (join (all_courts courts booked) b',', length (all_courts courts booked)))
unfolding booked_courts
booked_courts_lem courts booked x = (
  count-append x (split_courts courts) (minus booked (split_courts courts))
      ∙ ap (λ n. count x (split_courts courts) + n) (count-minus x booked (split_courts courts)),
  λ h. rw h refl,
)
