-- ===== src/Venues/Accepted.antt =====
-- Which venues validateVenue of cmd/management/service/venue_service.go accepts.
use squash_bot.Prelude.{
  ◌≤◌, ◌≡◌, ◌↔◌, refl, Option, none, some, true, false, List, [], ◌∷◌, is_nil, ℤ, arith, All, inr,
  ap, ◌∙◌,
}
use squash_bot.Prelude.Int.{pos_part, neg_part}
use squash_bot.Prelude.Text.{Text, trim_space, split, text_ops}
use squash_bot.Prelude.Text.Sets.{member, Distinct, AllFresh, AllFresh-nil, AllFresh-cons}
use squash_bot.Courts.Labels.{trimmed, split_courts, split_preferred_times}
use squash_bot.Sports
use squash_bot.Sports.{squash}
use squash_bot.Venues.{
  validate_venue, settled, VenueSport, Venue, or_else, check_times, slot_set,
  validate_preferred_game_times, is_integer, check_courts, validate_auto_booking_courts, bad_number,
  check_sports, sport_names, venue_error, fill_sports,
}

-- A number of players that a venue may set for a sport.
abbrev pub IsPlayable : Text → Option ℤ → Type 0
IsPlayable sport none = Unit
IsPlayable sport (some n) =
    (neg_part n ≡ 0) × (1 ≤ pos_part n) × (pos_part n ≤ (Sports.get sport).max_players_per_court)

abbrev pub IsOffered : VenueSport → Type 0
IsOffered v =
    (Sports.valid v.sport ≡ true)
    × (is_nil v.courts ≡ false)
    × IsPlayable v.sport v.players_per_court

abbrev pub AreSports : List VenueSport → Type 0
AreSports vs = All IsOffered vs × Distinct (sport_names vs)

-- Every preferred time is one of the slots.
abbrev pub AllListed : List Text → List Text → Type 0
AllListed slots ts = All (λ t. member t slots ≡ true) ts

-- Integers, each written once.
abbrev pub AreCourts : List Text → Type 0
AreCourts cs = All (λ c. is_integer c ≡ true) cs × Distinct cs

bad_number-false : (sport : Text) (n : Option ℤ) → (bad_number sport n ≡ false) ↔ IsPlayable sport n
unfolding bad_number
bad_number-false sport none = (λ h. tt, λ h. refl)
bad_number-false sport (some n) = ground arith

check_sports-none :
    (seen : List Text) (vs : List VenueSport)
    → (check_sports seen vs ≡ none) ↔ (AreSports vs × AllFresh seen (sport_names vs))
unfolding check_sports
check_sports-none seen [] = (λ h. ((tt, tt), tt), λ h. refl)
check_sports-none seen (v ∷ vs) = ground (
  arith,
  check_sports-none (v.sport ∷ seen) vs,
  bad_number-false v.sport v.players_per_court,
  AllFresh-cons v.sport seen (sport_names vs),
)

check_times-none :
    (slots ts : List Text) → (check_times slots ts ≡ none) ↔ AllListed slots (trimmed ts)
unfolding check_times trimmed
check_times-none slots [] = (λ h. tt, λ h. refl)
check_times-none slots (t ∷ ts) = ground (arith, check_times-none slots ts)

check_courts-none :
    (seen ps : List Text)
    → (check_courts seen ps ≡ none) ↔ (AreCourts (trimmed ps) × AllFresh seen (trimmed ps))
unfolding check_courts trimmed
check_courts-none seen [] = (λ h. ((tt, tt), tt), λ h. refl)
check_courts-none seen (p ∷ ps) = ground (
  arith,
  check_courts-none seen ps,
  check_courts-none (trim_space p ∷ seen) ps,
  AllFresh-cons (trim_space p) seen (trimmed ps),
)

preferred-none :
    (ts slots : Text)
    → (validate_preferred_game_times ts slots ≡ none)
      ↔ AllListed (slot_set slots) (split_preferred_times ts)
unfolding validate_preferred_game_times split_preferred_times
preferred-none ts slots = ground (arith, check_times-none (slot_set slots) (split ts b','))

auto_booking-none :
    (cs : Text) → (validate_auto_booking_courts cs ≡ none) ↔ AreCourts (split_courts cs)
unfolding validate_auto_booking_courts split_courts trimmed text_ops
auto_booking-none [] = (λ h. (tt, tt), λ h. refl)
auto_booking-none (c ∷ cs) = ground (
  arith,
  check_courts-none [] (split (c ∷ cs) b','),
  AllFresh-nil (trimmed (split (c ∷ cs) b',')),
)

-- The rules for a venue whose sports are filled in.
abbrev pub IsAcceptable : Venue → Type 0
IsAcceptable v =
    (is_nil v.sports ≡ false)
    × AreSports v.sports
    × (v.auto_booking_enabled ≡ true → member squash (sport_names v.sports) ≡ true)
    × AllListed (slot_set v.time_slots) (split_preferred_times v.preferred_game_times)
    × AreCourts (split_courts v.auto_booking_courts)

venue_error-none : (v : Venue) → (venue_error v ≡ none) ↔ IsAcceptable v
unfolding venue_error or_else
venue_error-none v = ground (
  arith,
  check_sports-none [] v.sports,
  AllFresh-nil (sport_names v.sports),
  preferred-none v.preferred_game_times v.time_slots,
  auto_booking-none v.auto_booking_courts,
)

-- validateVenue accepts exactly the venues whose sports, with the default sport filled in, are
-- known, distinct, have courts and a possible number of players; that offer squash when they book
-- automatically; whose preferred times are all slots; and whose auto-booking courts are integers,
-- each written once. It then answers the venue with its sports filled in and the squash courts
-- copied to the old field.
pub validate_venue_iff :
    (v : Venue) → (validate_venue v ≡ inr (settled v)) ↔ IsAcceptable (fill_sports v)
unfolding validate_venue
validate_venue_iff v = ground (arith, venue_error-none (fill_sports v))

-- Whatever it answers is that venue.
validate_venue-inr : (v w : Venue) → validate_venue v ≡ inr w → w ≡ settled v
unfolding validate_venue
validate_venue-inr v w h = ground arith

fill_sports-same : (v : Venue) → is_nil v.sports ≡ false → fill_sports v ≡ v
unfolding fill_sports
fill_sports-same v h = rw h refl

pub settled-sports : (v : Venue) → (settled v).sports ≡ (fill_sports v).sports
unfolding settled
settled-sports v = refl

pub settled-IsAcceptable : (v : Venue) → IsAcceptable (fill_sports v) → IsAcceptable (settled v)
unfolding settled
settled-IsAcceptable v h = h

pub validate_venue-filled : (v w : Venue) → validate_venue v ≡ inr w → is_nil w.sports ≡ false
validate_venue-filled v w h =
    let e = validate_venue-inr v w h in
    rw (e, settled-sports v) ((validate_venue_iff v).0 (h ∙ ap inr e)).0
