-- ===== src/Courts/Free.antt =====
-- filterFreeCourts of cmd/management/service/auto_booking.go, with BookingCourt of
-- cmd/management/service/booking_client.go. A Go map is an association list with one entry for a
-- key; a map to `bool` is a function.
pub mod Rounds
pub mod Sound
use squash_bot.Prelude.{
  ℕ, zero, suc, ◌+◌, ◌-◌, ◌*◌, ◌/◌, ◌%◌, ◌^◌, ◌≤◌, ◌<◌, min, ◌≡◌, ◌≢◌, ◌⊎◌, ◌↔◌, inl, inr, refl,
  sym, ap, ◌∙◌, Option, none, some, Bool, true, false, ◌&&◌, ◌||◌, not, List, [], ◌∷◌, ◌++◌, map,
  append_assoc, append-nil, length, length-append, take, ltb, leb, is_nil, ◌==◌, if◌then◌else◌, ℤ,
  pos, negsuc, arith, Bool-cases, Option-cases, All, All-append, ==_iff, ltb→lt, lt→ltb, leb→le,
  String,
}
use squash_bot.Prelude.Int.{eqb_ℤ, ltb_ℤ}
use squash_bot.Prelude.Text.{Text, atoi}
use squash_bot.Courts.Labels.{extract_court_number}

-- BookingCourt, without the fields that are not read here.
pub record BookingCourt : Type 0 where
  pub id : Text
  pub uuid : Text
  pub name : Text

-- map[int]string
abbrev pub CourtMap : Type 0
CourtMap = List (ℤ × Text)

pub lookup_court : ℤ → CourtMap → Option Text
lookup_court n [] = none
lookup_court n ((k, u) ∷ m) = if eqb_ℤ k n then some u else lookup_court n m

pub set_court : ℤ → Text → CourtMap → CourtMap
set_court n u [] = (n, u) ∷ []
set_court n u ((k, v) ∷ m) = if eqb_ℤ k n then (k, u) ∷ m else (k, v) ∷ set_court n u m

-- seen[n]
has : ℤ → List ℤ → Bool
has n [] = false
has n (k ∷ ks) = eqb_ℤ k n || has n ks

-- The value of `courtID, _ := strconv.Atoi(c.ID)`.
id_or_zero : Option ℤ → ℤ
id_or_zero none = pos 0
id_or_zero (some n) = n

module _ (occupied : ℤ → Bool) where
  -- Whether the first loop enters a court in `allFree`.
  counts_as_free : Option ℤ → BookingCourt → Bool
  counts_as_free none c = false
  counts_as_free (some court_id) c =
      not (is_nil c.uuid) && not (occupied court_id) && ltb_ℤ (pos 0) (extract_court_number c.name)

module _ (occupied venue_courts : ℤ → Bool) where
  -- One round of the first loop, on `allFree` and `venueFree`.
  free_round : BookingCourt → CourtMap × CourtMap → CourtMap × CourtMap
  free_round c (all_free, venue_free) =
      if counts_as_free occupied (atoi c.id) c
      then (
        set_court (extract_court_number c.name) c.uuid all_free,
        (if venue_courts (extract_court_number c.name)
            then set_court (extract_court_number c.name) c.uuid venue_free
            else venue_free),
      )
      else (all_free, venue_free)

  pub free_loop : List BookingCourt → CourtMap × CourtMap → CourtMap × CourtMap
  free_loop [] maps = maps
  free_loop (c ∷ cs) maps = free_loop cs (free_round c maps)

module _ (occupied : ℤ → Bool) where
  -- The last loop: eligible courts in the order of the API's response; `seen` holds court numbers.
  emit_loop : CourtMap → List BookingCourt → List ℤ → List Text
  emit_loop courts [] seen = []
  emit_loop courts (c ∷ cs) seen =
      let skip = emit_loop courts cs seen in
      let take_it = emit_loop courts cs (extract_court_number c.name ∷ seen) in
      if occupied (id_or_zero (atoi c.id))
      then skip
      else elim (lookup_court (extract_court_number c.name) courts) [
        | none ↦ skip
        | some u ↦ if has (extract_court_number c.name) seen then skip else u ∷ take_it
      ]

-- The preferred courts that are eligible, in the order of preference.
preferred_loop : CourtMap → List ℤ → List Text
preferred_loop courts [] = []
preferred_loop courts (n ∷ ns) =
    let rest = preferred_loop courts ns in
    elim (lookup_court n courts) [ none ↦ rest | some u ↦ u ∷ rest ]

-- courtUUIDs
eligible : CourtMap × CourtMap → CourtMap
eligible (all_free, venue_free) = if is_nil venue_free then all_free else venue_free

-- filterFreeCourts
unfoldable pub filter_free_courts : List BookingCourt → (ℤ → Bool) → (ℤ → Bool) → List ℤ → List Text
unfolding counts_as_free free_round free_loop eligible preferred_loop emit_loop id_or_zero has
    lookup_court set_court
filter_free_courts all_courts occupied venue_courts ordered_preferred =
    let courts = eligible (free_loop occupied venue_courts all_courts ([], [])) in
    let preferred = preferred_loop courts ordered_preferred in
    if is_nil preferred then emit_loop occupied courts all_courts [] else preferred
