-- ===== src/Games/Players.antt =====
-- The choice of the number of players per court in CreateGame of cmd/management/service/game_service.go.
use squash_bot.Prelude.{
  ℕ, ◌≡◌, ◌⊎◌, inl, inr, refl, sym, ap, ◌∙◌, Option, none, some, true, List, [], ◌∷◌, ◌==◌, ℤ, pos,
  arith, Bool-cases, Option-cases, All,
}
use squash_bot.Prelude.Int.{eqb_ℤ}
use squash_bot.Prelude.Text.{Text, text_eq}
use squash_bot.Prelude.Text.Equality.{text_eq→≡}
use squash_bot.Store.{World, pure}
use squash_bot.Store.Hoare.{After, stmt-After, bind-After}
use squash_bot.Store.Checks.{require-After, or_raise-After}
use squash_bot.Sports
use squash_bot.Sports.{squash, get-default}
use squash_bot.Venues.{VenueSport}
use squash_bot.Venues.Accepted.{IsPlayable, IsOffered}
use squash_bot.Venues.Tables.{VenueRow, SportRow, find_venue, offers}
use squash_bot.Games.{Tables, GameError, players_in, or_default, sports_of_venue, players_per_court}

-- Every sport of a venue is as validateVenue accepts it.
abbrev pub AllOffered : Tables → Type 0
AllOffered t = All (λ (r : SportRow). IsOffered r.offer) t.venue_tables.sports

AllOffered-offers :
    (id : ℕ) (rs : List SportRow) → All (λ r. IsOffered r.offer) rs → All IsOffered (offers id rs)
AllOffered-offers id [] h = tt
AllOffered-offers id (r ∷ rs) h = elim (Bool-cases (r.venue_id == id)) [
  | inl e ↦ rw e (h.0, AllOffered-offers id rs h.1)
  | inr e ↦ rw e (AllOffered-offers id rs h.1)
]

or_default-IsPlayable :
    (name : Text) (n : Option ℤ)
    → Sports.valid name ≡ true
    → IsPlayable name n
    → IsPlayable name (some (or_default (Sports.get name).default_players_per_court n))
unfolding or_default
or_default-IsPlayable name none v h = let d = get-default name v in (refl, d.0, d.1)
or_default-IsPlayable name (some p) v h = h

players_in-IsPlayable :
    (name : Text) (vs : List VenueSport) (n : ℤ)
    → All IsOffered vs
    → Sports.valid name ≡ true
    → players_in name vs ≡ some n
    → IsPlayable name (some n)
unfolding players_in
players_in-IsPlayable name [] n h v e = cc
players_in-IsPlayable name (s ∷ vs) n h v e = elim (Bool-cases (text_eq s.sport name)) [
  | inl q ↦
      let d = (Sports.get name).default_players_per_court in
      let found : some (or_default d s.players_per_court) ≡ some n = rw q at e in
      let same : or_default d s.players_per_court ≡ n = cc in
      let named : IsPlayable name s.players_per_court = rw (text_eq→≡ s.sport name q) at h.0.2 in
      rw (← same) (or_default-IsPlayable name s.players_per_court v named)
  | inr q ↦ players_in-IsPlayable name vs n h.1 v (rw q at e)
]

-- The number of players of an offer: its own, or the default of the sport if it has none.
abbrev pub PlayersOf : Text → VenueSport → ℤ → Type 0
PlayersOf name offer n =
    (offer.players_per_court ≡ some n)
    ⊎ ((offer.players_per_court ≡ none) × (n ≡ pos (Sports.get name).default_players_per_court))

-- One of the offers is for the sport, with the number of players.
abbrev pub IsOffering : Text → ℤ → List VenueSport → Type 0
IsOffering name n [] = ⊥
IsOffering name n (s ∷ ss) = ((s.sport ≡ name) × PlayersOf name s n) ⊎ IsOffering name n ss

players_in-IsOffering :
    (name : Text) (vs : List VenueSport) (n : ℤ)
    → players_in name vs ≡ some n
    → IsOffering name n vs
unfolding players_in or_default
players_in-IsOffering name [] n e = cc
players_in-IsOffering name (s ∷ vs) n e = elim (Bool-cases (text_eq s.sport name)) [
  | inl q ↦
      let d = (Sports.get name).default_players_per_court in
      let found : some (or_default d s.players_per_court) ≡ some n = rw q at e in
      let same : or_default d s.players_per_court ≡ n = cc in
      inl (text_eq→≡ s.sport name q, or_default-PlayersOf s.players_per_court same)
  | inr q ↦ inr (players_in-IsOffering name vs n (rw q at e))
]
  where
    or_default-PlayersOf :
        (o : Option ℤ)
        → or_default (Sports.get name).default_players_per_court o ≡ n
        → (o ≡ some n) ⊎ ((o ≡ none) × (n ≡ pos (Sports.get name).default_players_per_court))
    or_default-PlayersOf none h = inr (refl, sym h)
    or_default-PlayersOf (some p) h = inl (ap (λ x. some x) h)

-- What the choice of the number of players says: the venue is of the group and has an offer of the
-- sport with this number, or the game is of squash with its default.
abbrev pub IsChosen : Text → ℤ → Option ℕ → Tables → ℤ → Type 0
IsChosen name chat none t n =
    (name ≡ squash) × (n ≡ pos (Sports.get squash).default_players_per_court)
IsChosen name chat (some id) t n =
    (row : VenueRow) × (find_venue id t.venue_tables.venues ≡ some row)
    × (eqb_ℤ row.group_id chat ≡ true)
    × IsOffering name n (offers id t.venue_tables.sports)

sports_of_venue-row :
    (id : ℕ) (chat : ℤ) (t : Tables) (sports : List VenueSport) (n : ℤ) (name : Text)
    → sports_of_venue id chat t.venue_tables ≡ some sports
    → IsOffering name n sports
    → IsChosen name chat (some id) t n
unfolding sports_of_venue
sports_of_venue-row id chat t sports n name e h =
    elim (Option-cases (find_venue id t.venue_tables.venues)) [
      | inl none_found ↦ let bad : none ≡ some sports = rw (sports_of_venue, none_found) at e in cc
      | inr (row, found) ↦ elim (Bool-cases (eqb_ℤ row.group_id chat)) [
        | inl own ↦
            let read : some (offers id t.venue_tables.sports) ≡ some sports =
              rw (sports_of_venue, found, own) at e in
            let same : offers id t.venue_tables.sports ≡ sports = cc in (row, found, own, rw same h)
        | inr other ↦ let bad : none ≡ some sports = rw (sports_of_venue, found, other) at e in cc
      ]
    ]

sports_of_venue-offers :
    (id : ℕ) (chat : ℤ) (t : Tables) (sports : List VenueSport)
    → sports_of_venue id chat t.venue_tables ≡ some sports
    → sports ≡ offers id t.venue_tables.sports
unfolding sports_of_venue
sports_of_venue-offers id chat t sports e = ground (arith, e)

sports_of_venue-AllOffered :
    (id : ℕ) (chat : ℤ) (t : Tables) (sports : List VenueSport)
    → AllOffered t
    → sports_of_venue id chat t.venue_tables ≡ some sports
    → All IsOffered sports
sports_of_venue-AllOffered id chat t sports h e =
    rw (sports_of_venue-offers id chat t sports e) (AllOffered-offers id t.venue_tables.sports h)

pub players_per_court-After :
    (name : Text) (chat : ℤ) (venue : Option ℕ) (w : World Tables (Unit {0}))
    → AllOffered w.db
    → Sports.valid name ≡ true
    → After
        (λ n t. (t ≡ w.db) × IsPlayable name (some n) × IsChosen name chat venue w.db n)
        (players_per_court name chat venue w)
unfolding players_per_court
players_per_court-After name chat none w h v =
    let n = pos (Sports.get name).default_players_per_court in
    bind-After (λ (_ : Unit {0}) t. (t ≡ w.db) × (name ≡ squash)) _ _ _ w
      (require-After _ (text_eq name squash) GameError.needs_venue w
        (λ e. (refl, text_eq→≡ name squash e)))
      λ _ v1 h1.
        unfold pure in
        let d = get-default name v in
        (
          h1.0,
          (refl, d.0, d.1),
          (h1.1, ap (λ s. pos (Sports.get s).default_players_per_court) h1.1),
        )
players_per_court-After name chat (some id) w h v =
    bind-After (λ r t. (t ≡ w.db) × (r ≡ sports_of_venue id chat w.db.venue_tables)) _ _ _ w
      (stmt-After _ GameError.no_such_venue _ w (refl, refl))
      λ r v1 h1.
        bind-After
          (λ sports t. (t ≡ w.db) × (sports_of_venue id chat w.db.venue_tables ≡ some sports)) _ _ _
          v1 (or_raise-After _ r GameError.no_such_venue v1 (λ sports e. (h1.0, sym h1.1 ∙ e)))
          λ sports v2 h2.
            or_raise-After _ (players_in name sports) GameError.not_configured v2 (λ n e. (
              h2.0,
              players_in-IsPlayable name sports n
                  (sports_of_venue-AllOffered id chat w.db sports h h2.1) v e,
              sports_of_venue-row id chat w.db sports n name h2.1
                  (players_in-IsOffering name sports n e),
            ))
