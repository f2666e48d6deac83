-- ===== src/Courts/Free/Rounds.antt =====
-- The loop of filterFreeCourts of cmd/management/service/auto_booking.go over the courts: the maps that
-- it fills.
use squash_bot.Prelude.{
  ◌≡◌, ◌≢◌, ◌⊎◌, inl, inr, refl, sym, ap, ◌∙◌, Option, none, some, Bool, true, false, ◌&&◌, not,
  List, [], ◌∷◌, is_nil, ℤ, pos, arith, Bool-cases, All,
}
use mathlib.Core.Bool.{false≢true}
use squash_bot.Prelude.Int.{eqb_ℤ, ltb_ℤ, eqb_ℤ_iff}
use squash_bot.Prelude.Text.{Text, atoi}
use squash_bot.Courts.Labels.{extract_court_number}
use squash_bot.Courts.Free.{
  BookingCourt, CourtMap, lookup_court, set_court, counts_as_free, free_round, free_loop,
}

-- A court that can be booked: its id is a number that is not occupied, it has a UUID, and its name
-- ends in a positive number.
abbrev pub IsFree : (ℤ → Bool) → BookingCourt → Type 0
IsFree occupied c =
    (id : ℤ) × (atoi c.id ≡ some id)
    × (occupied id ≡ false)
    × (c.uuid ≢ [])
    × (ltb_ℤ (pos 0) (extract_court_number c.name) ≡ true)

-- A free court of the list has this number and this UUID.
abbrev pub Offered : (ℤ → Bool) → ℤ → Text → List BookingCourt → Type 0
Offered occupied n u [] = ⊥
Offered occupied n u (c ∷ cs) =
    (IsFree occupied c × (extract_court_number c.name ≡ n) × (c.uuid ≡ u)) ⊎ Offered occupied n u cs

-- No free court of the list has a number of the venue.
abbrev pub NoneOfVenue : (ℤ → Bool) → (ℤ → Bool) → List BookingCourt → Type 0
NoneOfVenue occupied venue_courts =
    All (λ c. IsFree occupied c → venue_courts (extract_court_number c.name) ≡ false)

abbrev pub Entry : (ℤ → Text → Type 0) → ℤ × Text → Type 0
Entry P (n, u) = P n u

set_court-All :
    (P : ℤ → Text → Type 0) (n : ℤ) (u : Text) (m : CourtMap)
    → P n u
    → All (Entry P) m
    → All (Entry P) (set_court n u m)
unfolding set_court
set_court-All P n u [] p h = (p, tt)
set_court-All P n u ((k, v) ∷ m) p h = elim (Bool-cases (eqb_ℤ k n)) [
  | inl e ↦ let e' : k ≡ n = (eqb_ℤ_iff k n).0 e in rw e (rw e' (p, h.1))
  | inr e ↦ rw e (h.0, set_court-All P n u m p h.1)
]

pub lookup_court-All :
    (P : ℤ → Text → Type 0) (n : ℤ) (u : Text) (m : CourtMap)
    → All (Entry P) m
    → lookup_court n m ≡ some u
    → P n u
unfolding lookup_court
lookup_court-All P n u [] h e = cc
lookup_court-All P n u ((k, v) ∷ m) h e = elim (Bool-cases (eqb_ℤ k n)) [
  | inl t ↦
      let ek : k ≡ n = (eqb_ℤ_iff k n).0 t in let ev : v ≡ u = ground arith in rw (← ek, ← ev) h.0
  | inr t ↦ lookup_court-All P n u m h.1 (rw t at e)
]

module _ (occupied venue_courts : ℤ → Bool) where
  counts_as_free_sound :
      (c : BookingCourt) → counts_as_free occupied (atoi c.id) c ≡ true → IsFree occupied c
  unfolding counts_as_free
  counts_as_free_sound c h = go (atoi c.id) refl
    where
      go : (o : Option ℤ) → atoi c.id ≡ o → IsFree occupied c
      go none e = ground arith
      go (some id) e = (id, e, ground arith, (λ p. ground arith), ground arith)

  counts_as_free_complete :
      (c : BookingCourt) → IsFree occupied c → counts_as_free occupied (atoi c.id) c ≡ true
  unfolding counts_as_free
  counts_as_free_complete c (id, e, f, u, n) = rw (e, f, n) (go c.uuid u)
    where
      go : (t : Text) → t ≢ [] → ((not (is_nil t) && true) && true) ≡ true
      go [] h = absurd (h refl)
      go (x ∷ t) h = refl

  free_round_skip :
      (c : BookingCourt) (a v : CourtMap)
      → counts_as_free occupied (atoi c.id) c ≡ false
      → free_round occupied venue_courts c (a, v) ≡ (a, v)
  unfolding free_round
  free_round_skip c a v e = rw e

  free_loop_skip :
      (c : BookingCourt) (cs : List BookingCourt) (a v : CourtMap)
      → counts_as_free occupied (atoi c.id) c ≡ false
      → free_loop occupied venue_courts (c ∷ cs) (a, v) ≡ free_loop occupied venue_courts cs (a, v)
  unfolding free_loop
  free_loop_skip c cs a v e = ap (free_loop occupied venue_courts cs) (free_round_skip c a v e)

  free_round_other :
      (c : BookingCourt) (a v : CourtMap)
      → counts_as_free occupied (atoi c.id) c ≡ true
      → venue_courts (extract_court_number c.name) ≡ false
      → free_round occupied venue_courts c (a, v)
        ≡ (set_court (extract_court_number c.name) c.uuid a, v)
  unfolding free_round
  free_round_other c a v e f = rw (e, f)

  free_loop_other :
      (c : BookingCourt) (cs : List BookingCourt) (a v : CourtMap)
      → counts_as_free occupied (atoi c.id) c ≡ true
      → venue_courts (extract_court_number c.name) ≡ false
      → free_loop occupied venue_courts (c ∷ cs) (a, v)
        ≡ free_loop occupied venue_courts cs (set_court (extract_court_number c.name) c.uuid a, v)
  unfolding free_loop
  free_loop_other c cs a v e f =
      ap (free_loop occupied venue_courts cs) (free_round_other c a v e f)

  free_round_venue :
      (c : BookingCourt) (a v : CourtMap)
      → counts_as_free occupied (atoi c.id) c ≡ true
      → venue_courts (extract_court_number c.name) ≡ true
      → free_round occupied venue_courts c (a, v) ≡ (
        set_court (extract_court_number c.name) c.uuid a,
        set_court (extract_court_number c.name) c.uuid v,
      )
  unfolding free_round
  free_round_venue c a v e f = rw (e, f)

  free_loop_venue :
      (c : BookingCourt) (cs : List BookingCourt) (a v : CourtMap)
      → counts_as_free occupied (atoi c.id) c ≡ true
      → venue_courts (extract_court_number c.name) ≡ true
      → free_loop occupied venue_courts (c ∷ cs) (a, v)
        ≡ free_loop occupied venue_courts cs (
          set_court (extract_court_number c.name) c.uuid a,
          set_court (extract_court_number c.name) c.uuid v,
        )
  unfolding free_loop
  free_loop_venue c cs a v e f =
      ap (free_loop occupied venue_courts cs) (free_round_venue c a v e f)

  -- What a free court brings into the first map, and what one of the venue brings into the second.
  module _ (P Q : ℤ → Text → Type 0) where
    abbrev Brings : BookingCourt → Type 0
    Brings c =
        IsFree occupied c
        → P (extract_court_number c.name) c.uuid
          × (venue_courts (extract_court_number c.name) ≡ true
              → Q (extract_court_number c.name) c.uuid)

    pub free_loop-All :
        (cs : List BookingCourt) (a v : CourtMap)
        → All Brings cs
        → All (Entry P) a
        → All (Entry Q) v
        → All (Entry P) (free_loop occupied venue_courts cs (a, v)).0
          × All (Entry Q) (free_loop occupied venue_courts cs (a, v)).1
    free_loop-All [] a v h ha hv = unfold free_loop in (ha, hv)
    free_loop-All (c ∷ cs) a v h ha hv =
        let n = extract_court_number c.name in
        elim (Bool-cases (counts_as_free occupied (atoi c.id) c)) [
          | inr e ↦ rw (free_loop_skip c cs a v e) (free_loop-All cs a v h.1 ha hv)
          | inl e ↦
              let (p, q) = h.0 (counts_as_free_sound c e) in
              let ha' = set_court-All P n c.uuid a p ha in
              elim (Bool-cases (venue_courts n)) [
                | inr f ↦
                    rw (free_loop_other c cs a v e f)
                      (free_loop-All cs (set_court n c.uuid a) v h.1 ha' hv)
                | inl f ↦ rw (free_loop_venue c cs a v e f) (
                    free_loop-All cs (set_court n c.uuid a) (set_court n c.uuid v) h.1 ha'
                      (set_court-All Q n c.uuid v (q f) hv))
              ]
        ]

  set_court-ne-nil : (n : ℤ) (u : Text) (m : CourtMap) → set_court n u m ≢ []
  unfolding set_court
  set_court-ne-nil n u [] h = cc
  set_court-ne-nil n u ((k, v) ∷ m) h = ground arith

  -- The second map stays empty only if no free court is one of the venue's.
  pub free_loop-NoneOfVenue :
      (cs : List BookingCourt) (a v : CourtMap)
      → (free_loop occupied venue_courts cs (a, v)).1 ≡ []
      → (v ≡ []) × NoneOfVenue occupied venue_courts cs
  free_loop-NoneOfVenue [] a v h = (unfold free_loop in h, tt)
  free_loop-NoneOfVenue (c ∷ cs) a v h =
      let n = extract_court_number c.name in
      elim (Bool-cases (counts_as_free occupied (atoi c.id) c)) [
        | inr e ↦
            let (ev, rest) = free_loop-NoneOfVenue cs a v (rw (free_loop_skip c cs a v e) at h) in
            (ev, ((λ f. absurd (false≢true (sym e ∙ counts_as_free_complete c f))), rest))
        | inl e ↦ elim (Bool-cases (venue_courts n)) [
          | inr f ↦
              let (ev, rest) =
                free_loop-NoneOfVenue cs (set_court n c.uuid a) v
                  (rw (free_loop_other c cs a v e f) at h) in
              (ev, ((λ _. f), rest))
          | inl f ↦ absurd (
              set_court-ne-nil n c.uuid v
                (free_loop-NoneOfVenue cs (set_court n c.uuid a) (set_court n c.uuid v)
                  (rw (free_loop_venue c cs a v e f) at h)).0)
        ]
      ]
