-- ===== src/Courts/Free/Sound.antt =====
-- filterFreeCourts of cmd/management/service/auto_booking.go: what it offers is free.
use squash_bot.Prelude.{
  ◌≡◌, ◌⊎◌, inl, inr, refl, ap, Bool, true, false, List, [], ◌∷◌, is_nil, ℤ, Bool-cases,
  Option-cases, All, All-map,
}
use squash_bot.Prelude.Text.{Text, atoi}
use squash_bot.Courts.Labels.{extract_court_number}
use squash_bot.Courts.Free.{
  BookingCourt, CourtMap, lookup_court, has, id_or_zero, free_loop, emit_loop, preferred_loop,
  eligible, filter_free_courts,
}
use squash_bot.Courts.Free.Rounds.{
  IsFree, Offered, NoneOfVenue, Entry, lookup_court-All, free_loop-NoneOfVenue, free_loop-All,
}

-- Every UUID of a list is that of a free court that `P` holds of.
abbrev pub AllOffered : (ℤ → Text → Type 0) → List Text → Type 0
AllOffered P = All (λ u. (n : ℤ) × P n u)

preferred_loop-All :
    (P : ℤ → Text → Type 0) (courts : CourtMap) (ns : List ℤ)
    → All (Entry P) courts
    → AllOffered P (preferred_loop courts ns)
unfolding preferred_loop
preferred_loop-All P courts [] h = tt
preferred_loop-All P courts (n ∷ ns) h = elim (Option-cases (lookup_court n courts)) [
  | inl e ↦ rw (e, preferred_loop) (preferred_loop-All P courts ns h)
  | inr (u, e) ↦
      rw (e, preferred_loop)
        ((n, lookup_court-All P n u courts h e), preferred_loop-All P courts ns h)
]

module _ (occupied : ℤ → Bool) (P : ℤ → Text → Type 0) (courts : CourtMap)
    (h : All (Entry P) courts) where
  emit_loop-All :
      (cs : List BookingCourt) (seen : List ℤ) → AllOffered P (emit_loop occupied courts cs seen)
  unfolding emit_loop
  emit_loop-All [] seen = tt
  emit_loop-All (c ∷ cs) seen =
      let n = extract_court_number c.name in
      elim (Bool-cases (occupied (id_or_zero (atoi c.id)))) [
        | inl o ↦ rw o (emit_loop-All cs seen)
        | inr o ↦ elim (Option-cases (lookup_court n courts)) [
          | inl e ↦ rw (o, e) (emit_loop-All cs seen)
          | inr (u, e) ↦ elim (Bool-cases (has n seen)) [
            | inl s ↦ rw (o, e, s) (emit_loop-All cs seen)
            | inr s ↦
                rw (o, e, s) ((n, lookup_court-All P n u courts h e), emit_loop-All cs (n ∷ seen))
          ]
        ]
      ]

Offered-All :
    (occupied : ℤ → Bool) (cs : List BookingCourt)
    → All (λ c. IsFree occupied c → Offered occupied (extract_court_number c.name) c.uuid cs) cs
Offered-All occupied [] = tt
Offered-All occupied (c ∷ cs) =
    ((λ f. inl (f, refl, refl)), All-map _ _ cs (λ d h f. inr (h f)) (Offered-All occupied cs))

-- What is offered: a free court of the list, one of the venue's if any of those is free.
abbrev pub Fits : (ℤ → Bool) → (ℤ → Bool) → List BookingCourt → ℤ → Text → Type 0
Fits occupied venue_courts cs n u =
    Offered occupied n u cs × ((venue_courts n ≡ true) ⊎ NoneOfVenue occupied venue_courts cs)

eligible-All :
    (occupied venue_courts : ℤ → Bool) (cs : List BookingCourt)
    → All
        (Entry (Fits occupied venue_courts cs))
        (eligible (free_loop occupied venue_courts cs ([], [])))
eligible-All occupied venue_courts cs = go (free_loop occupied venue_courts cs ([], [])) refl
  where
    P : ℤ → Text → Type 0
    P n u = Offered occupied n u cs

    Q : ℤ → Text → Type 0
    Q n u = Offered occupied n u cs × (venue_courts n ≡ true)

    both :
        All (Entry P) (free_loop occupied venue_courts cs ([], [])).0
        × All (Entry Q) (free_loop occupied venue_courts cs ([], [])).1
    both =
        free_loop-All occupied venue_courts P Q cs [] []
          (All-map _ _ cs (λ c h f. (h f, λ v. (h f, v))) (Offered-All occupied cs)) tt tt

    go :
        (maps : CourtMap × CourtMap)
        → free_loop occupied venue_courts cs ([], []) ≡ maps
        → All (Entry (Fits occupied venue_courts cs)) (eligible maps)
    go (a, []) e =
        let none_free : NoneOfVenue occupied venue_courts cs =
          (free_loop-NoneOfVenue occupied venue_courts cs [] [] (ap (λ m. m.1) e)).1 in
        unfold eligible in
        All-map (Entry P) (Entry (Fits occupied venue_courts cs)) a (λ x h. (h, inr none_free))
          (rw e at both).0
    go (a, x ∷ v) e =
        unfold eligible in
        All-map (Entry Q) (Entry (Fits occupied venue_courts cs)) (x ∷ v) (λ x h. (h.0, inl h.1))
          (rw e at both).1

abbrev preferred_of : List BookingCourt → (ℤ → Bool) → (ℤ → Bool) → List ℤ → List Text
preferred_of cs occupied venue_courts =
    preferred_loop (eligible (free_loop occupied venue_courts cs ([], [])))

filter_emits :
    (cs : List BookingCourt) (occupied venue_courts : ℤ → Bool) (preferred : List ℤ)
    → is_nil (preferred_of cs occupied venue_courts preferred) ≡ true
    → filter_free_courts cs occupied venue_courts preferred
      ≡ emit_loop occupied (eligible (free_loop occupied venue_courts cs ([], []))) cs []
unfolding filter_free_courts
filter_emits cs occupied venue_courts preferred e = rw e

filter_prefers :
    (cs : List BookingCourt) (occupied venue_courts : ℤ → Bool) (preferred : List ℤ)
    → is_nil (preferred_of cs occupied venue_courts preferred) ≡ false
    → filter_free_courts cs occupied venue_courts preferred
      ≡ preferred_of cs occupied venue_courts preferred
unfolding filter_free_courts
filter_prefers cs occupied venue_courts preferred e = rw e

-- Each court that is offered for booking is free: it stands in the facility's list with a numeric
-- id that is not occupied, a UUID, and a positive number at the end of its name. It is a court of
-- the venue, unless no court of the venue is free.
pub filter_free_courts_sound :
    (all_courts : List BookingCourt) (occupied venue_courts : ℤ → Bool) (ordered_preferred : List ℤ)
    → AllOffered
        (Fits occupied venue_courts all_courts)
        (filter_free_courts all_courts occupied venue_courts ordered_preferred)
filter_free_courts_sound cs occupied venue_courts preferred =
    let courts = eligible (free_loop occupied venue_courts cs ([], [])) in
    let fits = eligible-All occupied venue_courts cs in
    elim (Bool-cases (is_nil (preferred_loop courts preferred))) [
      | inl e ↦
          rw (filter_emits cs occupied venue_courts preferred e)
            (emit_loop-All occupied (Fits occupied venue_courts cs) courts fits cs [])
      | inr e ↦
          rw (filter_prefers cs occupied venue_courts preferred e)
            (preferred_loop-All (Fits occupied venue_courts cs) courts preferred fits)
    ]
