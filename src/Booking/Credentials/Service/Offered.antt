-- ===== src/Booking/Credentials/Service/Offered.antt =====
-- ListForBooking of cmd/management/service/venue_credential_service.go on the tables: the order of
-- the credentials that are offered for a booking.
use squash_bot.Prelude.{
  ℕ, ◌≤◌, ◌≡◌, inl, inr, refl, sym, Option, none, some, List, [], ◌∷◌, ltb, arith, Bool-cases,
  Option-cases, All,
}
use mathlib.Core.List.{Perm}
use mathlib.Core.List.Perm
use squash_bot.Prelude.Text.{Text}
use squash_bot.Store.{World}
use squash_bot.Store.Hoare.{After, stmt-After}
use squash_bot.Booking.Credentials.{VenueCredential, DecryptedCredential, usable, list_for_booking}
use squash_bot.Booking.Credentials.Service.{
  Tables, CredentialError, of_venue, insert_by_priority, by_priority,
  list_with_password_by_venue_id, offered,
}

-- In the order of the priorities.
abbrev pub IsOrdered : List DecryptedCredential → Type 0
IsOrdered [] = Unit {0}
IsOrdered (d ∷ ds) = All (λ e. d.priority ≤ e.priority) ds × IsOrdered ds

abbrev RowsOrdered : List VenueCredential → Type 0
RowsOrdered [] = Unit {0}
RowsOrdered (c ∷ cs) = All (λ d. c.priority ≤ d.priority) cs × RowsOrdered cs

abbrev cons_some : Option DecryptedCredential → List DecryptedCredential → List DecryptedCredential
cons_some none ds = ds
cons_some (some d) ds = d ∷ ds

cons_some-Perm :
    (o : Option DecryptedCredential) (a b : List DecryptedCredential)
    → Perm a b
    → Perm (cons_some o a) (cons_some o b)
cons_some-Perm none a b p = p
cons_some-Perm (some d) a b p = Perm.cons d p

cons_some_swap :
    (o p : Option DecryptedCredential) (ds : List DecryptedCredential)
    → Perm (cons_some o (cons_some p ds)) (cons_some p (cons_some o ds))
cons_some_swap none p ds = Perm.refl (cons_some p ds)
cons_some_swap (some d) none ds = Perm.refl (d ∷ ds)
cons_some_swap (some d) (some e) ds = Perm.swap e d ds

insert-All :
    (n : ℕ) (c : VenueCredential) (cs : List VenueCredential)
    → n ≤ c.priority
    → All (λ d. n ≤ d.priority) cs
    → All (λ d. n ≤ d.priority) (insert_by_priority c cs)
insert-All n c [] h k = (h, tt)
insert-All n c (d ∷ cs) h k = elim (Bool-cases (ltb d.priority c.priority)) [
  | inl e ↦ rw e (k.0, insert-All n c cs h k.1)
  | inr e ↦ rw e (h, k)
]

All-above :
    (m n : ℕ) (cs : List VenueCredential)
    → m ≤ n
    → All (λ d. n ≤ d.priority) cs
    → All (λ d. m ≤ d.priority) cs
All-above m n [] h k = tt
All-above m n (c ∷ cs) h k = (let low = k.0 in omega arith, All-above m n cs h k.1)

insert-RowsOrdered :
    (c : VenueCredential) (cs : List VenueCredential)
    → RowsOrdered cs
    → RowsOrdered (insert_by_priority c cs)
insert-RowsOrdered c [] h = (tt, tt)
insert-RowsOrdered c (d ∷ cs) h = elim (Bool-cases (ltb d.priority c.priority)) [
  | inl e ↦ rw e (insert-All d.priority c cs (ground arith) h.0, insert-RowsOrdered c cs h.1)
  | inr e ↦
      let low : c.priority ≤ d.priority = ground arith in
      rw e ((low, All-above c.priority d.priority cs low h.0), h)
]

by_priority-RowsOrdered : (cs : List VenueCredential) → RowsOrdered (by_priority cs)
by_priority-RowsOrdered [] = tt
by_priority-RowsOrdered (c ∷ cs) =
    insert-RowsOrdered c (by_priority cs) (by_priority-RowsOrdered cs)

module _ (decrypt : Text → Option Text) (now cooldown : ℕ) where
  usable-priority :
      (c : VenueCredential) (d : DecryptedCredential)
      → usable decrypt now cooldown c ≡ some d
      → d.priority ≡ c.priority
  unfolding usable
  usable-priority c d h = ground arith

  list_for_booking-cons :
      (c : VenueCredential) (cs : List VenueCredential)
      → list_for_booking decrypt now cooldown (c ∷ cs)
        ≡ cons_some (usable decrypt now cooldown c) (list_for_booking decrypt now cooldown cs)
  unfolding list_for_booking
  list_for_booking-cons c cs = elim (Option-cases (usable decrypt now cooldown c)) [
    | inl e ↦ rw (e, list_for_booking) refl
    | inr (d, e) ↦ rw (e, list_for_booking) refl
  ]

  list_for_booking-All :
      (n : ℕ) (cs : List VenueCredential)
      → All (λ d. n ≤ d.priority) cs
      → All (λ d. n ≤ d.priority) (list_for_booking decrypt now cooldown cs)
  list_for_booking-All n [] h = unfold list_for_booking in tt
  list_for_booking-All n (c ∷ cs) h =
      rw (list_for_booking-cons c cs) (elim (Option-cases (usable decrypt now cooldown c)) [
        | inl e ↦ rw e (list_for_booking-All n cs h.1)
        | inr (d, e) ↦
            let same = usable-priority c d e in
            let low = h.0 in rw e (omega arith, list_for_booking-All n cs h.1)
      ])

  list_for_booking-IsOrdered :
      (cs : List VenueCredential)
      → RowsOrdered cs
      → IsOrdered (list_for_booking decrypt now cooldown cs)
  list_for_booking-IsOrdered [] h = unfold list_for_booking in tt
  list_for_booking-IsOrdered (c ∷ cs) h =
      rw (list_for_booking-cons c cs) (elim (Option-cases (usable decrypt now cooldown c)) [
        | inl e ↦ rw e (list_for_booking-IsOrdered cs h.1)
        | inr (d, e) ↦
            let same = usable-priority c d e in
            rw e
              (rw same (list_for_booking-All c.priority cs h.0), list_for_booking-IsOrdered cs h.1)
      ])

  list_for_booking-insert :
      (c : VenueCredential) (cs : List VenueCredential)
      → Perm
          (list_for_booking decrypt now cooldown (insert_by_priority c cs))
          (list_for_booking decrypt now cooldown (c ∷ cs))
  list_for_booking-insert c [] = Perm.refl _
  list_for_booking-insert c (d ∷ cs) = elim (Bool-cases (ltb d.priority c.priority)) [
    | inl e ↦
        rw
          (
            e,
            list_for_booking-cons d (insert_by_priority c cs),
            list_for_booking-cons c (d ∷ cs),
            list_for_booking-cons d cs,
          )
          (Perm.trans
            (cons_some-Perm (usable decrypt now cooldown d) _ _
              (rw (sym (list_for_booking-cons c cs)) (list_for_booking-insert c cs)))
            (cons_some_swap (usable decrypt now cooldown d) (usable decrypt now cooldown c)
              (list_for_booking decrypt now cooldown cs)))
    | inr e ↦ rw e (Perm.refl _)
  ]

  list_for_booking-by_priority :
      (cs : List VenueCredential)
      → Perm
          (list_for_booking decrypt now cooldown (by_priority cs))
          (list_for_booking decrypt now cooldown cs)
  list_for_booking-by_priority [] = Perm.refl _
  list_for_booking-by_priority (c ∷ cs) = Perm.trans (list_for_booking-insert c (by_priority cs)) (
      rw (list_for_booking-cons c (by_priority cs), list_for_booking-cons c cs)
        (cons_some-Perm (usable decrypt now cooldown c) _ _ (list_for_booking-by_priority cs)))

  -- The credentials that are offered for a booking are the usable ones of the venue, each as often
  -- as it stands in the table, in the order of their priorities; the tables stay as they are.
  pub offered_lem :
      (venue : ℕ) (w : World Tables (Unit {0}))
      → After
          (λ ds t.
            IsOrdered ds
            × Perm ds (list_for_booking decrypt now cooldown (of_venue venue w.db.credentials))
            × (t ≡ w.db))
          (offered decrypt now cooldown venue w)
  unfolding offered list_with_password_by_venue_id
  offered_lem venue w =
      let rows = of_venue venue w.db.credentials in
      stmt-After _ CredentialError.database _ w (
        list_for_booking-IsOrdered (by_priority rows) (by_priority-RowsOrdered rows),
        list_for_booking-by_priority rows,
        refl,
      )
