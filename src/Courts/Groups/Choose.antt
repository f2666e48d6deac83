-- ===== src/Courts/Groups/Choose.antt =====
-- The inner loop of selectCourtsToCancel in cmd/management/service/court_cancellation.go: the group
-- that loses a court.
use squash_bot.Prelude.{
  ℕ, zero, suc, ◌+◌, ◌≤◌, ◌<◌, ◌≡◌, ◌≢◌, ◌⊎◌, inl, inr, refl, sym, ◌∙◌, Option, none, some, true,
  false, List, [], ◌∷◌, length, ℤ, pos, arith, Bool-cases, All,
}
use mathlib.Core.List.{cons-ne-nil}
use squash_bot.Prelude.Int.{pos_part, neg_part}
use squash_bot.Courts.Groups.{first_or, better, choose}

-- The group at an index.
abbrev pub group_at : List (List ℤ) → ℕ → Option (List ℤ)
group_at [] i = none
group_at (g ∷ gs) zero = some g
group_at (g ∷ gs) (suc i) = group_at gs i

-- `g` is shorter than `h`, or as long with a first court that is no greater.
abbrev pub Precedes : List ℤ → List ℤ → Type 0
Precedes g h =
    (length g < length h)
    ⊎ ((length g ≡ length h)
        × (pos_part (first_or (pos 0) g) + neg_part (first_or (pos 0) h)
            ≤ pos_part (first_or (pos 0) h) + neg_part (first_or (pos 0) g)))

-- A group with a court in it comes behind `g`.
abbrev pub Yields : List ℤ → List ℤ → Type 0
Yields g h = h ≢ [] → Precedes g h

Precedes-refl : (g : List ℤ) → Precedes g g
Precedes-refl g = inr (refl, omega arith)

Precedes-trans : (g h k : List ℤ) → Precedes g h → Precedes h k → Precedes g k
Precedes-trans g h k (inl a) (inl b) = inl (omega arith)
Precedes-trans g h k (inl a) (inr b) = inl (omega arith)
Precedes-trans g h k (inr a) (inl b) = inl (omega arith)
Precedes-trans g h k (inr a) (inr b) = inr (omega arith, omega arith)

better-Precedes : (g h : List ℤ) → better g h ≡ true → Precedes g h
unfolding better
better-Precedes g h e = ground arith

not_better-Precedes : (g h : List ℤ) → better g h ≡ false → Precedes h g
unfolding better
not_better-Precedes g h e = ground arith

choose_take :
    (x : ℤ) (k : List ℤ) (gs : List (List ℤ)) (i c : ℕ) (bg : List ℤ)
    → better (x ∷ k) bg ≡ true
    → choose i ((x ∷ k) ∷ gs) (some (c, bg)) ≡ choose (i + 1) gs (some (i, x ∷ k))
unfolding choose
choose_take x k gs i c bg e = rw e

choose_keep :
    (x : ℤ) (k : List ℤ) (gs : List (List ℤ)) (i c : ℕ) (bg : List ℤ)
    → better (x ∷ k) bg ≡ false
    → choose i ((x ∷ k) ∷ gs) (some (c, bg)) ≡ choose (i + 1) gs (some (c, bg))
unfolding choose
choose_keep x k gs i c bg e = rw e

-- The index `b` is `i` and then the place of the non-empty group `g` in `gs`.
abbrev Found : List (List ℤ) → ℕ → ℕ → List ℤ → Type 0
Found gs i b g = (j : ℕ) × (b ≡ i + j) × (group_at gs j ≡ some g) × (g ≢ [])

Found-cons :
    (h : List ℤ) (gs : List (List ℤ)) (i b : ℕ) (g : List ℤ)
    → Found gs (i + 1) b g
    → Found (h ∷ gs) i b g
Found-cons h gs i b g (j, e, at, n) = (suc j, omega arith, at, n)

Found-head :
    (x : ℤ) (k : List ℤ) (gs : List (List ℤ)) (i b : ℕ) (g : List ℤ)
    → ◌≡◌ {A = Option (ℕ × List ℤ)} (some (i, x ∷ k)) (some (b, g))
    → Found ((x ∷ k) ∷ gs) i b g
Found-head x k gs i b g e = (0, ground arith, ground arith, λ p. cons-ne-nil x k (ground arith))

-- What the loop returns: what it was given, or a group of the list.
choose_sound :
    (gs : List (List ℤ)) (i : ℕ) (best : Option (ℕ × List ℤ)) (b : ℕ) (g : List ℤ)
    → choose i gs best ≡ some (b, g)
    → (best ≡ some (b, g)) ⊎ Found gs i b g
unfolding choose
choose_sound [] i best b g h = inl h
choose_sound ([] ∷ gs) i best b g h = elim (choose_sound gs (i + 1) best b g h) [
  | inl e ↦ inl e
  | inr f ↦ inr (Found-cons [] gs i b g f)
]
choose_sound ((x ∷ k) ∷ gs) i none b g h = elim (choose_sound gs (i + 1) (some (i, x ∷ k)) b g h) [
  | inl e ↦ inr (Found-head x k gs i b g e)
  | inr f ↦ inr (Found-cons (x ∷ k) gs i b g f)
]
choose_sound ((x ∷ k) ∷ gs) i (some (c, bg)) b g h = elim (Bool-cases (better (x ∷ k) bg)) [
  | inl e ↦
      elim (choose_sound gs (i + 1) (some (i, x ∷ k)) b g (sym (choose_take x k gs i c bg e) ∙ h)) [
        | inl q ↦ inr (Found-head x k gs i b g q)
        | inr f ↦ inr (Found-cons (x ∷ k) gs i b g f)
      ]
  | inr e ↦
      elim (choose_sound gs (i + 1) (some (c, bg)) b g (sym (choose_keep x k gs i c bg e) ∙ h)) [
        | inl q ↦ inl q
        | inr f ↦ inr (Found-cons (x ∷ k) gs i b g f)
      ]
]

-- `g` comes before the group kept so far.
abbrev Leads : List ℤ → Option (ℕ × List ℤ) → Type 0
Leads g none = Unit
Leads g (some (c, bg)) = Precedes g bg

choose_first :
    (gs : List (List ℤ)) (i : ℕ) (best : Option (ℕ × List ℤ)) (b : ℕ) (g : List ℤ)
    → choose i gs best ≡ some (b, g)
    → Leads g best × All (Yields g) gs
unfolding choose
choose_first [] i none b g h = cc
choose_first [] i (some (c, bg)) b g h =
    let e : bg ≡ g = ground arith in (rw e (Precedes-refl g), tt)
choose_first ([] ∷ gs) i best b g h =
    let (l, a) = choose_first gs (i + 1) best b g h in (l, ((λ n. absurd (n refl)), a))
choose_first ((x ∷ k) ∷ gs) i none b g h =
    let (l, a) = choose_first gs (i + 1) (some (i, x ∷ k)) b g h in (tt, ((λ _. l), a))
choose_first ((x ∷ k) ∷ gs) i (some (c, bg)) b g h = elim (Bool-cases (better (x ∷ k) bg)) [
  | inl e ↦
      let (l, a) =
        choose_first gs (i + 1) (some (i, x ∷ k)) b g (sym (choose_take x k gs i c bg e) ∙ h) in
      (Precedes-trans g (x ∷ k) bg l (better-Precedes (x ∷ k) bg e), ((λ _. l), a))
  | inr e ↦
      let (l, a) =
        choose_first gs (i + 1) (some (c, bg)) b g (sym (choose_keep x k gs i c bg e) ∙ h) in
      (l, ((λ _. Precedes-trans g bg (x ∷ k) l (not_better-Precedes (x ∷ k) bg e)), a))
]

choose-some : (gs : List (List ℤ)) (i c : ℕ) (bg : List ℤ) → choose i gs (some (c, bg)) ≢ none
unfolding choose
choose-some [] i c bg h = cc
choose-some ([] ∷ gs) i c bg h = choose-some gs (i + 1) c bg h
choose-some ((x ∷ k) ∷ gs) i c bg h = elim (Bool-cases (better (x ∷ k) bg)) [
  | inl e ↦ choose-some gs (i + 1) i (x ∷ k) (sym (choose_take x k gs i c bg e) ∙ h)
  | inr e ↦ choose-some gs (i + 1) c bg (sym (choose_keep x k gs i c bg e) ∙ h)
]

-- Nothing is found only where no group has a court.
pub choose-none : (gs : List (List ℤ)) (i : ℕ) → choose i gs none ≡ none → All (λ g. g ≡ []) gs
unfolding choose
choose-none [] i h = tt
choose-none ([] ∷ gs) i h = (refl, choose-none gs (i + 1) h)
choose-none ((x ∷ k) ∷ gs) i h = absurd (choose-some gs (i + 1) i (x ∷ k) h)

-- The chosen group is one of the groups, it is not empty, and no group with a court in it is
-- shorter, or as short with a smaller first court.
pub choose_lem :
    (gs : List (List ℤ)) (b : ℕ) (g : List ℤ)
    → choose 0 gs none ≡ some (b, g)
    → (group_at gs b ≡ some g) × (g ≢ []) × All (Yields g) gs
choose_lem gs b g h = elim (choose_sound gs 0 none b g h) [
  | inl e ↦ cc
  | inr (j, e, at, n) ↦
      let e' : b ≡ j = omega arith in (rw e' at, n, (choose_first gs 0 none b g h).1)
]
