-- ===== src/Prelude/Text/Bags.antt =====
-- Lists of strings as the maps from a string to a count that the program decrements in its loops.
use squash_bot.Prelude.{
  ℕ, ◌+◌, ◌-◌, ◌≡◌, inl, inr, refl, ap, Option, none, some, true, List, [], ◌∷◌, ◌++◌, length, ◌==◌,
  if◌then◌else◌, arith, Bool-cases, Option-cases,
}
use squash_bot.Prelude.Text.{Text, text_eq, cons_head, split}
use squash_bot.Prelude.Text.Equality.{text_eq→≡}

-- 1 for the string itself.
abbrev pub hit : Text → Text → ℕ
hit x y = if text_eq x y then 1 else 0

abbrev pub count : Text → List Text → ℕ
count x [] = 0
count x (y ∷ ys) = hit x y + count x ys

-- `if bag[t] > 0 { bag[t]-- }`; `none` when the test fails.
pub take_out : Text → List Text → Option (List Text)
take_out t [] = none
take_out t (s ∷ bag) =
    let rest = take_out t bag in
    if text_eq t s then some bag else elim rest [ none ↦ none | some left ↦ some (s ∷ left) ]

-- for _, t := range ts { if bag[t] > 0 { bag[t]--; continue }; out = append(out, t) }
pub minus : List Text → List Text → List Text
minus [] bag = []
minus (t ∷ ts) bag = elim (take_out t bag) [ none ↦ t ∷ minus ts bag | some left ↦ minus ts left ]

pub count-append : (x : Text) (xs ys : List Text) → count x (xs ++ ys) ≡ count x xs + count x ys
count-append x [] ys = omega arith
count-append x (y ∷ xs) ys = omega (arith, count-append x xs ys)

hit_same : (x t s : Text) → text_eq t s ≡ true → hit x t ≡ hit x s
hit_same x t s e = ap (hit x) (text_eq→≡ t s e)

pub take_out-none : (t : Text) (bag : List Text) → take_out t bag ≡ none → count t bag ≡ 0
unfolding take_out
take_out-none t [] h = refl
take_out-none t (s ∷ bag) h = ground (arith, take_out-none t bag)

pub take_out-some :
    (x t : Text) (bag left : List Text)
    → take_out t bag ≡ some left
    → count x bag ≡ hit x t + count x left
unfolding take_out
take_out-some x t [] left h = cc
take_out-some x t (s ∷ bag) left h = elim (Bool-cases (text_eq t s)) [
  | inl e ↦
      let found : some bag ≡ some left = rw e at h in
      let same : bag ≡ left = cc in rw (same, hit_same x t s e) refl
  | inr e ↦ elim (Option-cases (take_out t bag)) [
    | inl n ↦ let no : none ≡ some left = rw (e, n) at h in cc
    | inr (rest, f) ↦
        let found : some (s ∷ rest) ≡ some left = rw (e, f) at h in
        let same : s ∷ rest ≡ left = cc in rw (← same) (omega (arith, take_out-some x t bag rest f))
  ]
]

minus-none :
    (t : Text) (ts bag : List Text) → take_out t bag ≡ none → minus (t ∷ ts) bag ≡ t ∷ minus ts bag
unfolding minus
minus-none t ts bag e = rw (e, minus) refl

minus-some :
    (t : Text) (ts bag left : List Text)
    → take_out t bag ≡ some left
    → minus (t ∷ ts) bag ≡ minus ts left
unfolding minus
minus-some t ts bag left e = rw (e, minus) refl

-- What is left over is what the bag lacks.
pub count-minus :
    (x : Text) (ts bag : List Text) → count x (minus ts bag) ≡ count x ts - count x bag
unfolding minus
count-minus x [] bag = omega arith
count-minus x (t ∷ ts) bag = elim (Option-cases (take_out t bag)) [
  | inr (left, e) ↦
      let k = take_out-some x t bag left e in
      rw (minus-some t ts bag left e) (omega (arith, count-minus x ts left, k))
  | inl e ↦ rw (minus-none t ts bag e) (elim (Bool-cases (text_eq x t)) [
    | inl q ↦
        let zero : count x bag ≡ 0 = rw (text_eq→≡ x t q) (take_out-none t bag e) in
        omega (arith, count-minus x ts bag, zero)
    | inr q ↦ ground (arith, count-minus x ts bag)
  ])
]

-- How often a separator occurs.
abbrev pub occurrences : Text → ℕ → ℕ
occurrences [] sep = 0
occurrences (c ∷ s) sep = (if c == sep then 1 else 0) + occurrences s sep

length-cons_head :
    (c : ℕ) (parts : List Text) (n : ℕ) → length parts ≡ n + 1 → length (cons_head c parts) ≡ n + 1
unfolding cons_head
length-cons_head c [] n h = absurd (omega (arith, h))
length-cons_head c (p ∷ ps) n h = h

pub length-split : (s : Text) (sep : ℕ) → length (split s sep) ≡ occurrences s sep + 1
unfolding split
length-split [] sep = refl
length-split (c ∷ s) sep = elim (Bool-cases (c == sep)) [
  | inl e ↦ rw e (omega (arith, length-split s sep))
  | inr e ↦
      rw e
        (omega (arith, length-cons_head c (split s sep) (occurrences s sep) (length-split s sep)))
]
