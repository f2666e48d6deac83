-- ===== src/Courts/Groups/Select.antt =====
-- selectCourtsToCancel of cmd/management/service/court_cancellation.go: how many courts it picks,
-- and which.
use squash_bot.Prelude.{
  ℕ, zero, suc, ◌+◌, ◌≤◌, min, ◌≡◌, inl, inr, refl, ap, none, some, false, List, [], ◌∷◌, ◌++◌,
  length, length-append, ◌==◌, if◌then◌else◌, ℤ, pos, arith, Option-cases, All,
}
use mathlib.Core.List.{flatten}
use squash_bot.Prelude.Int.{eqb_ℤ}
use squash_bot.Courts.Groups.{
  build_consecutive_groups, choose, last_of, but_last, set_group, select_loop,
  select_courts_to_cancel,
}
use squash_bot.Courts.Groups.Build.{build_consecutive_groups_runs}
use squash_bot.Courts.Groups.Choose.{group_at, choose_lem, choose-none}

-- How often a court stands in a list.
abbrev pub count : ℤ → List ℤ → ℕ
count c [] = 0
count c (x ∷ xs) = (if eqb_ℤ c x then 1 else 0) + count c xs

abbrev count_all : ℤ → List (List ℤ) → ℕ
count_all c [] = 0
count_all c (g ∷ gs) = count c g + count_all c gs

abbrev size : List (List ℤ) → ℕ
size [] = 0
size (g ∷ gs) = length g + size gs

pub count-append : (c : ℤ) (xs ys : List ℤ) → count c (xs ++ ys) ≡ count c xs + count c ys
count-append c [] ys = omega arith
count-append c (x ∷ xs) ys = omega (arith, count-append c xs ys)

count-flatten : (c : ℤ) (gs : List (List ℤ)) → count c (flatten gs) ≡ count_all c gs
unfolding flatten
count-flatten c [] = refl
count-flatten c (g ∷ gs) = omega (arith, count-append c g (flatten gs), count-flatten c gs)

length-flatten : (gs : List (List ℤ)) → length (flatten gs) ≡ size gs
unfolding flatten
length-flatten [] = refl
length-flatten (g ∷ gs) = omega (arith, length-append g (flatten gs), length-flatten gs)

count-but_last :
    (c d x : ℤ) (g : List ℤ)
    → count c (but_last (x ∷ g)) + count c (last_of d (x ∷ g) ∷ []) ≡ count c (x ∷ g)
unfolding but_last last_of
count-but_last c d x [] = omega arith
count-but_last c d x (y ∷ g) = omega (arith, count-but_last c x y g)

length-but_last : (x : ℤ) (g : List ℤ) → length (but_last (x ∷ g)) ≡ length g
unfolding but_last
length-but_last x [] = refl
length-but_last x (y ∷ g) = omega (arith, length-but_last y g)

count-set_group :
    (c : ℤ) (gs : List (List ℤ)) (b : ℕ) (g h : List ℤ)
    → group_at gs b ≡ some g
    → count_all c (set_group gs b h) + count c g ≡ count_all c gs + count c h
unfolding set_group
count-set_group c [] b g h e = cc
count-set_group c (k ∷ gs) zero g h e = let e' : k ≡ g = ground arith in rw e' (omega arith)
count-set_group c (k ∷ gs) (suc b) g h e = omega (arith, count-set_group c gs b g h e)

size-set_group :
    (gs : List (List ℤ)) (b : ℕ) (g h : List ℤ)
    → group_at gs b ≡ some g
    → size (set_group gs b h) + length g ≡ size gs + length h
unfolding set_group
size-set_group [] b g h e = cc
size-set_group (k ∷ gs) zero g h e = let e' : k ≡ g = ground arith in rw e' (omega arith)
size-set_group (k ∷ gs) (suc b) g h e = omega (arith, size-set_group gs b g h e)

size_none : (gs : List (List ℤ)) → All (λ g. g ≡ []) gs → size gs ≡ 0
size_none [] h = refl
size_none (g ∷ gs) (e, h) = rw e (omega (arith, size_none gs h))

-- One round moves the last court of a group to the selection.
round_count :
    (c : ℤ) (gs : List (List ℤ)) (b : ℕ) (g : List ℤ)
    → choose 0 gs none ≡ some (b, g)
    → count_all c (set_group gs b (but_last g)) + count c (last_of (pos 0) g ∷ []) ≡ count_all c gs
round_count c gs b [] h = absurd ((choose_lem gs b [] h).1 refl)
round_count c gs b (x ∷ g) h = omega (
  arith,
  count-set_group c gs b (x ∷ g) (but_last (x ∷ g)) (choose_lem gs b (x ∷ g) h).0,
  count-but_last c (pos 0) x g,
)

round_size :
    (gs : List (List ℤ)) (b : ℕ) (g : List ℤ)
    → choose 0 gs none ≡ some (b, g)
    → size (set_group gs b (but_last g)) + 1 ≡ size gs
round_size gs b [] h = absurd ((choose_lem gs b [] h).1 refl)
round_size gs b (x ∷ g) h = omega (
  arith,
  size-set_group gs b (x ∷ g) (but_last (x ∷ g)) (choose_lem gs b (x ∷ g) h).0,
  length-but_last x g,
)

select_loop_stop :
    (k : ℕ) (gs : List (List ℤ)) (sel : List ℤ)
    → choose 0 gs none ≡ none
    → select_loop (suc k) gs sel ≡ sel
unfolding select_loop
select_loop_stop k gs sel e = rw (e, select_loop)

select_loop_round :
    (k : ℕ) (gs : List (List ℤ)) (sel : List ℤ) (b : ℕ) (g : List ℤ)
    → choose 0 gs none ≡ some (b, g)
    → select_loop (suc k) gs sel
      ≡ select_loop k (set_group gs b (but_last g)) (sel ++ last_of (pos 0) g ∷ [])
unfolding select_loop
select_loop_round k gs sel b g e = rw (e, select_loop)

count-select_loop :
    (c : ℤ) (k : ℕ) (gs : List (List ℤ)) (sel : List ℤ)
    → count c (select_loop k gs sel) ≤ count c sel + count_all c gs
count-select_loop c zero gs sel = unfold select_loop in omega arith
count-select_loop c (suc k) gs sel = elim (Option-cases (choose 0 gs none)) [
  | inl e ↦ rw (select_loop_stop k gs sel e) (omega arith)
  | inr ((b, g), e) ↦ rw (select_loop_round k gs sel b g e) (
      omega (
        arith,
        count-select_loop c k (set_group gs b (but_last g)) (sel ++ last_of (pos 0) g ∷ []),
        count-append c sel (last_of (pos 0) g ∷ []),
        round_count c gs b g e,
      ))
]

length-select_loop :
    (k : ℕ) (gs : List (List ℤ)) (sel : List ℤ)
    → length (select_loop k gs sel) ≡ length sel + min k (size gs)
length-select_loop zero gs sel = unfold select_loop in omega arith
length-select_loop (suc k) gs sel = elim (Option-cases (choose 0 gs none)) [
  | inl e ↦ rw (select_loop_stop k gs sel e) (omega (arith, size_none gs (choose-none gs 0 e)))
  | inr ((b, g), e) ↦ rw (select_loop_round k gs sel b g e) (
      omega (
        arith,
        length-select_loop k (set_group gs b (but_last g)) (sel ++ last_of (pos 0) g ∷ []),
        length-append sel (last_of (pos 0) g ∷ []),
        round_size gs b g e,
      ))
]

select_eq_loop :
    (x : ℤ) (xs : List ℤ) (n : ℕ)
    → select_courts_to_cancel (x ∷ xs) n ≡ select_loop n (build_consecutive_groups (x ∷ xs)) []
unfolding select_courts_to_cancel
select_eq_loop x xs zero = unfold select_loop in refl
select_eq_loop x xs (suc n) = let e : (suc n == 0) ≡ false = ground arith in rw e

-- As many courts are selected as are asked for, or all of them if there are fewer; and no court
-- more often than it stands in the list.
pub select_courts_to_cancel_lem :
    (sorted : List ℤ) (n : ℕ)
    → (length (select_courts_to_cancel sorted n) ≡ min n (length sorted))
      × ((c : ℤ) → count c (select_courts_to_cancel sorted n) ≤ count c sorted)
select_courts_to_cancel_lem [] n =
    unfold select_courts_to_cancel in (ground arith, λ c. ground arith)
select_courts_to_cancel_lem (x ∷ xs) n = rw (select_eq_loop x xs n) (
    let gs = build_consecutive_groups (x ∷ xs) in
    let whole : flatten gs ≡ x ∷ xs = (build_consecutive_groups_runs (x ∷ xs)).0 in
    (
      omega (arith, length-select_loop n gs [], length-flatten gs, ap (length {0}) whole),
      λ c. omega (arith, count-select_loop c n gs [], count-flatten c gs, ap (count c) whole),
    ))
