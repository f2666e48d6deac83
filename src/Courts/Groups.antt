-- ===== src/Courts/Groups.antt =====
-- buildConsecutiveGroups and selectCourtsToCancel of cmd/management/service/court_cancellation.go.
-- Court numbers are far from the ends of Go's `int`, so `+ 1` does not wrap around.
pub mod Build
pub mod Choose
pub mod Select
use squash_bot.Prelude.{
  ℕ, zero, suc, ◌+◌, Option, none, some, Bool, true, false, ◌&&◌, ◌||◌, List, [], ◌∷◌, ◌++◌, length,
  ltb, is_nil, ◌==◌, if◌then◌else◌, ℤ, pos,
}
use squash_bot.Prelude.Int.{succ_ℤ, eqb_ℤ, ltb_ℤ}

-- The loop over `sorted[1:]`; `last` is `cur[len(cur)-1]`.
group_loop : List (List ℤ) → List ℤ → ℤ → List ℤ → List (List ℤ)
group_loop groups cur last [] = groups ++ cur ∷ []
group_loop groups cur last (v ∷ vs) = elim (eqb_ℤ v (succ_ℤ last)) [
  | true ↦ group_loop groups (cur ++ v ∷ []) v vs
  | false ↦ group_loop (groups ++ cur ∷ []) (v ∷ []) v vs
]

-- buildConsecutiveGroups
pub build_consecutive_groups : List ℤ → List (List ℤ)
unfolding group_loop
build_consecutive_groups [] = []
build_consecutive_groups (x ∷ xs) = group_loop [] (x ∷ []) x xs

pub first_or : ℤ → List ℤ → ℤ
first_or d [] = d
first_or d (x ∷ xs) = x

-- gLen < bLen || (gLen == bLen && g[0] < groups[best][0])
better : List ℤ → List ℤ → Bool
unfolding first_or
better g b =
    ltb (length g) (length b)
    || (length g == length b && ltb_ℤ (first_or (pos 0) g) (first_or (pos 0) b))

-- The loop over `groups` that finds `best`: its index, with the group that stands there.
unfoldable pub choose : ℕ → List (List ℤ) → Option (ℕ × List ℤ) → Option (ℕ × List ℤ)
unfolding better
choose i [] best = best
choose i ([] ∷ gs) best = choose (i + 1) gs best
choose i ((x ∷ g) ∷ gs) none = choose (i + 1) gs (some (i, x ∷ g))
choose i ((x ∷ g) ∷ gs) (some (b, bg)) =
    choose (i + 1) gs (if better (x ∷ g) bg then some (i, x ∷ g) else some (b, bg))

-- g[len(g)-1]
pub last_of : ℤ → List ℤ → ℤ
last_of d [] = d
last_of d (x ∷ xs) = last_of x xs

-- g[:len(g)-1]
pub but_last : List ℤ → List ℤ
but_last [] = []
but_last (x ∷ []) = []
but_last (x ∷ y ∷ xs) = x ∷ but_last (y ∷ xs)

-- groups[best] = g
set_group : List (List ℤ) → ℕ → List ℤ → List (List ℤ)
set_group [] i g = []
set_group (h ∷ gs) zero g = g ∷ gs
set_group (h ∷ gs) (suc i) g = h ∷ set_group gs i g

-- The rounds of `for len(selected) < n` that are left.
select_loop : ℕ → List (List ℤ) → List ℤ → List ℤ
unfolding choose last_of but_last set_group
select_loop zero groups selected = selected
select_loop (suc k) groups selected = elim (choose 0 groups none) [
  | none ↦ selected
  | some (b, g) ↦
      select_loop k (set_group groups b (but_last g)) (selected ++ last_of (pos 0) g ∷ [])
]

-- selectCourtsToCancel
unfoldable pub select_courts_to_cancel : List ℤ → ℕ → List ℤ
unfolding select_loop build_consecutive_groups
select_courts_to_cancel sorted n =
    if n == 0 || is_nil sorted then [] else select_loop n (build_consecutive_groups sorted) []
