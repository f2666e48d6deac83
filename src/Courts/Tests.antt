-- ===== src/Courts/Tests.antt =====
-- Runs of the functions on court lists, and their theorems at concrete inputs.
use squash_bot.Prelude.{
  ◌≤◌, min, ◌≡◌, ◌≢◌, refl, none, some, List, [], ◌∷◌, length, ℤ, pos, negsuc, All,
}
use mathlib.Core.List.{flatten}
use squash_bot.Prelude.Text.{codes, text_ops}
use squash_bot.Courts.Labels.{split_courts, parse_court_ids, extract_court_number}
use squash_bot.Courts.Groups.{build_consecutive_groups, choose, select_courts_to_cancel}
use squash_bot.Courts.Groups.Build.{IsRun, HasGaps, build_consecutive_groups_runs}
use squash_bot.Courts.Groups.Choose.{group_at, Yields, choose_lem}
use squash_bot.Courts.Groups.Select.{count, select_courts_to_cancel_lem}

-- Courts 1 to 3, 7, and 9 to 10.
abbrev courts : List ℤ
courts = pos 1 ∷ pos 2 ∷ pos 3 ∷ pos 7 ∷ pos 9 ∷ pos 10 ∷ []

-- The court that stands alone goes first, then the ends of the shorter runs.
selects_three : select_courts_to_cancel courts 3 ≡ pos 7 ∷ pos 10 ∷ pos 9 ∷ []
unfolding select_courts_to_cancel
selects_three = refl

splits : split_courts (codes " 1, ,Court 2 ,") ≡ codes "1" ∷ codes "Court 2" ∷ []
unfolding split_courts text_ops
splits = refl

parses : parse_court_ids (codes "5, 6,x,-7") ≡ pos 5 ∷ pos 6 ∷ negsuc 6 ∷ []
unfolding parse_court_ids text_ops
parses = refl

numbers :
    (extract_court_number (codes "Court 7") ≡ pos 7)
    × (extract_court_number (codes "Court A") ≡ negsuc 0)
    × (extract_court_number (codes "Court 0") ≡ negsuc 0)
unfolding extract_court_number text_ops
numbers = (refl, refl, refl)

build_consecutive_groups_runs_example :
    (flatten (build_consecutive_groups courts) ≡ courts)
    × All IsRun (build_consecutive_groups courts)
    × HasGaps (build_consecutive_groups courts)
build_consecutive_groups_runs_example = build_consecutive_groups_runs courts

abbrev groups : List (List ℤ)
groups = (pos 1 ∷ pos 2 ∷ []) ∷ (pos 7 ∷ []) ∷ []

chooses : choose 0 groups none ≡ some (1, pos 7 ∷ [])
unfolding choose
chooses = refl

choose_lem_example :
    (group_at groups 1 ≡ some (pos 7 ∷ [])) × ((pos 7 ∷ []) ≢ []) × All (Yields (pos 7 ∷ [])) groups
choose_lem_example = choose_lem groups 1 (pos 7 ∷ []) chooses

select_courts_to_cancel_lem_example :
    (length (select_courts_to_cancel courts 3) ≡ min 3 (length courts))
    × ((c : ℤ) → count c (select_courts_to_cancel courts 3) ≤ count c courts)
select_courts_to_cancel_lem_example = select_courts_to_cancel_lem courts 3
