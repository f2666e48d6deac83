-- ===== src/Courts/Groups/Build.antt =====
-- buildConsecutiveGroups of cmd/management/service/court_cancellation.go: the runs of a list.
use squash_bot.Prelude.{
  ◌≡◌, ◌≢◌, inl, inr, refl, sym, ap, ◌∙◌, true, false, List, [], ◌∷◌, ◌++◌, append_assoc,
  append-nil, ℤ, pos, Bool-cases, All, All-append,
}
use mathlib.Core.List.{flatten}
use mathlib.Core.Bool.{false≢true}
use squash_bot.Prelude.Int.{succ_ℤ, eqb_ℤ, eqb_ℤ_iff}
use squash_bot.Courts.Groups.{group_loop, build_consecutive_groups, last_of}

-- Each number is the one before it plus one.
abbrev pub IsRunFrom : ℤ → List ℤ → Type 0
IsRunFrom x [] = Unit
IsRunFrom x (y ∷ ys) = (y ≡ succ_ℤ x) × IsRunFrom y ys

-- A run is not empty.
abbrev pub IsRun : List ℤ → Type 0
IsRun [] = ⊥
IsRun (x ∷ xs) = IsRunFrom x xs

-- Between two groups there is a gap: the second does not go on where the first ends.
abbrev pub HasGaps : List (List ℤ) → Type 0
HasGaps [] = Unit
HasGaps (g ∷ []) = Unit
HasGaps (g ∷ [] ∷ gs) = ⊥
HasGaps (g ∷ (x ∷ h) ∷ gs) = (x ≢ succ_ℤ (last_of (pos 0) g)) × HasGaps ((x ∷ h) ∷ gs)

flatten-snoc : (gs : List (List ℤ)) (g : List ℤ) → flatten (gs ++ g ∷ []) ≡ flatten gs ++ g
unfolding flatten
flatten-snoc [] g = append-nil g
flatten-snoc (h ∷ gs) g = simp (flatten-snoc gs g, append_assoc)

group_loop_end :
    (groups : List (List ℤ)) (cur : List ℤ) (last : ℤ)
    → group_loop groups cur last [] ≡ groups ++ cur ∷ []
unfolding group_loop
group_loop_end groups cur last = refl

group_loop_next :
    (groups : List (List ℤ)) (cur : List ℤ) (last v : ℤ) (vs : List ℤ)
    → eqb_ℤ v (succ_ℤ last) ≡ true
    → group_loop groups cur last (v ∷ vs) ≡ group_loop groups (cur ++ v ∷ []) v vs
unfolding group_loop
group_loop_next groups cur last v vs e = rw (e, group_loop)

group_loop_gap :
    (groups : List (List ℤ)) (cur : List ℤ) (last v : ℤ) (vs : List ℤ)
    → eqb_ℤ v (succ_ℤ last) ≡ false
    → group_loop groups cur last (v ∷ vs) ≡ group_loop (groups ++ cur ∷ []) (v ∷ []) v vs
unfolding group_loop
group_loop_gap groups cur last v vs e = rw (e, group_loop)

flatten-group_loop :
    (xs : List ℤ) (groups : List (List ℤ)) (cur : List ℤ) (last : ℤ)
    → flatten (group_loop groups cur last xs) ≡ flatten groups ++ (cur ++ xs)
flatten-group_loop [] groups cur last = simp (group_loop_end, flatten-snoc, append-nil)
flatten-group_loop (v ∷ vs) groups cur last = elim (Bool-cases (eqb_ℤ v (succ_ℤ last))) [
  | inl e ↦ simp (
    group_loop_next groups cur last v vs e,
    flatten-group_loop vs (groups) (cur ++ v ∷ []) v,
    append_assoc,
  )
  | inr e ↦ simp (
    group_loop_gap groups cur last v vs e,
    flatten-group_loop vs (groups ++ cur ∷ []) (v ∷ []) v,
    flatten-snoc,
    append_assoc,
  )
]

IsRun-snoc :
    (x : ℤ) (cur : List ℤ) (v : ℤ)
    → IsRunFrom x cur
    → v ≡ succ_ℤ (last_of x cur)
    → IsRunFrom x (cur ++ v ∷ [])
unfolding last_of
IsRun-snoc x [] v h e = (e, tt)
IsRun-snoc x (y ∷ cur) v h e = (h.0, IsRun-snoc y cur v h.1 e)

last_of-snoc : (d : ℤ) (cur : List ℤ) (v : ℤ) → last_of d (cur ++ v ∷ []) ≡ v
unfolding last_of
last_of-snoc d [] v = refl
last_of-snoc d (y ∷ cur) v = last_of-snoc y cur v

-- The last group may grow at its end.
HasGaps-grow :
    (gs : List (List ℤ)) (x : ℤ) (cur cur' : List ℤ)
    → HasGaps (gs ++ (x ∷ cur) ∷ [])
    → HasGaps (gs ++ (x ∷ cur') ∷ [])
HasGaps-grow [] x cur cur' h = tt
HasGaps-grow (g ∷ []) x cur cur' h = (h.0, tt)
HasGaps-grow (g ∷ [] ∷ gs) x cur cur' h = elim h [ ]
HasGaps-grow (g ∷ (y ∷ k) ∷ gs) x cur cur' h = (h.0, HasGaps-grow ((y ∷ k) ∷ gs) x cur cur' h.1)

-- A group may follow behind a gap.
HasGaps-snoc :
    (gs : List (List ℤ)) (cur : List ℤ) (v : ℤ)
    → HasGaps (gs ++ cur ∷ [])
    → v ≢ succ_ℤ (last_of (pos 0) cur)
    → HasGaps ((gs ++ cur ∷ []) ++ (v ∷ []) ∷ [])
HasGaps-snoc [] cur v h n = (n, tt)
HasGaps-snoc (g ∷ []) [] v h n = elim h [ ]
HasGaps-snoc (g ∷ []) (x ∷ cur) v h n = (h.0, (n, tt))
HasGaps-snoc (g ∷ [] ∷ gs) cur v h n = elim h [ ]
HasGaps-snoc (g ∷ (y ∷ k) ∷ gs) cur v h n = (h.0, HasGaps-snoc ((y ∷ k) ∷ gs) cur v h.1 n)

-- The groups so far, and the current one behind them.
abbrev IsState : List (List ℤ) → ℤ → List ℤ → Type 0
IsState groups x cur = All IsRun groups × IsRunFrom x cur × HasGaps (groups ++ (x ∷ cur) ∷ [])

abbrev IsGrouping : List (List ℤ) → Type 0
IsGrouping groups = All IsRun groups × HasGaps groups

group_loop_runs :
    (xs : List ℤ) (groups : List (List ℤ)) (x : ℤ) (cur : List ℤ) (last : ℤ)
    → last_of x cur ≡ last
    → IsState groups x cur
    → IsGrouping (group_loop groups (x ∷ cur) last xs)
group_loop_runs [] groups x cur last el (hg, hc, gaps) =
    rw group_loop_end (All-append IsRun groups ((x ∷ cur) ∷ []) hg (hc, tt), gaps)
group_loop_runs (v ∷ vs) groups x cur last el (hg, hc, gaps) =
    elim (Bool-cases (eqb_ℤ v (succ_ℤ last))) [
      | inl e ↦
          let ev : v ≡ succ_ℤ (last_of x cur) = rw el ((eqb_ℤ_iff v (succ_ℤ last)).0 e) in
          rw (group_loop_next groups (x ∷ cur) last v vs e) (
            group_loop_runs vs groups x (cur ++ v ∷ []) v (last_of-snoc x cur v)
              (hg, IsRun-snoc x cur v hc ev, HasGaps-grow groups x cur (cur ++ v ∷ []) gaps))
      | inr e ↦
          let ne : v ≢ succ_ℤ (last_of (pos 0) (x ∷ cur)) = λ p.
            false≢true
              (sym e ∙ (eqb_ℤ_iff v (succ_ℤ last)).1 (p ∙ ap succ_ℤ (unfold last_of in el))) in
          rw (group_loop_gap groups (x ∷ cur) last v vs e) (
            group_loop_runs vs (groups ++ (x ∷ cur) ∷ []) v [] v (unfold last_of in refl) (
              All-append IsRun groups ((x ∷ cur) ∷ []) hg (hc, tt),
              tt,
              HasGaps-snoc groups (x ∷ cur) v gaps ne,
            ))
    ]

-- The groups are the runs of consecutive numbers: each is a run, none goes on in the next, and
-- one behind the other they are the list.
pub build_consecutive_groups_runs :
    (xs : List ℤ)
    → (flatten (build_consecutive_groups xs) ≡ xs)
      × All IsRun (build_consecutive_groups xs)
      × HasGaps (build_consecutive_groups xs)
unfolding build_consecutive_groups
build_consecutive_groups_runs [] = (unfold flatten in refl, tt, tt)
build_consecutive_groups_runs (x ∷ xs) =
    let (runs, gaps) = group_loop_runs xs [] x [] x (unfold last_of in refl) (tt, tt, tt) in
    (flatten-group_loop xs [] (x ∷ []) x ∙ (unfold flatten in refl), runs, gaps)
