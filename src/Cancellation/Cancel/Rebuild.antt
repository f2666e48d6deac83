-- ===== src/Cancellation/Cancel/Rebuild.antt =====
-- The end of cancelUsingBookingEntries in cmd/management/service/court_cancellation.go: the
-- game's list of courts without the cancelled ones.
use squash_bot.Prelude.{
  ℕ, ◌+◌, ◌-◌, ◌≡◌, inl, inr, refl, ap, List, [], ◌∷◌, map, if◌then◌else◌, ℤ, arith, Bool-cases,
}
use squash_bot.Prelude.Text.{Text, text_eq, trim_space, itoa}
use squash_bot.Prelude.Text.Equality.{text_eq→≡}
use squash_bot.Cancellation.Cancel.{canceled_count, decremented, new_courts}

-- How often a name stands in a list.
abbrev pub count_text : Text → List Text → ℕ
count_text t [] = 0
count_text t (x ∷ xs) = (if text_eq x t then 1 else 0) + count_text t xs

-- A name stands in the new list as often as in the trimmed old one less the cancellations of it,
-- and not at all if there are more of these.
pub count_text-new_courts :
    (counts : Text → ℕ) (courts : List Text) (t : Text)
    → count_text t (new_courts counts courts) ≡ count_text t (map trim_space courts) - counts t
unfolding new_courts decremented
count_text-new_courts counts [] t = omega arith
count_text-new_courts counts (c ∷ cs) t =
    let kept = count_text-new_courts counts cs t in
    let removed = count_text-new_courts (decremented counts (trim_space c)) cs t in
    elim (Bool-cases (text_eq (trim_space c) t)) [
      | inl e ↦
          let same : counts (trim_space c) ≡ counts t = ap counts (text_eq→≡ (trim_space c) t e) in
          ground (arith, kept, removed, same, e)
      | inr e ↦ ground (arith, kept, removed, e)
    ]

-- The cancelled numbers are counted as the names that they have in the list.
pub canceled_count-count_text :
    (canceled : List ℤ) (t : Text) → canceled_count canceled t ≡ count_text t (map itoa canceled)
unfolding canceled_count
canceled_count-count_text [] t = refl
canceled_count-count_text (c ∷ cs) t =
    ap (λ n. (if text_eq (itoa c) t then 1 else 0) + n) (canceled_count-count_text cs t)
