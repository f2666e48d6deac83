-- ===== src/Prelude/Text/Sets.antt =====
-- Lists of strings as the sets and the key sets of maps that the program builds in its loops.
use mathlib.Core.Path.{◌≡◌, refl}
use mathlib.Core.Logic.{◌↔◌}
use mathlib.Core.Bool.{Bool, false, ◌||◌}
use mathlib.Core.List.{List, [], ◌∷◌}
use native.Mathlib.Omega.{arith}
use squash_bot.Prelude.Lists.{All}
use squash_bot.Prelude.Text.{Text, text_eq}

-- seen[t]
unfoldable pub member : Text → List Text → Bool
member t [] = false
member t (s ∷ set) = text_eq t s || member t set

-- No string stands twice.
abbrev pub Distinct : List Text → Type 0
Distinct [] = Unit
Distinct (t ∷ ts) = (member t ts ≡ false) × Distinct ts

-- None of the strings is in the set.
abbrev pub AllFresh : List Text → List Text → Type 0
AllFresh seen ts = All (λ t. member t seen ≡ false) ts

text_eq_comm : (s t : Text) → text_eq s t ≡ text_eq t s
unfolding text_eq
text_eq_comm [] [] = refl
text_eq_comm [] (d ∷ t) = refl
text_eq_comm (c ∷ s) [] = refl
text_eq_comm (c ∷ s) (d ∷ t) = ground (arith, text_eq_comm s t)

pub AllFresh-nil : (ts : List Text) → AllFresh [] ts
unfolding member
AllFresh-nil [] = tt
AllFresh-nil (t ∷ ts) = (refl, AllFresh-nil ts)

-- A loop that adds `s` to the set tells the rest of the list apart from `s`.
pub AllFresh-cons :
    (s : Text) (seen ts : List Text)
    → AllFresh (s ∷ seen) ts ↔ ((member s ts ≡ false) × AllFresh seen ts)
unfolding member
AllFresh-cons s seen [] = (λ h. (refl, tt), λ h. tt)
AllFresh-cons s seen (t ∷ ts) = ground (arith, AllFresh-cons s seen ts, text_eq_comm s t)
