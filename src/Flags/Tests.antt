-- ===== src/Flags/Tests.antt =====
-- The flags' theorems at concrete inputs.
use squash_bot.Prelude.{◌≡◌, refl, none, some, true, false, [], ◌∷◌, negsuc, arith}
use squash_bot.Prelude.Text.{text_ops}
use squash_bot.Store.{World}
use squash_bot.Store.Hoare.{Settled}
use squash_bot.Flags.{
  Definition, score_aware_rating, lookup, resolve, read_flag, set_override, FlagTables, FlagChanged,
  set_flag,
}
use squash_bot.Flags.Overrides.{IsUnique, override_after, read_flag-set_override}
use squash_bot.Flags.Authority.{IsWritten, set_flag_lem}

abbrev rated_by_score : Definition
rated_by_score = record { key = score_aware_rating; default = false; group_scoped = true }

known : lookup score_aware_rating ≡ some rated_by_score
unfolding lookup text_ops
known = refl

none_yet : IsUnique []
none_yet key group = omega arith

read_flag-set_override_example :
    read_flag
      (set_override [] score_aware_rating none (some true))
      score_aware_rating
      (some (negsuc 4))
    ≡ some (
        resolve rated_by_score
          (override_after [] score_aware_rating none (some true) none)
          (override_after [] score_aware_rating none (some true) (some (negsuc 4))))
read_flag-set_override_example =
    read_flag-set_override [] score_aware_rating rated_by_score none (some true) (negsuc 4) none_yet
      known

abbrev tables : FlagTables
tables = record { overrides = []; owners = 5 ∷ []; groups = negsuc 4 ∷ [] }

abbrev world : World FlagTables FlagChanged
world = record { db = tables; log = []; down = [] }

set_flag_lem_example :
    Settled tables
      (λ _ new. IsWritten 5 score_aware_rating (some (negsuc 4)) (some true) tables new)
      (set_flag 5 score_aware_rating (some (negsuc 4)) (some true) world)
set_flag_lem_example = set_flag_lem score_aware_rating (some (negsuc 4)) (some true) 5 world
