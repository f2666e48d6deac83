-- ===== src/Sports.antt =====
-- The sports that the bot knows: internal/sport/sport.go.
use squash_bot.Prelude.{
  ℕ, ◌≤◌, ◌≡◌, Option, none, some, Bool, true, false, List, [], ◌∷◌, if◌then◌else◌, arith, String,
}
use squash_bot.Prelude.Text.{Text, text_eq, codes}

pub record Info : Type 0 where
  pub default_players_per_court : ℕ
  pub max_players_per_court : ℕ
  pub unit_kind : Text
  pub emoji : Text

abbrev pub squash : Text
squash = codes "squash"

abbrev badminton : Text
badminton = codes "badminton"

abbrev table_tennis : Text
table_tennis = codes "table_tennis"

abbrev tennis : Text
tennis = codes "tennis"

abbrev padel : Text
padel = codes "padel"

abbrev bowling : Text
bowling = codes "bowling"

abbrev info : ℕ → ℕ → String → String → Info
info default max kind emoji = record {
  default_players_per_court = default;
  max_players_per_court = max;
  unit_kind = codes kind;
  emoji = codes emoji;
}

infos : List (Text × Info)
infos =
    (squash, info 2 4 "court" "🏸")
    ∷ (badminton, info 2 4 "court" "🏸")
    ∷ (table_tennis, info 2 4 "table" "🏓")
    ∷ (tennis, info 2 4 "court" "🎾")
    ∷ (padel, info 4 4 "court" "🎾")
    ∷ (bowling, info 6 6 "lane" "🎳")
    ∷ []

-- infos[value], with the second result.
find_info : List (Text × Info) → Text → Option Info
find_info [] value = none
find_info ((key, i) ∷ rest) value =
    let found = find_info rest value in if text_eq value key then some i else found

-- Valid
unfoldable pub valid : Text → Bool
unfolding infos find_info
valid value = elim (find_info infos value) [ none ↦ false | some i ↦ true ]

-- Get: the zero Info of a sport that is not in the map.
unfoldable pub get : Text → Info
unfolding infos find_info
get value = elim (find_info infos value) [ none ↦ info 0 0 "" "" | some i ↦ i ]

-- All
pub all : List Text
all = squash ∷ badminton ∷ table_tennis ∷ tennis ∷ padel ∷ bowling ∷ []

-- Every sport's default number of players is a number that a venue may set.
pub get-default :
    (s : Text)
    → valid s ≡ true
    → (1 ≤ (get s).default_players_per_court)
      × ((get s).default_players_per_court ≤ (get s).max_players_per_court)
unfolding valid get infos find_info
get-default s h = ground arith
