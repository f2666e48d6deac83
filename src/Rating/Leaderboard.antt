-- ===== src/Rating/Leaderboard.antt =====
-- GetLeaderboard of cmd/management/service/rating_service.go. The ratings of the group come from
-- the repository in their order, and the changes of the day from the other one; the bounds of the
-- day in the group's time zone are computed by package time.
use squash_bot.Prelude.{
  ℕ, ◌+◌, ◌≡◌, inl, inr, refl, ap, Option, none, some, Bool, true, false, List, [], ◌∷◌, map, ltb,
  ◌==◌, if◌then◌else◌, arith, Bool-cases,
}
use mathlib.Core.List.{foldl}
use mathlib.Core.Option
use squash_bot.Rating.Floats.{Floats}
use squash_bot.Rating.Tables.{PlayerRating, RatingChange}

-- LeaderboardEntry, with the player's id for the player.
pub record LeaderboardEntry (F : Type 0) : Type 0 where
  pub rank : ℕ
  pub player_id : ℕ
  pub rating : F
  pub rd : F
  pub games_played : ℕ
  pub delta_today : F

-- The elements that pass a test, in their order.
abbrev pub those {ℓ} : {A : Type ℓ} → (A → Bool) → List A → List A
those test [] = []
those test (x ∷ xs) = let rest = those test xs in if test x then x ∷ rest else rest

abbrev pub has_played : {F : Type 0} → PlayerRating F → Bool
has_played r = ltb 0 r.games_played

-- An entry for each row, with the ranks from k on.
abbrev pub ranked : {F : Type 0} → (ℕ → F) → ℕ → List (PlayerRating F) → List (LeaderboardEntry F)
ranked day k [] = []
ranked day k (r ∷ rs) =
    record {
      rank = k;
      player_id = r.player_id;
      rating = r.rating;
      rd = r.rd;
      games_played = r.games_played;
      delta_today = day r.player_id;
    }
    ∷ ranked day (k + 1) rs

module _ {F : Type 0} (fl : Floats F) where
  -- todayChanges[p] after the loop over the changes, from what it was before.
  delta_from : ℕ → F → List (RatingChange F) → F
  delta_from p sum [] = sum
  delta_from p sum (c ∷ cs) =
      if c.player_id == p then delta_from p (fl.add sum c.delta) cs else delta_from p sum cs

  -- DeltaToday: zero if the changes are not known, or if there is none of the player.
  pub delta_today_of : Option (List (RatingChange F)) → ℕ → F
  unfolding delta_from
  delta_today_of none p = fl.lit 0 0
  delta_today_of (some cs) p = delta_from p (fl.lit 0 0) cs

  -- The changes are known if the group is found and the query succeeds.
  pub known_changes : Bool → Option (List (RatingChange F)) → Option (List (RatingChange F))
  known_changes false cs = none
  known_changes true cs = cs

  entry_of : Option (List (RatingChange F)) → ℕ → PlayerRating F → LeaderboardEntry F
  entry_of today i r = record {
    rank = i + 1;
    player_id = r.player_id;
    rating = r.rating;
    rd = r.rd;
    games_played = r.games_played;
    delta_today = delta_today_of today r.player_id;
  }

  -- The first loop, from index i on.
  collect : Option (List (RatingChange F)) → ℕ → List (PlayerRating F) → List (LeaderboardEntry F)
  unfolding entry_of
  collect today i [] = []
  collect today i (r ∷ rs) =
      let rest = collect today (i + 1) rs in
      if r.games_played == 0 then rest else entry_of today i r ∷ rest

  -- The second loop: entries[i].Rank = i + 1.
  renumber : ℕ → List (LeaderboardEntry F) → List (LeaderboardEntry F)
  renumber i [] = []
  renumber i (e ∷ es) = record e { rank = i + 1 } ∷ renumber (i + 1) es

  -- GetLeaderboard; `none` is an error of the first query.
  pub leaderboard :
      Option (List (PlayerRating F))
      → Bool
      → Option (List (RatingChange F))
      → Option (List (LeaderboardEntry F))
  unfolding collect renumber known_changes
  leaderboard none group_known changes = none
  leaderboard (some rows) group_known changes =
      some (renumber 0 (collect (known_changes group_known changes) 0 rows))

  -- What the changes of a player sum up to, from 0 on and in their order; 0 if the group is not
  -- found or the changes cannot be read.
  abbrev pub day_sum : Bool → Option (List (RatingChange F)) → ℕ → F
  day_sum false changes p = fl.lit 0 0
  day_sum true none p = fl.lit 0 0
  day_sum true (some cs) p =
      foldl fl.add (fl.lit 0 0) (map (λ c. c.delta) (those (λ c. c.player_id == p) cs))

  delta_from-foldl :
      (p : ℕ) (sum : F) (cs : List (RatingChange F))
      → delta_from p sum cs
        ≡ foldl fl.add sum (map (λ c. c.delta) (those (λ c. c.player_id == p) cs))
  unfolding delta_from
  delta_from-foldl p sum [] = refl
  delta_from-foldl p sum (c ∷ cs) = elim (Bool-cases (c.player_id == p)) [
    | inl e ↦ rw e (delta_from-foldl p (fl.add sum c.delta) cs)
    | inr e ↦ rw e (delta_from-foldl p sum cs)
  ]

  delta_today_of-day_sum :
      (group_known : Bool) (changes : Option (List (RatingChange F))) (p : ℕ)
      → delta_today_of (known_changes group_known changes) p ≡ day_sum group_known changes p
  unfolding delta_today_of known_changes
  delta_today_of-day_sum false changes p = refl
  delta_today_of-day_sum true none p = refl
  delta_today_of-day_sum true (some cs) p = delta_from-foldl p (fl.lit 0 0) cs

  renumber-collect :
      (today : Option (List (RatingChange F))) (day : ℕ → F) (rows : List (PlayerRating F))
      (i k : ℕ)
      → ((p : ℕ) → delta_today_of today p ≡ day p)
      → renumber k (collect today i rows) ≡ ranked day (k + 1) (those has_played rows)
  unfolding renumber collect entry_of
  renumber-collect today day [] i k same = refl
  renumber-collect today day (r ∷ rows) i k same = elim (Bool-cases (r.games_played == 0)) [
    | inl e ↦
        let idle : ltb 0 r.games_played ≡ false = ground (arith, e) in
        rw (e, idle) (renumber-collect today day rows (i + 1) k same)
    | inr e ↦
        let active : ltb 0 r.games_played ≡ true = ground (arith, e) in
        rw (e, active, same r.player_id)
          (ap
            (λ es.
              record {
                rank = k + 1;
                player_id = r.player_id;
                rating = r.rating;
                rd = r.rd;
                games_played = r.games_played;
                delta_today = day r.player_id;
              }
              ∷ es)
            (renumber-collect today day rows (i + 1) (k + 1) same))
  ]

  -- The leaderboard has an entry for exactly the players who have played, in the order of the
  -- ratings, numbered from 1 without gaps, each with the sum of the day's changes of that player,
  -- or 0 if the group is not found or these cannot be read; it fails only if the ratings cannot be
  -- read.
  pub leaderboard_lem :
      (ratings : Option (List (PlayerRating F))) (group_known : Bool)
      (changes : Option (List (RatingChange F)))
      → leaderboard ratings group_known changes
        ≡ Option.map
            (λ rows. ranked (day_sum group_known changes) 1 (those has_played rows))
            ratings
  unfolding leaderboard
  leaderboard_lem none group_known changes = refl
  leaderboard_lem (some rows) group_known changes =
      ap (λ es. some es)
        (renumber-collect (known_changes group_known changes) (day_sum group_known changes) rows 0 0
          (delta_today_of-day_sum group_known changes))
