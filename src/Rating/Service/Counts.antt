-- ===== src/Rating/Service/Counts.antt =====
-- The games of a player and the changes in the history, counted in the tables that
-- cmd/management/service/rating_service.go writes.
use squash_bot.Prelude.{
  ℕ, ◌+◌, ◌≡◌, inl, inr, refl, Option, none, some, true, ◌&&◌, List, [], ◌∷◌, ◌==◌, if◌then◌else◌,
  ℤ, arith, Bool-cases,
}
use squash_bot.Prelude.Int.{eqb_ℤ, eqb_ℤ_iff}
use squash_bot.Rating.Tables.{PlayerRating, RatingChange, find_rating, upsert, owns}

abbrev pub played : {F : Type 0} → Option (PlayerRating F) → ℕ
played none = 0
played (some r) = r.games_played

-- The games that a player has played by the table of ratings.
abbrev pub games_at : {F : Type 0} → ℤ → ℕ → List (PlayerRating F) → ℕ
games_at g p rows = played (find_rating g p rows)

-- 1 for the group and the player meant, and 0 for others.
abbrev pub hit : ℤ → ℕ → ℤ → ℕ → ℕ
hit g p group player = if eqb_ℤ group g && player == p then 1 else 0

-- How many changes the history has of a player, and of a result.
abbrev pub changes_at : {F : Type 0} → ℤ → ℕ → List (RatingChange F) → ℕ
changes_at g p [] = 0
changes_at g p (c ∷ cs) = hit g p c.group_id c.player_id + changes_at g p cs

abbrev pub changes_for : {F : Type 0} → ℕ → List (RatingChange F) → ℕ
changes_for id [] = 0
changes_for id (c ∷ cs) = (if c.game_result_id == id then 1 else 0) + changes_for id cs

owns-same :
    {F : Type 0} (new r : PlayerRating F) (g : ℤ) (p : ℕ)
    → owns new.group_id new.player_id r ≡ true
    → owns g p r ≡ owns g p new
owns-same new r g p e =
    let a : r.group_id ≡ new.group_id = (eqb_ℤ_iff r.group_id new.group_id).0 (ground arith) in
    let b : r.player_id ≡ new.player_id = ground arith in cc

pub find_rating-upsert :
    {F : Type 0} (new : PlayerRating F) (rows : List (PlayerRating F)) (g : ℤ) (p : ℕ)
    → find_rating g p (upsert new rows) ≡ (if owns g p new then some new else find_rating g p rows)
find_rating-upsert new [] g p = refl
find_rating-upsert new (r ∷ rows) g p = elim (Bool-cases (owns new.group_id new.player_id r)) [
  | inl e ↦ let s = owns-same new r g p e in ground (arith, s, e)
  | inr e ↦ ground (arith, find_rating-upsert new rows g p, e)
]

pub games_at-upsert :
    {F : Type 0} (new : PlayerRating F) (rows : List (PlayerRating F)) (g : ℤ) (p : ℕ)
    → games_at g p (upsert new rows)
      ≡ (if owns g p new then new.games_played else games_at g p rows)
games_at-upsert new rows g p = ground (arith, find_rating-upsert new rows g p)
