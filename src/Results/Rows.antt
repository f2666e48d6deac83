-- ===== src/Results/Rows.antt =====
-- The rows of game_results under the update of cmd/management/storage/game_result_repo.go.
use squash_bot.Prelude.{
  ℕ, ◌≡◌, inl, inr, some, List, [], ◌∷◌, ◌==◌, if◌then◌else◌, arith, Bool-cases, ==_iff,
}
use squash_bot.Rating.Tables.{GameResult, find_result, put_result}

pub find_result-id :
    (id : ℕ) (rows : List GameResult) (r : GameResult) → find_result id rows ≡ some r → r.id ≡ id
find_result-id id [] r e = cc
find_result-id id (s ∷ rows) r e = elim (Bool-cases (s.id == id)) [
  | inl b ↦ let same : s ≡ r = ground arith in rw (← same) ((==_iff s.id id).0 b)
  | inr b ↦ find_result-id id rows r (simp b at e)
]

pub find_result-put :
    (id k : ℕ) (rows : List GameResult) (r new : GameResult)
    → find_result id rows ≡ some r
    → new.id ≡ id
    → find_result k (put_result id new rows) ≡ (if id == k then some new else find_result k rows)
find_result-put id k [] r new e n = cc
find_result-put id k (s ∷ rows) r new e n = elim (Bool-cases (s.id == id)) [
  | inl b ↦ simp b (ground (arith, b, n))
  | inr b ↦ simp b (ground (arith, find_result-put id k rows r new (simp b at e) n, b))
]
