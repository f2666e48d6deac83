-- ===== src/Rating/Floats.antt =====
-- The operations on `float64` that cmd/management/service/rating uses, with Go's package math. The
-- numbers themselves are a parameter of the model.
use squash_bot.Prelude.{ℕ, Bool}

pub record Floats (F : Type 0) : Type 0 where
  -- a decimal literal: its digits, and how many of them stand behind the point
  pub lit : ℕ → ℕ → F
  -- float64(n)
  pub of_int : ℕ → F
  pub add : F → F → F
  pub sub : F → F → F
  pub mul : F → F → F
  pub div : F → F → F
  pub neg : F → F
  pub abs : F → F
  pub sqrt : F → F
  pub exp : F → F
  pub log : F → F
  pub pow : F → F → F
  pub larger : F → F → F
  pub smaller : F → F → F
  pub pi : F
  -- math.Pi*math.Pi, a constant expression: the square of pi, rounded once
  pub pi_squared : F
  -- x < y, x <= y and x == y
  pub lt : F → F → Bool
  pub le : F → F → Bool
  pub eq : F → F → Bool
