-- ===== src/Rating/Glicko.antt =====
-- The Glicko-2 update of cmd/management/service/rating/glicko2.go. Its two loops run on fuel:
-- whether they end depends on the numbers, and `none` stands for a call that does not return.
use squash_bot.Prelude.{
  ℕ, zero, suc, ◌+◌, Option, none, some, true, false, List, [], ◌∷◌, map, if◌then◌else◌,
}
use squash_bot.Rating.Floats.{Floats}

-- Rating
pub record Rating (F : Type 0) : Type 0 where
  pub r : F
  pub rd : F
  pub sigma : F

-- MatchResult
pub record MatchResult (F : Type 0) : Type 0 where
  pub opponent : Rating F
  pub score : F
  pub weight : F

-- computed
pub record Computed (F : Type 0) : Type 0 where
  pub g : F
  pub e : F
  pub s : F
  pub weight : F

module _ {F : Type 0} (fl : Floats F) where
  abbrev pub default_rating : F
  default_rating = fl.lit 1500 0

  abbrev pub default_rd : F
  default_rd = fl.lit 350 0

  abbrev pub default_volatility : F
  default_volatility = fl.lit 6 2

  abbrev pub tau : F
  tau = fl.lit 5 1

  abbrev pub epsilon : F
  epsilon = fl.lit 1 6

  abbrev pub scale_to_glicko2 : F
  scale_to_glicko2 = fl.lit 1737178 4

  abbrev pub min_rd : F
  min_rd = fl.lit 30 0

  abbrev pub max_rd : F
  max_rd = fl.lit 350 0

  -- Default
  pub default : Rating F
  default = record { r = default_rating; rd = default_rd; sigma = default_volatility }

  abbrev pub square : F → F
  square x = fl.mul x x

  g_func : F → F
  g_func phi =
      let top = fl.mul (fl.mul (fl.lit 3 0) phi) phi in
      let den = fl.add (fl.lit 1 0) (fl.div top fl.pi_squared) in fl.div (fl.lit 1 0) (fl.sqrt den)

  e_func : F → F → F → F
  e_func mu mu_j phi_j =
      fl.div (fl.lit 1 0)
        (fl.add (fl.lit 1 0) (fl.exp (fl.mul (fl.neg (g_func phi_j)) (fl.sub mu mu_j))))

  -- The closure `f` of illinoisIter.
  volatility_at : F → F → F → F → F → F → F
  volatility_at a delta phi v t x =
      let ex = fl.exp x in
      let d2 = square delta in
      let phi2 = square phi in
      let num = fl.mul ex (fl.sub (fl.sub (fl.sub d2 phi2) v) ex) in
      let den = fl.mul (fl.lit 2 0) (fl.pow (fl.add (fl.add phi2 v) ex) (fl.lit 2 0)) in
      fl.sub (fl.div num den) (fl.div (fl.sub x a) (square t))

  -- The loop that counts k up.
  find_lower : ℕ → (F → F) → F → F → ℕ → Option F
  find_lower zero f a t k = none
  find_lower (suc fuel) f a t k =
      let low = fl.sub a (fl.mul (fl.of_int k) t) in
      elim (fl.lt (f low) (fl.lit 0 0)) [ true ↦ find_lower fuel f a t (k + 1) | false ↦ some low ]

  -- The loop that narrows A and B; `fa` and `fb` are the values of f at them.
  narrow : ℕ → (F → F) → F → F → F → F → Option F
  narrow zero f a b fa fb = none
  narrow (suc fuel) f a b fa fb =
      let c = fl.add a (fl.div (fl.mul (fl.sub a b) fa) (fl.sub fb fa)) in
      let fc = f c in
      elim (fl.lt epsilon (fl.abs (fl.sub b a))) [
        | false ↦ some a
        | true ↦ elim (fl.le (fl.mul fc fb) (fl.lit 0 0)) [
          | true ↦ narrow fuel f b c fb fc
          | false ↦ narrow fuel f a c (fl.div fa (fl.lit 2 0)) fc
        ]
      ]

  -- illinoisIter
  illinois_iter : ℕ → F → F → F → F → F → Option F
  unfolding volatility_at find_lower narrow
  illinois_iter fuel a delta phi v t =
      let f = volatility_at a delta phi v t in
      let d2 = square delta in
      let phi2 = square phi in
      let far = fl.log (fl.sub (fl.sub d2 phi2) v) in
      let start = if fl.lt (fl.add phi2 v) d2 then some far else find_lower fuel f a t 1 in
      elim start [ none ↦ none | some b ↦ narrow fuel f a b (f a) (f b) ]

  computed_of : F → MatchResult F → Computed F
  unfolding g_func e_func
  computed_of mu m =
      let mu_j = fl.div (fl.sub m.opponent.r default_rating) scale_to_glicko2 in
      let phi_j = fl.div m.opponent.rd scale_to_glicko2 in
      record {
        g = g_func phi_j;
        e = e_func mu mu_j phi_j;
        s = m.score;
        weight = if fl.eq m.weight (fl.lit 0 0) then fl.lit 1 0 else m.weight;
      }

  -- The sums over `comps`, from their start.
  variance_sum : F → List (Computed F) → F
  variance_sum v [] = v
  variance_sum v (c ∷ cs) =
      let part = fl.mul (fl.mul (fl.mul c.weight c.g) c.g) c.e in
      variance_sum (fl.add v (fl.mul part (fl.sub (fl.lit 1 0) c.e))) cs

  improvement_sum : F → List (Computed F) → F
  improvement_sum d [] = d
  improvement_sum d (c ∷ cs) =
      improvement_sum (fl.add d (fl.mul (fl.mul c.weight c.g) (fl.sub c.s c.e))) cs

  -- The branch of Apply without results.
  idle : Rating F → Rating F
  idle p =
      let grown = fl.sqrt (fl.add (square p.rd) (square p.sigma)) in
      record { r = p.r; rd = if fl.lt max_rd grown then max_rd else grown; sigma = p.sigma }

  -- Steps 6 to 8 and the clamp.
  updated : F → F → F → F → F → Rating F
  updated mu phi v sum_ge sigma_new =
      let phi_star = fl.sqrt (fl.add (square phi) (square sigma_new)) in
      let one = fl.lit 1 0 in
      let phi_new = fl.div one (fl.sqrt (fl.add (fl.div one (square phi_star)) (fl.div one v))) in
      let mu_new = fl.add mu (fl.mul (square phi_new) sum_ge) in
      record {
        r = fl.add (fl.mul scale_to_glicko2 mu_new) default_rating;
        rd = fl.larger min_rd (fl.smaller max_rd (fl.mul phi_new scale_to_glicko2));
        sigma = sigma_new;
      }

  -- Apply
  unfoldable pub apply : ℕ → Rating F → List (MatchResult F) → F → Option (Rating F)
  unfolding idle computed_of variance_sum improvement_sum illinois_iter updated
  apply fuel p [] t = some (idle p)
  apply fuel p (m ∷ ms) t =
      let mu = fl.div (fl.sub p.r default_rating) scale_to_glicko2 in
      let phi = fl.div p.rd scale_to_glicko2 in
      let comps = map (computed_of mu) (m ∷ ms) in
      let v = fl.div (fl.lit 1 0) (variance_sum (fl.lit 0 0) comps) in
      let sum_ge = improvement_sum (fl.lit 0 0) comps in
      let a = fl.log (square p.sigma) in
      elim (illinois_iter fuel a (fl.mul sum_ge v) phi v t) [
        | none ↦ none
        | some x ↦ some (updated mu phi v sum_ge (fl.exp (fl.div x (fl.lit 2 0))))
      ]
