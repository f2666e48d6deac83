-- ===== src/Prelude/Text/Decimal.antt =====
-- `strconv.Atoi` reads back what `strconv.Itoa` writes.
use Prim.Native.Nat.{ℕ, zero, suc, ◌+◌, ◌*◌, ◌/◌, ◌%◌, ◌^◌, ◌≤◌, ◌<◌}
use mathlib.Core.Path.{◌≡◌, refl, sym, ap, ◌∙◌}
use mathlib.Core.Logic.{inl, inr}
use mathlib.Core.List.{[], ◌∷◌}
use mathlib.Core.Option.{some}
use native.Mathlib.Omega.{arith}
use squash_bot.Prelude.Tests.{ltb, Bool-cases}
use squash_bot.Prelude.Int.{ℤ, pos, negsuc, pos_part, neg_part}
use squash_bot.Prelude.Text.{
  Text, read_digits, magnitude, to_positive, to_negative, atoi, digits, itoa,
}

read_digits-cons :
    (m d : ℕ) (out : Text)
    → d < 10
    → read_digits m ((b'0' + d) ∷ out) ≡ read_digits (m * 10 + d) out
unfolding read_digits
read_digits-cons m d out h = ground arith

read_digits-digits :
    (f n : ℕ) (out : Text) → n < f → read_digits 0 (digits f n out) ≡ read_digits n out
unfolding digits
read_digits-digits zero n out h = absurd (omega arith)
read_digits-digits (suc f) n out h = ground (
  arith,
  read_digits-digits f (n / 10) ((b'0' + n % 10) ∷ out),
  read_digits-cons (n / 10) (n % 10) out,
  read_digits-cons 0 n out,
)

-- The print begins with a digit.
digits-head :
    (f n : ℕ) (out : Text)
    → n < f
    → (c : ℕ) × (s : Text) × (digits f n out ≡ c ∷ s) × (b'0' ≤ c) × (c ≤ b'9')
unfolding digits
digits-head zero n out h = absurd (omega arith)
digits-head (suc f) n out h = elim (Bool-cases (ltb n 10)) [
  | inl e ↦ (b'0' + n, out, rw e, omega arith, ground arith)
  | inr e ↦
      let (c, s, p, lo, hi) = digits-head f (n / 10) ((b'0' + n % 10) ∷ out) (ground arith) in
      (c, s, rw e p, lo, hi)
]

magnitude-digits : (f n : ℕ) → n < f → magnitude (digits f n []) ≡ some n
unfolding magnitude
magnitude-digits f n h =
    let (c, s, p, lo, hi) = digits-head f n [] h in
    ap magnitude p ∙ (ap (read_digits 0) (sym p) ∙ read_digits-digits f n [] h)

-- No sign stands in front of a digit.
atoi_unsigned : (c : ℕ) (s : Text) → b'0' ≤ c → atoi (c ∷ s) ≡ to_positive (magnitude (c ∷ s))
unfolding atoi
atoi_unsigned c s h = ground arith

-- A 64-bit integer is read back from its print.
pub atoi-itoa : (a : ℤ) → pos_part a < 2 ^ 63 → neg_part a ≤ 2 ^ 63 → atoi (itoa a) ≡ some a
unfolding itoa
atoi-itoa (pos n) hp hn =
    let (c, s, p, lo, hi) = digits-head (suc n) n [] (omega arith) in
    ap atoi p
    ∙ (atoi_unsigned c s lo
        ∙ (ap (λ t. to_positive (magnitude t)) (sym p)
            ∙ (ap to_positive (magnitude-digits (suc n) n (omega arith))
                ∙ unfold to_positive in ground arith)))
atoi-itoa (negsuc n) hp hn =
    let step : atoi (itoa (negsuc n)) ≡ to_negative (magnitude (digits (suc (suc n)) (suc n) [])) =
      unfold atoi itoa in refl in
    step
    ∙ (ap to_negative (magnitude-digits (suc (suc n)) (suc n) (omega arith))
        ∙ unfold to_negative in ground arith)
