-- ===== src/ResultScore/Laws.antt =====
-- internal/resultscore/score.go: what `Parse` and `Validate` accept.
use squash_bot.Prelude.{
  ℕ, zero, suc, ◌+◌, ◌-◌, ◌*◌, ◌/◌, ◌%◌, ◌≤◌, ◌<◌, ◌≡◌, ◌≢◌, ◌⊎◌, ◌↔◌, inl, inr, refl, Option, none,
  some, true, [], ◌∷◌, ◌++◌, length, ℤ, pos, arith,
}
use squash_bot.Prelude.Text.{Text, is_digit, cut, atoi, itoa, read_digits, digits}
use squash_bot.Prelude.Text.Decimal.{atoi-itoa}
use squash_bot.ResultScore.{
  all_digits, parse_side, parse, winner_known, score_agrees, check_score, validate,
}

abbrev pow10 : ℕ → ℕ
pow10 zero = 1
pow10 (suc k) = 10 * pow10 k

pow10_pos : (k : ℕ) → 0 < pow10 k
pow10_pos zero = omega arith
pow10_pos (suc k) = omega (arith, pow10_pos k)

le-mul : (b p : ℕ) → 0 < p → b ≤ b * p
le-mul b zero h = absurd (omega arith)
le-mul b (suc p) h = omega arith

-- Digits are always read, and k of them behind a number below b give one below b * 10 ^ k.
read_digits_bound :
    (s : Text) (k n b : ℕ)
    → all_digits s ≡ true
    → length s ≤ k
    → n < b
    → (r : ℕ) × (read_digits n s ≡ some r) × (r < b * pow10 k)
unfolding read_digits all_digits
read_digits_bound [] k n b d l h = (n, refl, omega (arith, le-mul b (pow10 k) (pow10_pos k)))
read_digits_bound (c ∷ s) zero n b d l h = absurd (omega arith)
read_digits_bound (c ∷ s) (suc k) n b d l h =
    let digit : is_digit c ≡ true = ground arith in
    let (r, e, lt) =
      read_digits_bound s k (n * 10 + (c - b'0')) (b * 10) (ground arith) (omega arith)
        (unfold is_digit in ground arith) in
    (r, ground arith, omega arith)

atoi-digits :
    (s : Text)
    → all_digits s ≡ true
    → length s ≢ 0
    → length s ≤ 6
    → (r : ℕ) × (atoi s ≡ some (pos r)) × (r ≤ 999999)
unfolding atoi
atoi-digits [] d n l = absurd (n refl)
atoi-digits (c ∷ s) d n l =
    let (r, e, lt) = read_digits_bound (c ∷ s) 6 0 1 d l (omega arith) in
    (r, ground arith, omega arith)

parse_side_bound : (s : Text) {a : ℤ} → parse_side s ≡ some a → (r : ℕ) × (a ≡ pos r) × (r ≤ 999999)
unfolding parse_side
parse_side_bound s h =
    let (r, e, le) = atoi-digits s (ground arith) (ground arith) (ground arith) in
    (r, ground arith, le)

-- Each side of a score that `Parse` accepts is a number from 0 to 999999.
pub parse_bounds :
    (score : Text) {a b : ℤ}
    → parse score ≡ some (a, b)
    → (x : ℕ) × (y : ℕ) × (a ≡ pos x) × (b ≡ pos y) × (x ≤ 999999) × (y ≤ 999999)
unfolding parse
parse_bounds score {a} {b} h = go (cut score b':') refl
  where
    go :
        (c : Option (Text × Text))
        → cut score b':' ≡ c
        → (x : ℕ) × (y : ℕ) × (a ≡ pos x) × (b ≡ pos y) × (x ≤ 999999) × (y ≤ 999999)
    go none e = cc
    go (some (l, r)) e =
        let hl : parse_side l ≡ some a = ground arith in
        let hr : parse_side r ≡ some b = ground arith in
        let (x, ex, bx) = parse_side_bound l hl in
        let (y, ey, by) = parse_side_bound r hr in (x, y, ex, ey, bx, by)

all_digits-digits :
    (f n : ℕ) (out : Text) → all_digits out ≡ true → all_digits (digits f n out) ≡ true
unfolding digits all_digits is_digit
all_digits-digits zero n out h = h
all_digits-digits (suc f) n out h =
    ground (arith, all_digits-digits f (n / 10) ((b'0' + n % 10) ∷ out))

length-digits :
    (f n k : ℕ) (out : Text) → n < pow10 k → 0 < k → length (digits f n out) ≤ k + length out
unfolding digits
length-digits zero n k out h p = omega arith
length-digits (suc f) n zero out h p = absurd (omega arith)
length-digits (suc f) n (suc zero) out h p = ground arith
length-digits (suc f) n (suc (suc k)) out h p =
    ground (arith, length-digits f (n / 10) (suc k) ((b'0' + n % 10) ∷ out))

digits-ne-nil : (f n : ℕ) (out : Text) → length out < length (digits (suc f) n out)
unfolding digits
digits-ne-nil zero n out = ground arith
digits-ne-nil (suc f) n out = ground (arith, digits-ne-nil f (n / 10) ((b'0' + n % 10) ∷ out))

parse_side-itoa : (n : ℕ) → n ≤ 999999 → parse_side (itoa (pos n)) ≡ some (pos n)
unfolding parse_side itoa
parse_side-itoa n h = ground (
  arith,
  atoi-itoa (pos n) (omega arith) (omega arith),
  all_digits-digits (suc n) n [],
  length-digits (suc n) n 6 [],
  digits-ne-nil n n [],
)

cut-append : (p s : Text) → all_digits p ≡ true → cut (p ++ b':' ∷ s) b':' ≡ some (p, s)
unfolding cut all_digits is_digit
cut-append [] s h = refl
cut-append (c ∷ p) s h = ground (arith, cut-append p s)

-- Two numbers up to 999999, printed with a colon between them, are parsed back.
pub parse-print :
    (x y : ℕ)
    → x ≤ 999999
    → y ≤ 999999
    → parse (itoa (pos x) ++ b':' ∷ itoa (pos y)) ≡ some (pos x, pos y)
unfolding parse
parse-print x y hx hy =
    rw
      (cut-append (itoa (pos x)) (itoa (pos y))
        (unfold itoa in all_digits-digits (suc x) x [] (unfold all_digits in refl)))
      (ground (arith, parse_side-itoa x hx, parse_side-itoa y hy))

-- The winner is one of the two players, or there is none.
abbrev pub IsPlayer : ℕ → ℕ → Option ℕ → Type 0
IsPlayer author opponent none = Unit
IsPlayer author opponent (some w) = (w ≡ author) ⊎ (w ≡ opponent)

-- A draw has equal sides, and a winner the higher one. The author's side is the left one.
abbrev pub Agrees : ℕ → ℕ → Option ℕ → ℕ → ℕ → Type 0
Agrees author opponent none x y = x ≡ y
Agrees author opponent (some w) x y = (w ≡ author → y < x) × (w ≡ opponent → x < y)

-- What a score says, if there is one.
abbrev pub ScoreFits : Text → ℕ → ℕ → Option ℕ → Type 0
ScoreFits score author opponent winner =
    (score ≡ [])
    ⊎ ((x : ℕ) × (y : ℕ) × (parse score ≡ some (pos x, pos y)) × Agrees author opponent winner x y)

winner_known_iff :
    (author opponent : ℕ) (winner : Option ℕ)
    → (winner_known author opponent winner ≡ true) ↔ IsPlayer author opponent winner
unfolding winner_known
winner_known_iff author opponent none = (λ _. tt, λ _. refl)
winner_known_iff author opponent (some w) = ground arith

score_agrees_iff :
    (author opponent : ℕ) (winner : Option ℕ) (x y : ℕ)
    → (score_agrees author opponent winner (pos x, pos y) ≡ true)
      ↔ Agrees author opponent winner x y
unfolding score_agrees
score_agrees_iff author opponent none x y = ground arith
score_agrees_iff author opponent (some w) x y = ground arith

check_score_sound :
    (score : Text) (author opponent : ℕ) (winner : Option ℕ)
    → check_score author opponent winner (parse score) ≡ some tt
    → (x : ℕ) × (y : ℕ) × (parse score ≡ some (pos x, pos y)) × Agrees author opponent winner x y
unfolding check_score
check_score_sound score author opponent winner h = go (parse score) refl
  where
    go :
        (p : Option (ℤ × ℤ))
        → parse score ≡ p
        → (x : ℕ) × (y : ℕ) × (parse score ≡ some (pos x, pos y))
          × Agrees author opponent winner x y
    go none e = ground arith
    go (some (a, b)) e =
        let (x, y, ea, eb, bx, by) = parse_bounds score e in
        let e' : parse score ≡ some (pos x, pos y) = ground arith in
        (x, y, e', (score_agrees_iff author opponent winner x y).0 (ground arith))

check_score_complete :
    (author opponent : ℕ) (winner : Option ℕ) (x y : ℕ)
    → Agrees author opponent winner x y
    → check_score author opponent winner (some (pos x, pos y)) ≡ some tt
unfolding check_score
check_score_complete author opponent winner x y h =
    rw ((score_agrees_iff author opponent winner x y).1 h)

-- `Validate` accepts exactly the results whose winner is nobody or one of the two players, and
-- whose score is empty, or is an N:M with equal sides in a draw and the winner's side higher
-- otherwise.
pub validate_iff :
    (score : Text) (author opponent : ℕ) (winner : Option ℕ)
    → (validate score author opponent winner ≡ some tt)
      ↔ (IsPlayer author opponent winner × ScoreFits score author opponent winner)
unfolding validate
validate_iff score author opponent winner = (sound score, complete score)
  where
    sound :
        (s : Text)
        → validate s author opponent winner ≡ some tt
        → IsPlayer author opponent winner × ScoreFits s author opponent winner
    sound [] h = ((winner_known_iff author opponent winner).0 (ground arith), inl refl)
    sound (c ∷ s) h = (
      (winner_known_iff author opponent winner).0 (ground arith),
      inr (check_score_sound (c ∷ s) author opponent winner (ground arith)),
    )

    complete :
        (s : Text)
        → IsPlayer author opponent winner × ScoreFits s author opponent winner
        → validate s author opponent winner ≡ some tt
    complete [] (p, _) = rw ((winner_known_iff author opponent winner).1 p)
    complete (c ∷ s) (p, inl e) = cc
    complete (c ∷ s) (p, inr (x, y, e, f)) =
        rw ((winner_known_iff author opponent winner).1 p, e)
          (check_score_complete author opponent winner x y f)
