-- ===== src/Pipeline/Runner/Digits.antt =====
-- strconv, as internal/pipeline uses it: decimal numerals are read back as what they were written for.
use sayari.Prelude.{
  ℕ, zero, suc, ◌+◌, ◌-◌, ◌*◌, ◌/◌, ◌%◌, ◌^◌, ◌≤◌, ◌<◌, ◌≡◌, refl, sym, ◌∙◌, ap, Bool-cases, true,
  false, some, [], ◌∷◌, Text, leb, ltb, inl, inr, pos, arith, ◌==◌,
}
use sayari.Strings.{digits, atoi}
use sayari.Pipeline.Jobs.{format_digits, format_int}

digits-step : (a m : ℕ) (s : Text) → m ≤ 9 → digits a ((48 + m) ∷ s) ≡ digits (10 * a + m) s
unfolding digits
digits-step a m s h =
    let low : leb 48 (48 + m) ≡ true = ground arith in
    let high : leb (48 + m) 57 ≡ true = ground (arith, h) in
    let back : 48 + m - 48 ≡ m = omega arith in rw (low, high, back) refl

digits-format_digits :
    (fuel n : ℕ) (rest : Text) → n < fuel → digits 0 (format_digits fuel n rest) ≡ digits n rest
unfolding format_digits
digits-format_digits zero n rest h = absurd (omega (arith, h))
digits-format_digits (suc fuel) n rest h = elim (Bool-cases (ltb n 10)) [
  | inl one ↦
      let same : 10 * 0 + n ≡ n = omega arith in
      rw one (digits-step 0 n rest (ground (arith, one)) ∙ ap (λ m. digits m rest) same)
  | inr more ↦
      let whole : 10 * (n / 10) + n % 10 ≡ n = omega arith in
      let ten : 10 ≤ n = ground (arith, more) in
      rw more (
        digits-format_digits fuel (n / 10) ((48 + n % 10) ∷ rest) (omega (arith, h, ten))
        ∙ (digits-step (n / 10) (n % 10) rest (omega arith) ∙ ap (λ m. digits m rest) whole))
]

-- A numeral starts with a digit.
format_digits-head :
    (fuel n : ℕ) (rest : Text)
    → n < fuel
    → (m : ℕ) × ((s : Text) × ((format_digits fuel n rest ≡ (48 + m) ∷ s)))
unfolding format_digits
format_digits-head zero n rest h = absurd (omega (arith, h))
format_digits-head (suc fuel) n rest h = elim (Bool-cases (ltb n 10)) [
  | inl one ↦ (n, (rest, rw one refl))
  | inr more ↦
      let ten : 10 ≤ n = ground (arith, more) in
      let later = format_digits-head fuel (n / 10) ((48 + n % 10) ∷ rest) (omega (arith, h, ten)) in
      (later.0, (later.1.0, rw more later.1.1))
]

unsigned_numeral :
    (m n : ℕ) (s : Text)
    → n < 2 ^ 63
    → digits 0 ((48 + m) ∷ s) ≡ some n
    → atoi ((48 + m) ∷ s) ≡ some (pos n)
unfolding atoi
unsigned_numeral m n s h e =
    let minus : (48 + m == b'-') ≡ false = ground arith in
    let plus : (48 + m == b'+') ≡ false = ground arith in
    let fits : ltb n (2 ^ 63) ≡ true = ground (arith, h) in rw (minus, plus, e, fits) refl

-- A number below 2^63 that is written in decimal, as in a consumer's name or the key of a classify
-- message, is read back as itself.
pub atoi-format_int : (n : ℕ) → n < 2 ^ 63 → atoi (format_int n) ≡ some (pos n)
unfolding format_int digits
atoi-format_int n h =
    let head = format_digits-head (suc n) n [] (omega arith) in
    let read : digits 0 (format_digits (suc n) n []) ≡ some n =
      digits-format_digits (suc n) n [] (omega arith) in
    rw head.1.1 (unsigned_numeral head.0 n head.1.0 h (rw head.1.1 at read))

-- Two numbers that are written alike are the same.
pub format_int-injective : (a b : ℕ) → format_int a ≡ format_int b → a ≡ b
unfolding format_int digits
format_int-injective a b e =
    let ra : digits 0 (format_digits (suc a) a []) ≡ some a =
      digits-format_digits (suc a) a [] (omega arith) in
    let rb : digits 0 (format_digits (suc b) b []) ≡ some b =
      digits-format_digits (suc b) b [] (omega arith) in
    let same : some a ≡ some b = sym ra ∙ (ap (digits 0) e ∙ rb) in cc
