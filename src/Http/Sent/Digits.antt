-- ===== src/Http/Sent/Digits.antt =====
-- The number at the front of a text, and its digits.
use atx_sys.Common.{
  ℕ, zero, suc, ◌+◌, ◌-◌, ◌*◌, ◌/◌, ◌%◌, ◌^◌, ◌≤◌, ◌<◌, ◌≡◌, ap, ◌∙◌, Bool, ◌&&◌, [], ◌∷◌, ◌++◌,
  append_assoc, leb, if◌then◌else◌, Bytes, decimal, decimal_as_int, ◌⊎◌, inl, inr, arith,
  digits_fuel,
}

abbrev is_digit : ℕ → Bool
is_digit c = leb b'0' c && leb c b'9'

-- The number that the digits at the front go on, and what stands behind them.
unfoldable pub read_number : ℕ → Bytes → ℕ × Bytes
read_number n [] = (n, [])
read_number n (c ∷ s) =
    let more : ℕ × Bytes = read_number (n * 10 + (c - b'0')) s in
    if is_digit c then more else (n, c ∷ s)

-- The powers of ten.
abbrev pow10 : ℕ → ℕ
pow10 zero = 1
pow10 (suc f) = 10 * pow10 f

read_number-digit :
    (m d : ℕ) (rest : Bytes)
    → d < 10
    → read_number m ((b'0' + d) ∷ rest) ≡ read_number (m * 10 + d) rest
unfolding read_number
read_number-digit m d rest h = grind arith

read_number-first :
    (n : ℕ) (rest : Bytes) → n < 10 → read_number 0 ((b'0' + n) ∷ rest) ≡ read_number n rest
read_number-first n rest h =
    let same : 0 * 10 + n ≡ n = omega arith in
    read_number-digit 0 n rest h ∙ ap (λ k. read_number k rest) same

read_number-tens :
    (n : ℕ) (rest : Bytes) → read_number (n / 10) ((b'0' + n % 10) ∷ rest) ≡ read_number n rest
read_number-tens n rest =
    let whole : n / 10 * 10 + n % 10 ≡ n = omega arith in
    read_number-digit (n / 10) (n % 10) rest (omega arith) ∙ ap (λ k. read_number k rest) whole

one_digit : (n : ℕ) → (n < 10) ⊎ (10 ≤ n)
one_digit n = ground arith

digits_fuel-small : (f n : ℕ) → n < 10 → digits_fuel (suc f) n ≡ (b'0' + n) ∷ []
unfolding digits_fuel
digits_fuel-small f n h = ground arith

digits_fuel-large :
    (f n : ℕ) → 10 ≤ n → digits_fuel (suc f) n ≡ digits_fuel f (n / 10) ++ (b'0' + n % 10) ∷ []
unfolding digits_fuel
digits_fuel-large f n h = ground arith

read_number-digits :
    (f n : ℕ) (rest : Bytes)
    → n < pow10 (suc f)
    → read_number 0 (digits_fuel (suc f) n ++ rest) ≡ read_number n rest
read_number-digits zero n rest lt =
    ap (λ s. read_number 0 (s ++ rest)) (digits_fuel-small zero n (omega arith))
    ∙ read_number-first n rest (omega arith)
read_number-digits (suc f) n rest lt =
    let less : n / 10 < pow10 (suc f) = ground arith in
    elim (one_digit n) [
      | inl h ↦
          ap (λ s. read_number 0 (s ++ rest)) (digits_fuel-small (suc f) n h)
          ∙ read_number-first n rest h
      | inr h ↦
          ap (λ s. read_number 0 (s ++ rest)) (digits_fuel-large (suc f) n h)
          ∙ ap (read_number 0)
              (append_assoc (digits_fuel (suc f) (n / 10)) ((b'0' + n % 10) ∷ []) rest)
          ∙ read_number-digits f (n / 10) ((b'0' + n % 10) ∷ rest) less
          ∙ read_number-tens n rest
    ]

pub read_number-decimal :
    (n : ℕ) (rest : Bytes) → n < 10 ^ 10 → read_number 0 (decimal n ++ rest) ≡ read_number n rest
unfolding decimal
read_number-decimal n rest h = read_number-digits 9 n rest h

decimal_as_int-small : (n : ℕ) → n < 2 ^ 31 → decimal_as_int n ≡ decimal n
unfolding decimal_as_int
decimal_as_int-small n h = ground arith

pub read_number-decimal_as_int :
    (n : ℕ) (rest : Bytes)
    → n < 2 ^ 31
    → read_number 0 (decimal_as_int n ++ rest) ≡ read_number n rest
read_number-decimal_as_int n rest h =
    ap (λ s. read_number 0 (s ++ rest)) (decimal_as_int-small n h)
    ∙ read_number-decimal n rest (omega arith)
