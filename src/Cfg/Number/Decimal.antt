-- ===== src/Cfg/Number/Decimal.antt =====
-- Numbers as their digits.
use tcp_svr.Base.{
  ℕ, zero, suc, ◌+◌, ◌-◌, ◌*◌, ◌/◌, ◌%◌, ◌^◌, ◌≤◌, ◌<◌, Bytes, [], ◌∷◌, ◌++◌, some, length,
  length-append, ℤ, pos, negsuc, Bool, true, false, ◌==◌, leb, ltb, ◌&&◌, ◌≡◌, refl, ap, arith, inl,
  inr, Bool-cases,
}
use tcp_svr.Cfg.Text.{is_space}
use tcp_svr.Cfg.Number.{
  decimal_from, decimal, print_number, is_digit, digits_value, skip_spaces, int_of, signed_value,
  atoi,
}

unfoldable pub all_digits : Bytes → Bool
all_digits [] = true
all_digits (b ∷ bs) = is_digit b && all_digits bs

all_digits-snoc :
    (s : Bytes) (b : ℕ) → all_digits s ≡ true → is_digit b ≡ true → all_digits (s ++ b ∷ []) ≡ true
unfolding all_digits
all_digits-snoc [] b p q = rw q refl
all_digits-snoc (x ∷ s) b p q =
    let here : is_digit x ≡ true = ground arith in
    let later : all_digits s ≡ true = ground arith in rw (here, all_digits-snoc s b later q) refl

digit : (n : ℕ) → n < 10 → is_digit (b'0' + n) ≡ true
unfolding is_digit
digit n h = ground arith

pub decimal_from-digits : (fuel n : ℕ) → all_digits (decimal_from fuel n) ≡ true
unfolding decimal_from all_digits
decimal_from-digits zero n = refl
decimal_from-digits (suc fuel) n = elim (Bool-cases (ltb n 10)) [
  | inl small ↦ let low : n < 10 = ground arith in rw (small, decimal_from, digit n low) refl
  | inr large ↦
      let low : n % 10 < 10 = omega arith in
      rw (large, decimal_from)
        (all_digits-snoc (decimal_from fuel (n / 10)) (b'0' + n % 10)
          (decimal_from-digits fuel (n / 10)) (digit (n % 10) low))
]

digits_value-snoc :
    (acc : ℕ) (s : Bytes) (n : ℕ)
    → all_digits s ≡ true
    → n < 10
    → digits_value acc (s ++ (b'0' + n) ∷ []) ≡ digits_value acc s * 10 + n
unfolding digits_value all_digits
digits_value-snoc acc [] n p h = rw (digit n h) (omega arith)
digits_value-snoc acc (b ∷ s) n p h =
    let here : is_digit b ≡ true = ground arith in
    let later : all_digits s ≡ true = ground arith in
    rw here (digits_value-snoc (acc * 10 + (b - b'0')) s n later h)

pub digits_value-decimal_from : (fuel n : ℕ) → n < fuel → digits_value 0 (decimal_from fuel n) ≡ n
unfolding decimal_from digits_value
digits_value-decimal_from zero n h = absurd (omega arith)
digits_value-decimal_from (suc fuel) n h = elim (Bool-cases (ltb n 10)) [
  | inl small ↦
      let low : n < 10 = ground arith in rw (small, decimal_from, digit n low) (omega arith)
  | inr large ↦
      let low : n % 10 < 10 = omega arith in
      let high : 10 ≤ n = ground arith in
      let smaller : n / 10 < fuel = omega arith in
      rw
        (
          large,
          decimal_from,
          digits_value-snoc 0 (decimal_from fuel (n / 10)) (n % 10)
              (decimal_from-digits fuel (n / 10)) low,
          digits_value-decimal_from fuel (n / 10) smaller,
        )
        (omega arith)
]

unfoldable pub powers : ℕ → ℕ
powers zero = 1
powers (suc k) = 10 * powers k

pub length-decimal_from : (fuel k n : ℕ) → n < powers (suc k) → length (decimal_from fuel n) ≤ suc k
unfolding decimal_from powers
length-decimal_from zero k n h = omega arith
length-decimal_from (suc fuel) zero n h =
    let small : ltb n 10 ≡ true = ground arith in rw (small, decimal_from) (omega arith)
length-decimal_from (suc fuel) (suc k) n h = elim (Bool-cases (ltb n 10)) [
  | inl small ↦ rw (small, decimal_from) (omega arith)
  | inr large ↦
      rw (large, decimal_from)
        (omega (
          arith,
          length-append (decimal_from fuel (n / 10)) ((b'0' + n % 10) ∷ []),
          length-decimal_from fuel k (n / 10) (omega arith),
        ))
]

-- The numbers of an `int`.
unfoldable pub InInt : ℤ → Type 0
InInt (pos n) = n < 2 ^ 31
InInt (negsuc n) = n < 2 ^ 31

pub length-print_number : (v : ℤ) → InInt v → length (print_number v) < 64
unfolding print_number decimal InInt powers
length-print_number (pos n) h = omega (arith, length-decimal_from (suc n) 9 n (omega arith))
length-print_number (negsuc n) h =
    omega (arith, length-decimal_from (suc (suc n)) 9 (suc n) (omega arith))

atoi-digits :
    (s : Bytes) (n : ℕ)
    → all_digits s ≡ true
    → digits_value 0 s ≡ n
    → n < 2 ^ 31
    → atoi s ≡ some (pos n)
unfolding atoi signed_value skip_spaces all_digits int_of is_digit digits_value
atoi-digits [] n p e h = ap (λ k. some (pos k)) e
atoi-digits (b ∷ s) n p e h =
    let space : is_space b ≡ false = ground arith in
    let minus : (b == b'-') ≡ false = ground arith in
    let plus : (b == b'+') ≡ false = ground arith in
    let fits : ltb n (2 ^ 31) ≡ true = ground arith in rw (space, minus, plus, e, fits) refl

-- `atoi` reads what `%d` prints.
pub atoi-print_number : (v : ℤ) → InInt v → atoi (print_number v) ≡ some v
unfolding print_number decimal InInt atoi signed_value skip_spaces int_of
atoi-print_number (pos n) h =
    atoi-digits (decimal n) n (decimal_from-digits (suc n) n)
      (digits_value-decimal_from (suc n) n (omega arith)) h
atoi-print_number (negsuc n) h =
    let fits : leb (suc n) (2 ^ 31) ≡ true = ground arith in
    rw (digits_value-decimal_from (suc (suc n)) (suc n) (omega arith), fits) refl
