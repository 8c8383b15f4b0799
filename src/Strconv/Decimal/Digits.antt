-- ===== src/Strconv/Decimal/Digits.antt =====
-- `digitsBase10` is the length of the decimal text.
use native.Mathlib.Nat.{pow-suc, div-div-eq-div-mul, mul_comm}
use cupcake.Base.{
  ℕ, zero, suc, ◌+◌, ◌/◌, ◌%◌, ◌^◌, ◌≤◌, ◌<◌, ◌≡◌, ap, [], ◌∷◌, arith, length, length-append,
}
use cupcake.Strconv.Digit.{value_as_char}
use cupcake.Strconv.Text.{text, text_small, text_step}
use cupcake.Strconv.Decimal.{digits_base10_uint32, digits_base10_low, digits_base10_uint64}

abbrev pub decimal_length : ℕ → ℕ
decimal_length v = length (text 10 v)

decimal_length_small : (v : ℕ) → v < 10 → decimal_length v ≡ 1
decimal_length_small v h = ap length (text_small 10 (omega arith) v h)

decimal_length_step : (v : ℕ) → 10 ≤ v → decimal_length v ≡ suc (decimal_length (v / 10))
decimal_length_step v h = omega (
  arith,
  ap length (text_step 10 (omega arith) v h),
  length-append (text 10 (v / 10)) (value_as_char (v % 10) ∷ []),
)

pow_pos : (k : ℕ) → 0 < 10 ^ k
pow_pos zero = omega arith
pow_pos (suc k) = omega (arith, pow-suc 10 k, pow_pos k)

pub decimal_length_le : (k v : ℕ) → v < 10 ^ suc k → decimal_length v ≤ suc k
decimal_length_le zero v h = omega (arith, decimal_length_small v h)
decimal_length_le (suc k) v h = ground (
  arith,
  decimal_length_small v,
  decimal_length_step v,
  pow-suc 10 (suc k),
  decimal_length_le k (v / 10),
)

-- k digits come off at once.
decimal_length_shift : (k v : ℕ) → 10 ^ k ≤ v → decimal_length v ≡ k + decimal_length (v / 10 ^ k)
decimal_length_shift zero v h = let whole : v / 10 ^ 0 ≡ v = omega arith in rw whole (omega arith)
decimal_length_shift (suc k) v h = ground (
  arith,
  decimal_length_step v,
  pow-suc 10 k,
  mul_comm 10 (10 ^ k),
  pow_pos k,
  div-div-eq-div-mul v 10 (10 ^ k),
  decimal_length_shift k (v / 10),
)

pub decimal_length_pos : (v : ℕ) → 0 < decimal_length v
decimal_length_pos v = grind (arith, decimal_length_small, decimal_length_step)

decimal_length_exact : (k v : ℕ) → 10 ^ k ≤ v → v < 10 ^ suc k → decimal_length v ≡ suc k
decimal_length_exact k v l h =
    omega
      (arith, decimal_length_le k v h, decimal_length_shift k v l, decimal_length_pos (v / 10 ^ k))

-- `digitsBase10` of a `uint32_t` is the length of its decimal text.
pub digits_base10_uint32-length :
    (v : ℕ) → v < 4294967296 → digits_base10_uint32 v ≡ decimal_length v
unfolding digits_base10_uint32
digits_base10_uint32-length v h = ground (
  arith,
  decimal_length_small v,
  decimal_length_exact 1 v,
  decimal_length_exact 2 v,
  decimal_length_exact 3 v,
  decimal_length_exact 4 v,
  decimal_length_exact 5 v,
  decimal_length_exact 6 v,
  decimal_length_exact 7 v,
  decimal_length_exact 8 v,
  decimal_length_exact 9 v,
)

digits_base10_low-length :
    (v : ℕ) → 1000 ≤ v → v < 1000000000000 → digits_base10_low v ≡ decimal_length v
unfolding digits_base10_low
digits_base10_low-length v l h = ground (
  arith,
  decimal_length_exact 3 v,
  decimal_length_exact 4 v,
  decimal_length_exact 5 v,
  decimal_length_exact 6 v,
  decimal_length_exact 7 v,
  decimal_length_exact 8 v,
  decimal_length_exact 9 v,
  decimal_length_exact 10 v,
  decimal_length_exact 11 v,
)

digits_base10_uint64_last :
    (f v : ℕ) → v < 1000000000000 → digits_base10_uint64 (suc f) v ≡ decimal_length v
unfolding digits_base10_uint64
digits_base10_uint64_last f v h = ground (
  arith,
  decimal_length_small v,
  decimal_length_exact 1 v,
  decimal_length_exact 2 v,
  digits_base10_low-length v,
)

-- `digitsBase10` of a `uint64_t` is the length of its decimal text, after one call of itself at most.
pub digits_base10_uint64-length :
    (v : ℕ) → v < 18446744073709551616 → digits_base10_uint64 2 v ≡ decimal_length v
unfolding digits_base10_uint64
digits_base10_uint64-length v h = ground (
  arith,
  digits_base10_uint64_last 1 v,
  digits_base10_uint64_last 0 (v / 1000000000000),
  decimal_length_shift 12 v,
)
