-- ===== src/Strconv/Decimal/Signed.antt =====
-- The printers for radix 10 against the decimal text of the number.
use cupcake.Base.{ℕ, suc, ◌+◌, ◌<◌, ◌≡◌, refl, sym, ◌∙◌, arith, ap}
use cupcake.Base.Int.{ℤ, pos, negsuc}
use cupcake.Strconv.Buffer.{Prints, negative-Prints}
use cupcake.Strconv.Digit.{value_as_char}
use cupcake.Strconv.ParseInt.{int32_max, int64_max}
use cupcake.Strconv.Table.{int32_min_str, int64_min_str}
use cupcake.Strconv.Text.{text, signed_text, InRange}
use cupcake.Strconv.Decimal.Digits.{
  decimal_length_le, digits_base10_uint32-length, digits_base10_uint64-length,
}
use cupcake.Strconv.Decimal.Pairs.{print_digits-Prints}
use cupcake.Strconv.Decimal.{uint32_to_str, uint64_to_str, int32_to_str, int64_to_str}

-- For every `uint32_t` and buffer with room for its decimal text, the `uint32ToStr` for radix 10 writes
-- that text at the front, leaves the rest of the buffer alone, and returns the length of the text.
pub uint32_to_str-Prints : (v : ℕ) → v < 4294967296 → Prints (uint32_to_str v) (text 10 v)
unfolding uint32_to_str
uint32_to_str-Prints v h =
    let len = digits_base10_uint32-length v h in
    print_digits-Prints _ v len (omega (arith, decimal_length_le 9 v))

-- For every `uint64_t` and buffer with room for its decimal text, the `uint64ToStr` for radix 10 writes
-- that text at the front, leaves the rest of the buffer alone, and returns the length of the text.
pub uint64_to_str-Prints : (v : ℕ) → v < 18446744073709551616 → Prints (uint64_to_str v) (text 10 v)
unfolding uint64_to_str
uint64_to_str-Prints v h =
    let len = digits_base10_uint64-length v h in
    print_digits-Prints _ v len (omega (arith, decimal_length_le 19 v))

int32_min_text : int32_min_str ≡ signed_text 10 (negsuc int32_max)
unfolding text value_as_char
int32_min_text = refl

int64_min_text : int64_min_str ≡ signed_text 10 (negsuc int64_max)
unfolding text value_as_char
int64_min_text = refl

-- For every `int32_t`, `INT32_MIN` included, and buffer with room for its decimal text, the
-- `int32ToStr` for radix 10 writes that text at the front, leaves the rest of the buffer alone, and
-- returns the length of the text.
pub int32_to_str-Prints :
    (v : ℤ) → InRange 2147483648 v → Prints (int32_to_str v) (signed_text 10 v)
unfolding int32_to_str
int32_to_str-Prints (pos n) h = uint32_to_str-Prints n (omega arith)
int32_to_str-Prints (negsuc n) h =
    negative-Prints n int32_max int32_min_str (uint32_to_str (n + 1)) (text 10 (suc n))
      (λ e. int32_min_text ∙ ap (λ m. signed_text 10 (negsuc m)) (sym e))
      (λ e.
        let same : n + 1 ≡ suc n = omega arith in
        rw same (uint32_to_str-Prints (suc n) (omega arith)))

-- For every `int64_t`, `INT64_MIN` included, and buffer with room for its decimal text, the
-- `int64ToStr` for radix 10 writes that text at the front, leaves the rest of the buffer alone, and
-- returns the length of the text.
pub int64_to_str-Prints :
    (v : ℤ) → InRange 9223372036854775808 v → Prints (int64_to_str v) (signed_text 10 v)
unfolding int64_to_str
int64_to_str-Prints (pos n) h = uint64_to_str-Prints n (omega arith)
int64_to_str-Prints (negsuc n) h =
    negative-Prints n int64_max int64_min_str (uint64_to_str (n + 1)) (text 10 (suc n))
      (λ e. int64_min_text ∙ ap (λ m. signed_text 10 (negsuc m)) (sym e))
      (λ e.
        let same : n + 1 ≡ suc n = omega arith in
        rw same (uint64_to_str-Prints (suc n) (omega arith)))
