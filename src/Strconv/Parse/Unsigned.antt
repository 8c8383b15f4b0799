-- ===== src/Strconv/Parse/Unsigned.antt =====
-- `parseUint32` and `parseUint64` against the number that the text denotes.
use native.Mathlib.Nat.{mod-eq_of_lt}
use cupcake.Base.{
  ℕ, ◌+◌, ◌*◌, ◌/◌, ◌%◌, ◌≤◌, ◌≡◌, inl, inr, [], ◌∷◌, true, false, arith, Option-cases, Bool-cases,
  Bytes,
}
use cupcake.Strconv.Digit.{digit_value, digit_value-lt_16}
use cupcake.Strconv.Numeral.{
  numeral, at_most, is_radix, bounded_numeral, at_most-numeral, mul-le_of_le-div, lt-mul_of_div-lt,
  zero-mul-add,
}
use cupcake.Strconv.Parse.{
  uint32_max, uint64_max, uint_loop, parse_uint, parse_uint32, parse_uint64,
}

mod_of_le : (n max : ℕ) → n ≤ max → n % (max + 1) ≡ n
mod_of_le n max h = mod-eq_of_lt (omega arith)

module _ (max radix : ℕ) (room : 15 ≤ max) (base : 1 ≤ radix) where
  uint_loop-numeral :
      (result : ℕ) (cs : Bytes)
      → result ≤ max
      → uint_loop max (max / radix) radix result cs ≡ at_most max (numeral radix result cs)
  unfolding uint_loop
  uint_loop-numeral result [] h = ground arith
  uint_loop-numeral result (c ∷ cs) h = elim (Option-cases (digit_value radix c)) [
    | inl n ↦ ground arith
    | inr (d, n) ↦ ground (
      arith,
      digit_value-lt_16 radix c n,
      mul-le_of_le-div max radix result,
      lt-mul_of_div-lt max radix result base,
      mod_of_le (result * radix) max,
      mod_of_le (result * radix + d) max,
      at_most-numeral max radix (result * radix + d) cs base,
      uint_loop-numeral (result * radix + d) cs,
    )
  ]

  parse_uint-numeral :
      (str : Bytes)
      → is_radix radix ≡ true
      → parse_uint max str radix ≡ bounded_numeral max radix str
  unfolding parse_uint
  parse_uint-numeral [] h = ground arith
  parse_uint-numeral (c ∷ cs) h = elim (Option-cases (digit_value radix c)) [
    | inl n ↦ ground arith
    | inr (d, n) ↦
        ground (arith, digit_value-lt_16 radix c n, uint_loop-numeral d cs, zero-mul-add radix d)
  ]

parse_uint_bad_radix :
    (max radix : ℕ) (str : Bytes)
    → is_radix radix ≡ false
    → parse_uint max str radix ≡ bounded_numeral max radix str
unfolding parse_uint
parse_uint_bad_radix max radix [] h = ground arith
parse_uint_bad_radix max radix (c ∷ cs) h = ground arith

parse_uint-bounded_numeral :
    (max : ℕ) (str : Bytes) (radix : ℕ)
    → 15 ≤ max
    → parse_uint max str radix ≡ bounded_numeral max radix str
parse_uint-bounded_numeral max str radix h = elim (Bool-cases (is_radix radix)) [
  | inl good ↦ parse_uint-numeral max radix h (ground arith) str good
  | inr bad ↦ parse_uint_bad_radix max radix str bad
]

-- For every text and every radix, `parseUint32` gives the number that the text denotes, and fails
-- exactly if the radix is not 2 to 16, the text is empty, some byte is no digit of the radix, or
-- the number is above `UINT32_MAX`.
pub parse_uint32-bounded_numeral :
    (str : Bytes) (radix : ℕ) → parse_uint32 str radix ≡ bounded_numeral uint32_max radix str
unfolding parse_uint32
parse_uint32-bounded_numeral str radix =
    parse_uint-bounded_numeral uint32_max str radix (omega arith)

-- For every text and every radix, `parseUint64` gives the number that the text denotes, and fails
-- exactly if the radix is not 2 to 16, the text is empty, some byte is no digit of the radix, or
-- the number is above `UINT64_MAX`.
pub parse_uint64-bounded_numeral :
    (str : Bytes) (radix : ℕ) → parse_uint64 str radix ≡ bounded_numeral uint64_max radix str
unfolding parse_uint64
parse_uint64-bounded_numeral str radix =
    parse_uint-bounded_numeral uint64_max str radix (omega arith)
