-- ===== src/Strconv/Parse.antt =====
-- `parseUint32` and `parseUint64`. The pair `(0, false)` is `none` and `(v, true)` is `some v`.
-- The index `i` is the part of the text that is left.
pub mod Unsigned
use cupcake.Base.{
  ℕ, ◌+◌, ◌-◌, ◌*◌, ◌/◌, ◌%◌, ◌^◌, ◌||◌, List, [], ◌∷◌, Option, none, some, ltb, if◌then◌else◌,
  ◌>>=◌, Bytes,
}
use cupcake.Strconv.Digit.{digit_value}

abbrev pub uint32_max : ℕ
uint32_max = 4294967295

abbrev pub uint64_max : ℕ
uint64_max = 18446744073709551615

-- `while (i < strLen)`: the remaining digits. Products and sums wrap at `max + 1`.
pub uint_loop : ℕ → ℕ → ℕ → ℕ → Bytes → Option ℕ
uint_loop max multmin radix result [] = some result
uint_loop max multmin radix result (c ∷ cs) = elim (digit_value radix c) [
  | none ↦ none
  | some d ↦
      if ltb multmin result
      then none
      else let scaled = (result * radix) % (max + 1) in
        let rest = uint_loop max multmin radix ((scaled + d) % (max + 1)) cs in
        if ltb (max - d) scaled then none else rest
]

-- The body of both parsers, `max` being `UINT32_MAX` or `UINT64_MAX`.
pub parse_uint : ℕ → Bytes → ℕ → Option ℕ
parse_uint max str radix = if ltb radix 2 || ltb 16 radix then none else elim str [
  | [] ↦ none
  | c ∷ cs ↦ do d ← digit_value radix c; uint_loop max (max / radix) radix d cs
]

unfoldable pub parse_uint32 : Bytes → ℕ → Option ℕ
unfolding parse_uint uint_loop
parse_uint32 = parse_uint uint32_max

unfoldable pub parse_uint64 : Bytes → ℕ → Option ℕ
unfolding parse_uint uint_loop
parse_uint64 = parse_uint uint64_max
