-- ===== src/Strconv/ParseInt.antt =====
-- `parseInt32` and `parseInt64`. The pair `(0, false)` is `none` and `(v, true)` is `some v`. The
-- code accumulates below zero: here `result`, `limit` and `multmin` are held negated, so that
-- `result < multmin` reads `multmin < result`, and `result < limit + digitVal` reads
-- `limit < result + digitVal`.
pub mod Signed
use mathlib.Core.Option
use cupcake.Base.{
  ℕ, ◌+◌, ◌*◌, ◌/◌, Bool, true, false, ◌||◌, [], ◌∷◌, Option, none, some, ltb, ◌==◌, if◌then◌else◌,
  ◌>>=◌, Bytes,
}
use cupcake.Base.Int.{ℤ, pos, neg_ℕ}
use cupcake.Strconv.Digit.{digit_value}

-- `INT32_MAX` and `INT64_MAX`; `-INT32_MIN` is one more.
abbrev pub int32_max : ℕ
int32_max = 2147483647

abbrev pub int64_max : ℕ
int64_max = 9223372036854775807

-- `while (i < strLen)`
pub int_loop : ℕ → ℕ → ℕ → ℕ → Bytes → Option ℕ
int_loop limit multmin radix result [] = some result
int_loop limit multmin radix result (c ∷ cs) = elim (digit_value radix c) [
  | none ↦ none
  | some d ↦
      if ltb multmin result
      then none
      else let scaled = result * radix in
        let rest = int_loop limit multmin radix (scaled + d) cs in
        if ltb limit (scaled + d) then none else rest
]

-- The digits behind the sign. Nothing is left here only where the text is "-" alone, which the
-- caller has refused.
int_digits : ℕ → ℕ → Bytes → Option ℕ
int_digits limit radix [] = some 0
int_digits limit radix (c ∷ cs) = do
  d ← digit_value radix c
  int_loop limit (limit / radix) radix d cs

-- `if (strLen == 1)`
is_single : Bytes → Bool
is_single [] = true
is_single (c ∷ cs) = false

-- The body of both parsers, `max` being `INT32_MAX` or `INT64_MAX`.
pub parse_int : ℕ → Bytes → ℕ → Option ℤ
unfolding int_digits is_single
parse_int max str radix = if ltb radix 2 || ltb 16 radix then none else elim str [
  | [] ↦ none
  | c ∷ cs ↦
      if c == b'-'
      then (if is_single cs then none else Option.map neg_ℕ (int_digits (max + 1) radix cs))
      else Option.map pos (int_digits max radix (c ∷ cs))
]

unfoldable pub parse_int32 : Bytes → ℕ → Option ℤ
unfolding parse_int int_loop
parse_int32 = parse_int int32_max

unfoldable pub parse_int64 : Bytes → ℕ → Option ℤ
unfolding parse_int int_loop
parse_int64 = parse_int int64_max
