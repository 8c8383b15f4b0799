-- ===== src/Strconv/ParseInt/Signed.antt =====
-- `parseInt32` and `parseInt64` against the signed number that the text denotes.
use mathlib.Core.Option
use cupcake.Base.{
  ℕ, ◌+◌, ◌*◌, ◌/◌, ◌≤◌, ◌≡◌, false, inl, inr, [], ◌∷◌, Option, none, arith, ◌==◌, if◌then◌else◌,
  Option-cases, Bool-cases, Bytes, ==_iff,
}
use cupcake.Base.Int.{ℤ, pos, neg_ℕ}
use cupcake.Strconv.Digit.{digit_value, digit_value-lt_16}
use cupcake.Strconv.Numeral.{
  numeral, at_most, is_radix, bounded_numeral, at_most-numeral, mul-le_of_le-div, lt-mul_of_div-lt,
  zero-mul-add,
}
use cupcake.Strconv.ParseInt.{
  int32_max, int64_max, int_loop, int_digits, parse_int, parse_int32, parse_int64,
}

-- A text with an optional "-", which denotes a number from -(max + 1) to max.
abbrev pub signed_numeral : ℕ → ℕ → Bytes → Option ℤ
signed_numeral max radix [] = none
signed_numeral max radix (c ∷ cs) =
    if c == b'-'
    then Option.map neg_ℕ (bounded_numeral (max + 1) radix cs)
    else Option.map pos (bounded_numeral max radix (c ∷ cs))

module _ (limit radix : ℕ) (room : 15 ≤ limit) (base : 1 ≤ radix) where
  int_loop-numeral :
      (result : ℕ) (cs : Bytes)
      → result ≤ limit
      → int_loop limit (limit / radix) radix result cs ≡ at_most limit (numeral radix result cs)
  unfolding int_loop
  int_loop-numeral result [] h = ground arith
  int_loop-numeral result (c ∷ cs) h = elim (Option-cases (digit_value radix c)) [
    | inl n ↦ ground arith
    | inr (d, n) ↦ ground (
      arith,
      digit_value-lt_16 radix c n,
      mul-le_of_le-div limit radix result,
      lt-mul_of_div-lt limit radix result base,
      at_most-numeral limit radix (result * radix + d) cs base,
      int_loop-numeral (result * radix + d) cs,
    )
  ]

  int_digits-numeral :
      (c : ℕ) (cs : Bytes)
      → int_digits limit radix (c ∷ cs) ≡ at_most limit (numeral radix 0 (c ∷ cs))
  unfolding int_digits
  int_digits-numeral c cs = elim (Option-cases (digit_value radix c)) [
    | inl n ↦ ground arith
    | inr (d, n) ↦
        ground (arith, digit_value-lt_16 radix c n, int_loop-numeral d cs, zero-mul-add radix d)
  ]

module _ (max radix : ℕ) (room : 15 ≤ max) where
  parse_int-minus :
      (cs : Bytes) → parse_int max (b'-' ∷ cs) radix ≡ signed_numeral max radix (b'-' ∷ cs)
  unfolding parse_int
  parse_int-minus [] = ground arith
  parse_int-minus (d ∷ ds) = elim (Bool-cases (is_radix radix)) [
    | inl good ↦
        ground (arith, int_digits-numeral (max + 1) radix (omega arith) (ground arith) d ds)
    | inr bad ↦ ground arith
  ]

  parse_int_other :
      (c : ℕ) (cs : Bytes)
      → (c == b'-') ≡ false
      → parse_int max (c ∷ cs) radix ≡ signed_numeral max radix (c ∷ cs)
  unfolding parse_int
  parse_int_other c cs h = elim (Bool-cases (is_radix radix)) [
    | inl good ↦ ground (arith, int_digits-numeral max radix room (ground arith) c cs)
    | inr bad ↦ ground arith
  ]

  parse_int-signed_numeral : (str : Bytes) → parse_int max str radix ≡ signed_numeral max radix str
  parse_int-signed_numeral [] = unfold parse_int in ground arith
  parse_int-signed_numeral (c ∷ cs) = elim (Bool-cases (c == b'-')) [
    | inl minus ↦ rw ((==_iff c b'-').0 minus) (parse_int-minus cs)
    | inr other ↦ parse_int_other c cs other
  ]

-- For every text and every radix, `parseInt32` gives the number that the text denotes, and fails
-- exactly if the radix is not 2 to 16, there is no digit, some byte behind a leading "-" is no
-- digit of the radix, or the number is not from `INT32_MIN` to `INT32_MAX`.
pub parse_int32-signed_numeral :
    (str : Bytes) (radix : ℕ) → parse_int32 str radix ≡ signed_numeral int32_max radix str
unfolding parse_int32
parse_int32-signed_numeral str radix = parse_int-signed_numeral int32_max radix (omega arith) str

-- For every text and every radix, `parseInt64` gives the number that the text denotes, and fails
-- exactly if the radix is not 2 to 16, there is no digit, some byte behind a leading "-" is no
-- digit of the radix, or the number is not from `INT64_MIN` to `INT64_MAX`.
pub parse_int64-signed_numeral :
    (str : Bytes) (radix : ℕ) → parse_int64 str radix ≡ signed_numeral int64_max radix str
unfolding parse_int64
parse_int64-signed_numeral str radix = parse_int-signed_numeral int64_max radix (omega arith) str
