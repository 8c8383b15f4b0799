-- ===== src/Strconv/Print.antt =====
-- The printers for any radix: `uint32ToStr(value, radix, buffer)` and its relatives.
pub mod Fill
pub mod Radix
pub mod Signed
use mathlib.Core.Option
use cupcake.Base.{
  ℕ, zero, suc, ◌+◌, ◌/◌, ◌%◌, [], ◌∷◌, Option, none, some, reverse, map, ◌==◌, if◌then◌else◌,
  ◌>>=◌, Bytes, length, List, get_or,
}
use cupcake.Base.Int.{ℤ, pos, negsuc}
use cupcake.Strconv.Buffer.{store, copy_text, minus_then, Printer}
use cupcake.Strconv.ParseInt.{int32_max, int64_max}
use cupcake.Strconv.Table.{int32_min_values, int64_min_values}
use cupcake.Strconv.Digit.{value_as_char}

-- `while (value > 0)`: what is stored in `values`, from index 0 up. The fuel is the number of
-- places left in `values`; `none` is a write behind its end.
unfoldable pub collect : ℕ → ℕ → ℕ → Option Bytes
collect room radix zero = some []
collect zero radix (suc n) = none
collect (suc room) radix (suc n) =
    Option.map (◌∷◌ (suc n % radix)) (collect room radix (suc n / radix))

-- The `for` loop, at index `i`, over the values from the last to the first.
unfoldable pub fill : Bytes → ℕ → Bytes → Option Bytes
fill [] i buffer = some buffer
fill (d ∷ ds) i buffer = elim (store buffer i (value_as_char d)) [
  | none ↦ none
  | some buffer' ↦ fill ds (i + 1) buffer'
]

-- `values` has `room` places.
unfoldable pub uint_to_str_radix : ℕ → ℕ → ℕ → Printer
uint_to_str_radix room value radix buffer = do
  values ← collect room radix value
  written ← fill (reverse values) 0 buffer
  some (written, length values)

-- `int32ToStr(value, radix, buffer)` and `int64ToStr(value, radix, buffer)`: `max` is `INT32_MAX`
-- or `INT64_MAX`, and the least number, `negsuc max`, is looked up in `min_values`.
unfoldable pub int_to_str_radix : List Bytes → ℕ → ℕ → ℤ → ℕ → Printer
int_to_str_radix min_values max room (pos n) radix = uint_to_str_radix room n radix
int_to_str_radix min_values max room (negsuc n) radix =
    if n == max
    then copy_text (get_or min_values radix [])
    else minus_then (uint_to_str_radix room (n + 1) radix)

unfoldable pub uint32_to_str_radix : ℕ → ℕ → Printer
uint32_to_str_radix = uint_to_str_radix 32

unfoldable pub uint64_to_str_radix : ℕ → ℕ → Printer
uint64_to_str_radix = uint_to_str_radix 64

unfoldable pub int32_to_str_radix : ℤ → ℕ → Printer
int32_to_str_radix = int_to_str_radix int32_min_values int32_max 32

unfoldable pub int64_to_str_radix : ℤ → ℕ → Printer
int64_to_str_radix = int_to_str_radix int64_min_values int64_max 64
