-- ===== src/Strconv/Decimal.antt =====
-- The printers for radix 10, which write two digits at a time from the end of the text.
pub mod Digits
mod Pairs
pub mod Signed
use cupcake.Base.Word.{sub_size}
use cupcake.Base.{
  ℕ, zero, suc, ◌+◌, ◌-◌, ◌*◌, ◌/◌, ◌%◌, Option, none, some, ltb, leb, ◌==◌, if◌then◌else◌, ◌>>=◌,
  Bytes, get_or,
}
use cupcake.Base.Int.{ℤ, pos, negsuc}
use cupcake.Strconv.Buffer.{store, copy_text, minus_then, Printer}
use cupcake.Strconv.ParseInt.{int32_max, int64_max}
use cupcake.Strconv.Table.{int32_min_str, int64_min_str, two_digit_lookup}

-- `digitsBase10(uint32_t)`; `5 + (v >= P05)` is a test here.
pub digits_base10_uint32 : ℕ → ℕ
digits_base10_uint32 v =
    if ltb v 10
    then 1
    else if ltb v 100
    then 2
    else if ltb v 1000
    then 3
    else if ltb v 1000000
    then (if ltb v 10000 then 4 else if leb 100000 v then 6 else 5)
    else if ltb v 1000000000
    then (if ltb v 10000000 then 7 else if leb 100000000 v then 9 else 8)
    else 10

-- `digitsBase10(uint64_t)` below `P12`.
digits_base10_low : ℕ → ℕ
digits_base10_low v =
    if ltb v 100000000
    then (if ltb v 1000000
        then (if ltb v 10000 then 4 else if leb 100000 v then 6 else 5)
        else if leb 10000000 v
        then 8
        else 7)
    else if ltb v 10000000000
    then (if leb 1000000000 v then 10 else 9)
    else if leb 100000000000 v
    then 12
    else 11

-- `digitsBase10(uint64_t)`. The fuel counts the nested calls.
pub digits_base10_uint64 : ℕ → ℕ → ℕ
unfolding digits_base10_low
digits_base10_uint64 zero v = 0
digits_base10_uint64 (suc f) v =
    let more = 12 + digits_base10_uint64 f (v / 1000000000000) in
    if ltb v 10
    then 1
    else if ltb v 100
    then 2
    else if ltb v 1000
    then 3
    else if ltb v 1000000000000
    then digits_base10_low v
    else more

-- Two digits of the table, at a place and the one before it.
unfoldable pub store_pair : Bytes → ℕ → ℕ → Option Bytes
store_pair buffer next i = do
  buffer' ← store buffer next (get_or two_digit_lookup (i + 1) 0)
  store buffer' (sub_size next 1) (get_or two_digit_lookup i 0)

-- The last one or two digits.
unfoldable pub last_digits : ℕ → ℕ → Bytes → Option Bytes
last_digits value next buffer =
    if ltb value 10 then store buffer next (b'0' + value) else store_pair buffer next (value * 2)

-- `while (value >= 100)`, and what follows it. `none` also if the fuel runs out.
unfoldable pub digit_pairs : ℕ → ℕ → ℕ → Bytes → Option Bytes
digit_pairs zero value next buffer = none
digit_pairs (suc f) value next buffer =
    let rest = (do
      buffer' ← store_pair buffer next (value % 100 * 2)
      digit_pairs f (value / 100) (sub_size next 2) buffer') in
    if leb 100 value then rest else last_digits value next buffer

-- The body of `uint32ToStr(value, buffer)` and `uint64ToStr(value, buffer)`, at the number of digits
-- that `digitsBase10` gives. Each round takes two digits, so as much fuel suffices.
unfoldable pub print_digits : ℕ → ℕ → Printer
print_digits len value buffer = do
  written ← digit_pairs len value (sub_size len 1) buffer
  some (written, len)

unfoldable pub uint32_to_str : ℕ → Printer
uint32_to_str value = print_digits (digits_base10_uint32 value) value

unfoldable pub uint64_to_str : ℕ → Printer
uint64_to_str value = print_digits (digits_base10_uint64 2 value) value

-- `INT32_MIN` is `negsuc int32_max`.
unfoldable pub int32_to_str : ℤ → Printer
int32_to_str (pos n) = uint32_to_str n
int32_to_str (negsuc n) =
    if n == int32_max then copy_text int32_min_str else minus_then (uint32_to_str (n + 1))

unfoldable pub int64_to_str : ℤ → Printer
int64_to_str (pos n) = uint64_to_str n
int64_to_str (negsuc n) =
    if n == int64_max then copy_text int64_min_str else minus_then (uint64_to_str (n + 1))
