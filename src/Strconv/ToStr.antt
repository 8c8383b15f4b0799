-- ===== src/Strconv/ToStr.antt =====
-- The public printers of src/text/Strconv.cpp, which take a buffer and its length. The length is
-- the buffer's here. A buffer that may be too small gets the front of a text that is first printed
-- to a local array; the array holds zeros here where C++ leaves it unset.
pub mod Fits
pub mod RoundTrip
pub mod Least
use cupcake.Base.{
  ℕ, zero, suc, ◌+◌, [], ◌∷◌, ◌++◌, Option, none, some, leb, ◌==◌, if◌then◌else◌, ◌>>=◌, Bytes,
  List, length, take, drop, min,
}
use cupcake.Base.Int.{ℤ}
use cupcake.Strconv.Buffer.{Printer}
use cupcake.Strconv.Decimal.{uint32_to_str, uint64_to_str, int32_to_str, int64_to_str}
use cupcake.Strconv.Print.{
  uint32_to_str_radix, uint64_to_str_radix, int32_to_str_radix, int64_to_str_radix,
}

abbrev zeros : ℕ → Bytes
zeros zero = []
zeros (suc n) = 0 ∷ zeros n

-- `tempBuf` has `size` bytes.
pub through_temp : ℕ → Printer → Printer
through_temp size print buffer =
    let direct = print buffer in
    let copied = (do
      (temp, n) ← print (zeros size)
      some (take (min n (length buffer)) temp ++ drop (min n (length buffer)) buffer, n)) in
    if leb size (length buffer) then direct else copied

pub int32_to_buffer : ℤ → Printer
int32_to_buffer value = through_temp 11 (int32_to_str value)

pub int64_to_buffer : ℤ → Printer
int64_to_buffer value = through_temp 20 (int64_to_str value)

pub uint32_to_buffer : ℕ → Printer
uint32_to_buffer value = through_temp 10 (uint32_to_str value)

pub uint64_to_buffer : ℕ → Printer
uint64_to_buffer value = through_temp 20 (uint64_to_str value)

pub int32_to_buffer_radix : ℤ → ℕ → Printer
int32_to_buffer_radix value radix =
    if radix == 10 then int32_to_buffer value else through_temp 33 (int32_to_str_radix value radix)

pub int64_to_buffer_radix : ℤ → ℕ → Printer
int64_to_buffer_radix value radix =
    if radix == 10 then int64_to_buffer value else through_temp 65 (int64_to_str_radix value radix)

pub uint32_to_buffer_radix : ℕ → ℕ → Printer
uint32_to_buffer_radix value radix =
    if radix == 10
    then uint32_to_buffer value
    else through_temp 32 (uint32_to_str_radix value radix)

pub uint64_to_buffer_radix : ℕ → ℕ → Printer
uint64_to_buffer_radix value radix =
    if radix == 10
    then uint64_to_buffer value
    else through_temp 64 (uint64_to_str_radix value radix)
