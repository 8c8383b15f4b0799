-- ===== src/Strconv/Tests.antt =====
-- Runs of the parsers and printers of src/text/Strconv.cpp, and their theorems at inputs.
use cupcake.Base.{
  [], ◌==◌, ◌&&◌, not, if◌then◌else◌, ◌≤◌, ◌≡◌, ◌≢◌, refl, some, arith, Bytes, codes, length,
}
use cupcake.Base.Int.{negsuc}
use cupcake.Strconv.Numeral.{bounded_numeral}
use cupcake.Strconv.Parse.Unsigned.{parse_uint32-bounded_numeral, parse_uint64-bounded_numeral}
use cupcake.Strconv.Parse.{uint32_max, uint64_max, parse_uint32, parse_uint64}
use cupcake.Strconv.ParseInt.Signed.{signed_numeral, parse_int64-signed_numeral}
use cupcake.Strconv.ParseInt.{int64_max, parse_int32, parse_int64}
use cupcake.Strconv.Digit.{value_as_char}
use cupcake.Strconv.Text.{text}
use cupcake.Strconv.ToStr.Fits.{
  PrintsFront, uint_text, int_text, uint32_to_buffer_radix-PrintsFront,
}
use cupcake.Strconv.ToStr.Least.{least_text, int64_min_odd_radix}
use cupcake.Strconv.ToStr.RoundTrip.{
  ReadsBack, int32_to_buffer_radix-ReadsBack, int64_to_buffer_radix-ReadsBack,
}
use cupcake.Strconv.ToStr.{uint32_to_buffer_radix, int32_to_buffer_radix, int64_to_buffer_radix}

abbrev four_bytes : Bytes
four_bytes = codes "abcd"

ff_fits : length (uint_text 16 255) ≤ length four_bytes
unfolding text value_as_char
ff_fits = omega arith

minus_ff_fits : length (int_text 16 (negsuc 254)) ≤ length four_bytes
unfolding text value_as_char
minus_ff_fits = omega arith

int32_to_buffer_radix-ReadsBack_example :
    ReadsBack
      (int32_to_buffer_radix (negsuc 254) 16)
      (λ s. parse_int32 s 16)
      (negsuc 254)
      four_bytes
int32_to_buffer_radix-ReadsBack_example =
    int32_to_buffer_radix-ReadsBack (negsuc 254) 16 four_bytes (omega arith) (omega arith)
      (omega arith) (λ e. cc) minus_ff_fits

int64_to_buffer_radix-ReadsBack_example :
    ReadsBack
      (int64_to_buffer_radix (negsuc 254) 16)
      (λ s. parse_int64 s 16)
      (negsuc 254)
      four_bytes
int64_to_buffer_radix-ReadsBack_example =
    int64_to_buffer_radix-ReadsBack (negsuc 254) 16 four_bytes (omega arith) (omega arith)
      (omega arith) (λ e. cc) (λ e. refl) minus_ff_fits

parse_uint32-bounded_numeral_example :
    parse_uint32 (codes "4294967296") 10 ≡ bounded_numeral uint32_max 10 (codes "4294967296")
parse_uint32-bounded_numeral_example = parse_uint32-bounded_numeral (codes "4294967296") 10

parse_int64-signed_numeral_example :
    parse_int64 (codes "-z") 16 ≡ signed_numeral int64_max 16 (codes "-z")
parse_int64-signed_numeral_example = parse_int64-signed_numeral (codes "-z") 16

parse_uint64-bounded_numeral_example :
    parse_uint64 (codes "fFfF") 16 ≡ bounded_numeral uint64_max 16 (codes "fFfF")
parse_uint64-bounded_numeral_example = parse_uint64-bounded_numeral (codes "fFfF") 16

uint32_to_buffer_radix-PrintsFront_example :
    PrintsFront
      (uint32_to_buffer_radix 4294967295 2)
      (if 4294967295 == 0 && not (2 == 10) then [] else text 2 4294967295)
uint32_to_buffer_radix-PrintsFront_example =
    uint32_to_buffer_radix-PrintsFront 4294967295 2 (omega arith) (omega arith) (omega arith)

int64_min_odd_radix_example :
    PrintsFront (int64_to_buffer_radix (negsuc int64_max) 3) (least_text 3)
    × (parse_int64 (least_text 3) 3 ≢ some (negsuc int64_max))
int64_min_odd_radix_example = int64_min_odd_radix 3 (omega arith) (omega arith) refl
