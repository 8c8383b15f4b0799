-- ===== src/Strconv/Print/Radix.antt =====
-- The printers for any radix against the text of the number.
use cupcake.Base.{
  ℕ, ◌^◌, ◌≤◌, ◌<◌, ◌≡◌, ◌∙◌, [], reverse, arith, length, length-reverse, length-map,
}
use cupcake.Strconv.Buffer.{Prints}
use cupcake.Strconv.Digit.{value_as_char}
use cupcake.Strconv.Print.Fill.{digits_text, collect_text, fill-append}
use cupcake.Strconv.Print.{uint_to_str_radix}

-- Given `room` places in `values`, a number below 2 ^ room is printed without a fault.
pub uint_to_str_radix-Prints :
    (radix room v : ℕ)
    → 2 ≤ radix
    → v < 2 ^ room
    → Prints (uint_to_str_radix room v radix) (digits_text radix v)
unfolding uint_to_str_radix
uint_to_str_radix-Prints radix room v two h buffer fits =
    let (vs, e, t) = collect_text radix two room v h in
    let len : length (digits_text radix v) ≡ length vs =
      rw (← t) (length-map value_as_char (reverse vs) ∙ length-reverse vs) in
    ground (arith, fill-append (reverse vs) [] buffer, length-reverse vs)
