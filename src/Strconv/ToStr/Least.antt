-- ===== src/Strconv/ToStr/Least.antt =====
-- `int64ToStr` of `INT64_MIN`, which is looked up in a table, in the odd radices.
use cupcake.Base.{
  ℕ, ◌+◌, ◌-◌, ◌%◌, ◌≤◌, ◌≡◌, ◌≢◌, refl, ap, [], Option, some, arith, leb, ◌==◌, Bool, true, false,
  not, ◌&&◌, ◌||◌, Bytes, length, get_or, all_below, all_below_sound,
}
use cupcake.Base.Int.{ℤ, negsuc}
use cupcake.Strconv.Buffer.{copy_text-Prints}
use cupcake.Strconv.Digit.{char_value, digit_value}
use cupcake.Strconv.ParseInt.{int64_max, parse_int64}
use cupcake.Strconv.Print.{int64_to_str_radix, int_to_str_radix}
use cupcake.Strconv.Table.{int64_min_values}
use cupcake.Strconv.ToStr.Fits.{PrintsFront, through_temp-PrintsFront}
use cupcake.Strconv.ToStr.{int64_to_buffer_radix}

-- What `int64ToStr` prints for `INT64_MIN`.
abbrev pub least_text : ℕ → Bytes
least_text radix = get_or int64_min_values radix []

reads_least : Option ℤ → Bool
reads_least (some (negsuc n)) = n == int64_max
reads_least _ = false

odd_table :
    all_below 15 (λ k.
      k % 2 == 0
      || (not (reads_least (parse_int64 (least_text (k + 2)) (k + 2)))
          && leb (length (least_text (k + 2))) 65))
    ≡ true
unfolding all_below reads_least parse_int64 digit_value char_value int64_min_values
odd_table = refl

odd_entry :
    (radix : ℕ)
    → 2 ≤ radix
    → radix ≤ 16
    → radix % 2 ≡ 1
    → (parse_int64 (least_text radix) radix ≢ some (negsuc int64_max))
      × (length (least_text radix) ≤ 65)
unfolding reads_least
odd_entry radix two sixteen odd =
    let two_more : radix - 2 + 2 ≡ radix = omega arith in
    let odd_more : (radix - 2) % 2 ≡ 1 = omega arith in
    let entry = rw two_more at (all_below_sound 15 _ (radix - 2) odd_table (omega arith)) in
    (λ e. ground (arith, ap reads_least e), ground arith)

-- In every odd radix from 2 to 16, `int64ToStr` prints `INT64_MIN` as the text of another number:
-- `parseInt64` does not read it back.
pub int64_min_odd_radix :
    (radix : ℕ)
    → 2 ≤ radix
    → radix ≤ 16
    → radix % 2 ≡ 1
    → PrintsFront (int64_to_buffer_radix (negsuc int64_max) radix) (least_text radix)
      × (parse_int64 (least_text radix) radix ≢ some (negsuc int64_max))
unfolding int64_to_buffer_radix int64_to_str_radix int_to_str_radix
int64_min_odd_radix radix two sixteen odd =
    let (wrong, short) = odd_entry radix two sixteen odd in
    let other : (radix == 10) ≡ false = ground arith in
    (
      rw other (
          through_temp-PrintsFront 65 _ (least_text radix) short
            (copy_text-Prints (least_text radix))),
      wrong,
    )
