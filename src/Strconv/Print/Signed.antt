-- ===== src/Strconv/Print/Signed.antt =====
-- The signed printers for any radix against the text of the number.
use cupcake.Base.{
  ℕ, suc, ◌+◌, ◌-◌, ◌%◌, ◌^◌, ◌≤◌, ◌<◌, ◌≡◌, refl, sym, ap, ◌∙◌, [], ◌∷◌, Bytes, arith, ◌==◌, ◌||◌,
  Bool, true, not, get_or, all_below, all_below_sound, bytes_equal, bytes_equal_iff, List,
}
use cupcake.Base.Int.{ℤ, pos, negsuc}
use cupcake.Strconv.Buffer.{Prints, negative-Prints}
use cupcake.Strconv.Digit.{value_as_char}
use cupcake.Strconv.ParseInt.{int32_max, int64_max}
use cupcake.Strconv.Table.{int32_min_values, int64_min_values}
use cupcake.Strconv.Text.{text, InRange}
use cupcake.Strconv.Print.Fill.{digits_text}
use cupcake.Strconv.Print.Radix.{uint_to_str_radix-Prints}
use cupcake.Strconv.Print.{
  uint_to_str_radix, int_to_str_radix, int32_to_str_radix, int64_to_str_radix,
}

abbrev pub signed_digits : ℕ → ℤ → Bytes
signed_digits radix (pos n) = digits_text radix n
signed_digits radix (negsuc n) = b'-' ∷ text radix (suc n)

-- Whether the table has the right text of -(max + 1) for this radix.
abbrev entry_is : List Bytes → ℕ → ℕ → Bool
entry_is table max radix = bytes_equal (get_or table radix []) (b'-' ∷ text radix (suc max))

int32_table : all_below 15 (λ k. entry_is int32_min_values int32_max (k + 2)) ≡ true
unfolding all_below bytes_equal int32_min_values text value_as_char
int32_table = refl

int64_table :
    all_below 15 (λ k. entry_is int64_min_values int64_max (k + 2) || not (k % 2 == 0)) ≡ true
unfolding all_below bytes_equal int64_min_values text value_as_char
int64_table = refl

int32_entry :
    (radix : ℕ)
    → 2 ≤ radix
    → radix ≤ 16
    → get_or int32_min_values radix [] ≡ b'-' ∷ text radix (suc int32_max)
int32_entry radix two sixteen =
    let two_more : radix - 2 + 2 ≡ radix = omega arith in
    let entry = all_below_sound 15 _ (radix - 2) int32_table (omega arith) in
    (bytes_equal_iff _ _).0 (rw two_more at entry)

int64_entry :
    (radix : ℕ)
    → 2 ≤ radix
    → radix ≤ 16
    → radix % 2 ≡ 0
    → get_or int64_min_values radix [] ≡ b'-' ∷ text radix (suc int64_max)
int64_entry radix two sixteen even =
    let two_more : radix - 2 + 2 ≡ radix = omega arith in
    let even_more : (radix - 2) % 2 ≡ 0 = omega arith in
    let entry = all_below_sound 15 _ (radix - 2) int64_table (omega arith) in
    (bytes_equal_iff _ _).0 (ground (arith, rw two_more at entry))

-- Given the right entry for the least number.
int_to_str_radix-Prints :
    (table : List Bytes) (max room : ℕ) (v : ℤ) (radix : ℕ)
    → 2 ≤ radix
    → suc max < 2 ^ room
    → InRange (suc max) v
    → (v ≡ negsuc max → get_or table radix [] ≡ b'-' ∷ text radix (suc max))
    → Prints (int_to_str_radix table max room v radix) (signed_digits radix v)
unfolding int_to_str_radix
int_to_str_radix-Prints table max room (pos n) radix two fits h entry =
    uint_to_str_radix-Prints radix room n two (omega arith)
int_to_str_radix-Prints table max room (negsuc n) radix two fits h entry =
    negative-Prints n max (get_or table radix []) (uint_to_str_radix room (n + 1) radix)
      (text radix (suc n)) (λ e. entry (ap negsuc e) ∙ ap (λ m. b'-' ∷ text radix (suc m)) (sym e))
      (λ e.
        let same : n + 1 ≡ suc n = omega arith in
        rw same (uint_to_str_radix-Prints radix room (suc n) two (omega arith)))

-- `int32ToStr` with a radix from 2 to 16 prints the text of every `int32_t`.
pub int32_to_str_radix-Prints :
    (v : ℤ) (radix : ℕ)
    → 2 ≤ radix
    → radix ≤ 16
    → InRange 2147483648 v
    → Prints (int32_to_str_radix v radix) (signed_digits radix v)
unfolding int32_to_str_radix
int32_to_str_radix-Prints v radix two sixteen h =
    int_to_str_radix-Prints int32_min_values int32_max 32 v radix two (omega arith) h
      (λ _. int32_entry radix two sixteen)

-- `int64ToStr` with a radix from 2 to 16 prints the text of every `int64_t` but `INT64_MIN`, and
-- that of `INT64_MIN` if the radix is even.
pub int64_to_str_radix-Prints :
    (v : ℤ) (radix : ℕ)
    → 2 ≤ radix
    → radix ≤ 16
    → InRange 9223372036854775808 v
    → (v ≡ negsuc int64_max → radix % 2 ≡ 0)
    → Prints (int64_to_str_radix v radix) (signed_digits radix v)
unfolding int64_to_str_radix
int64_to_str_radix-Prints v radix two sixteen h even =
    int_to_str_radix-Prints int64_min_values int64_max 64 v radix two (omega arith) h
      (λ e. int64_entry radix two sixteen (even e))
