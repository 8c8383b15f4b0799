-- ===== src/Strconv/ToStr/Fits.antt =====
-- The public printers never write behind the buffer, and return the length of the whole text.
use mathlib.Core.Path.{subst}
use cupcake.Base.{
  [], ==_iff, ap, sym, refl, false, not, ◌&&◌, ◌≡◌, take_all, drop_all, take_front, ℕ, zero, suc,
  ◌%◌, ◌^◌, ◌≤◌, ◌<◌, ◌≡◌, refl, sym, ap, ◌∙◌, inl, inr, ◌++◌, some, arith, leb, ◌==◌,
  if◌then◌else◌, Bool-cases, Bytes, length, take, drop, min, take-length-append,
}
use cupcake.Base.Int.{ℤ, pos, negsuc}
use cupcake.Strconv.Buffer.{Printer, Prints}
use cupcake.Strconv.ParseInt.{int64_max}
use cupcake.Strconv.Text.{text, signed_text, InRange}
use cupcake.Strconv.Decimal.Digits.{decimal_length_le}
use cupcake.Strconv.Decimal.Signed.{
  uint32_to_str-Prints, uint64_to_str-Prints, int32_to_str-Prints, int64_to_str-Prints,
}
use cupcake.Strconv.Decimal.{uint32_to_str, uint64_to_str, int32_to_str, int64_to_str}
use cupcake.Strconv.Print.Fill.{digits_text, length-digits_text}
use cupcake.Strconv.Print.Radix.{uint_to_str_radix-Prints}
use cupcake.Strconv.Print.Signed.{
  signed_digits, int32_to_str_radix-Prints, int64_to_str_radix-Prints,
}
use cupcake.Strconv.Print.{
  uint32_to_str_radix, uint64_to_str_radix, int32_to_str_radix, int64_to_str_radix,
}
use cupcake.Strconv.ToStr.{
  zeros, through_temp, uint32_to_buffer, uint64_to_buffer, int32_to_buffer, int64_to_buffer,
  uint32_to_buffer_radix, uint64_to_buffer_radix, int32_to_buffer_radix, int64_to_buffer_radix,
}

-- The front of the text that fits, over the buffer, and the length of the text.
abbrev pub PrintsFront : Printer → Bytes → Type 0
PrintsFront print t =
    (buffer : Bytes)
    → print buffer ≡ some (take (length buffer) t ++ drop (length t) buffer, length t)

length-zeros : (n : ℕ) → length (zeros n) ≡ n
length-zeros zero = refl
length-zeros (suc n) = ap suc (length-zeros n)

take_over :
    (t rest buffer : Bytes)
    → take (min (length t) (length buffer)) (t ++ rest) ≡ take (length buffer) t
take_over t rest buffer = elim (Bool-cases (leb (length t) (length buffer))) [
  | inl within ↦
      let m : min (length t) (length buffer) ≡ length t = ground arith in
      rw m (take-length-append t rest ∙ sym (take_all (length buffer) t (ground arith)))
  | inr over ↦
      let m : min (length t) (length buffer) ≡ length buffer = ground arith in
      rw m (take_front (length buffer) t rest (ground arith))
]

drop_over :
    (t buffer : Bytes) → drop (min (length t) (length buffer)) buffer ≡ drop (length t) buffer
drop_over t buffer = elim (Bool-cases (leb (length t) (length buffer))) [
  | inl within ↦ let m : min (length t) (length buffer) ≡ length t = ground arith in rw m
  | inr over ↦
      let m : min (length t) (length buffer) ≡ length buffer = ground arith in
      rw m (
        drop_all (length buffer) buffer (omega arith)
        ∙ sym (drop_all (length t) buffer (ground arith)))
]

pub through_temp-PrintsFront :
    (size : ℕ) (print : Printer) (t : Bytes)
    → length t ≤ size
    → Prints print t
    → PrintsFront (through_temp size print) t
unfolding through_temp
through_temp-PrintsFront size print t short p buffer =
    elim (Bool-cases (leb size (length buffer))) [
      | inl large ↦ ground (arith, p buffer, take_all (length buffer) t)
      | inr small ↦ ground (
        arith,
        p (zeros size),
        length-zeros size,
        take_over t (drop (length t) (zeros size)) buffer,
        drop_over t buffer,
      )
    ]

-- The text that a public printer with a radix gives: of zero, "0" in radix 10 and nothing in any
-- other.
abbrev pub uint_text : ℕ → ℕ → Bytes
uint_text radix v = if radix == 10 then text 10 v else digits_text radix v

abbrev pub int_text : ℕ → ℤ → Bytes
int_text radix v = if radix == 10 then signed_text 10 v else signed_digits radix v

pub uint32_to_buffer-PrintsFront :
    (v : ℕ) → v < 4294967296 → PrintsFront (uint32_to_buffer v) (text 10 v)
unfolding uint32_to_buffer
uint32_to_buffer-PrintsFront v h =
    through_temp-PrintsFront 10 (uint32_to_str v) (text 10 v) (decimal_length_le 9 v (omega arith))
      (uint32_to_str-Prints v h)

uint64_to_buffer-PrintsFront :
    (v : ℕ) → v < 18446744073709551616 → PrintsFront (uint64_to_buffer v) (text 10 v)
unfolding uint64_to_buffer
uint64_to_buffer-PrintsFront v h =
    through_temp-PrintsFront 20 (uint64_to_str v) (text 10 v) (decimal_length_le 19 v (omega arith))
      (uint64_to_str-Prints v h)

length-signed_text :
    (k lo : ℕ) (v : ℤ) → lo < 10 ^ suc k → InRange lo v → length (signed_text 10 v) ≤ suc (suc k)
length-signed_text k lo (pos n) small h = omega (arith, decimal_length_le k n (omega arith))
length-signed_text k lo (negsuc n) small h =
    omega (arith, decimal_length_le k (suc n) (omega arith))

length-signed_digits :
    (radix room lo : ℕ) (v : ℤ)
    → 2 ≤ radix
    → lo < 2 ^ room
    → InRange lo v
    → length (signed_digits radix v) ≤ suc room
length-signed_digits radix room lo (pos n) two small h =
    omega (arith, length-digits_text radix room n two (omega arith))
length-signed_digits radix room lo (negsuc n) two small h =
    omega (arith, length-digits_text radix room (suc n) two (omega arith))

int32_to_buffer-PrintsFront :
    (v : ℤ) → InRange 2147483648 v → PrintsFront (int32_to_buffer v) (signed_text 10 v)
unfolding int32_to_buffer
int32_to_buffer-PrintsFront v h =
    through_temp-PrintsFront 11 (int32_to_str v) (signed_text 10 v)
      (length-signed_text 9 2147483648 v (omega arith) h) (int32_to_str-Prints v h)

int64_to_buffer-PrintsFront :
    (v : ℤ) → InRange 9223372036854775808 v → PrintsFront (int64_to_buffer v) (signed_text 10 v)
unfolding int64_to_buffer
int64_to_buffer-PrintsFront v h =
    through_temp-PrintsFront 20 (int64_to_str v) (signed_text 10 v)
      (length-signed_text 18 9223372036854775808 v (omega arith) h) (int64_to_str-Prints v h)

-- With the text that the printer gives of zero.
pub uint32_to_buffer_radix_lem :
    (v radix : ℕ)
    → v < 4294967296
    → 2 ≤ radix
    → radix ≤ 16
    → PrintsFront (uint32_to_buffer_radix v radix) (uint_text radix v)
unfolding uint32_to_buffer_radix
uint32_to_buffer_radix_lem v radix h two sixteen = elim (Bool-cases (radix == 10)) [
  | inl ten ↦ rw ten (uint32_to_buffer-PrintsFront v h)
  | inr other ↦ rw other (
      through_temp-PrintsFront 32 (uint32_to_str_radix v radix) (digits_text radix v)
        (length-digits_text radix 32 v two (omega arith))
        (unfold uint32_to_str_radix in uint_to_str_radix-Prints radix 32 v two (omega arith)))
]

uint_text-zero :
    (radix v : ℕ) → uint_text radix v ≡ (if v == 0 && not (radix == 10) then [] else text radix v)
uint_text-zero radix zero = elim (Bool-cases (radix == 10)) [
  | inl ten ↦ rw ten (ap (λ r. text r 0) (sym ((==_iff radix 10).0 ten)))
  | inr other ↦ rw other refl
]
uint_text-zero radix (suc n) = elim (Bool-cases (radix == 10)) [
  | inl ten ↦
      let some_value : (suc n == 0) ≡ false = ground arith in
      rw some_value (rw ten (ap (λ r. text r (suc n)) (sym ((==_iff radix 10).0 ten))))
  | inr other ↦
      let some_value : (suc n == 0) ≡ false = ground arith in rw some_value (rw other refl)
]

-- For every `uint32_t`, radix from 2 to 16 and buffer: `uint32ToStr` puts the front of a text that fits
-- into the buffer, leaves the rest of the buffer alone, and returns the length of the text. The text is
-- that of the number, but of zero in a radix other than 10 it is empty: no digit is printed and the
-- length is 0.
pub uint32_to_buffer_radix-PrintsFront :
    (v radix : ℕ)
    → v < 4294967296
    → 2 ≤ radix
    → radix ≤ 16
    → PrintsFront
        (uint32_to_buffer_radix v radix)
        (if v == 0 && not (radix == 10) then [] else text radix v)
uint32_to_buffer_radix-PrintsFront v radix h two sixteen =
    subst (PrintsFront (uint32_to_buffer_radix v radix)) (uint_text-zero radix v)
      (uint32_to_buffer_radix_lem v radix h two sixteen)

-- For every `uint64_t`, radix from 2 to 16 and buffer: `uint64ToStr` puts the front of the text that
-- fits into the buffer, leaves the rest of the buffer alone, and returns the length of the text.
pub uint64_to_buffer_radix-PrintsFront :
    (v radix : ℕ)
    → v < 18446744073709551616
    → 2 ≤ radix
    → radix ≤ 16
    → PrintsFront (uint64_to_buffer_radix v radix) (uint_text radix v)
unfolding uint64_to_buffer_radix
uint64_to_buffer_radix-PrintsFront v radix h two sixteen = elim (Bool-cases (radix == 10)) [
  | inl ten ↦ rw ten (uint64_to_buffer-PrintsFront v h)
  | inr other ↦ rw other (
      through_temp-PrintsFront 64 (uint64_to_str_radix v radix) (digits_text radix v)
        (length-digits_text radix 64 v two (omega arith))
        (unfold uint64_to_str_radix in uint_to_str_radix-Prints radix 64 v two (omega arith)))
]

-- For every `int32_t`, radix from 2 to 16 and buffer: `int32ToStr` puts the front of the text that
-- fits into the buffer, leaves the rest of the buffer alone, and returns the length of the text.
pub int32_to_buffer_radix-PrintsFront :
    (v : ℤ) (radix : ℕ)
    → InRange 2147483648 v
    → 2 ≤ radix
    → radix ≤ 16
    → PrintsFront (int32_to_buffer_radix v radix) (int_text radix v)
unfolding int32_to_buffer_radix
int32_to_buffer_radix-PrintsFront v radix h two sixteen = elim (Bool-cases (radix == 10)) [
  | inl ten ↦ rw ten (int32_to_buffer-PrintsFront v h)
  | inr other ↦ rw other (
      through_temp-PrintsFront 33 (int32_to_str_radix v radix) (signed_digits radix v)
        (length-signed_digits radix 32 2147483648 v two (omega arith) h)
        (int32_to_str_radix-Prints v radix two sixteen h))
]

-- For every `int64_t`, radix from 2 to 16 and buffer, but for `INT64_MIN` in an odd radix:
-- `int64ToStr` puts the front of the text that fits into the buffer, leaves the rest of the buffer
-- alone, and returns the length of the text.
pub int64_to_buffer_radix-PrintsFront :
    (v : ℤ) (radix : ℕ)
    → InRange 9223372036854775808 v
    → 2 ≤ radix
    → radix ≤ 16
    → (v ≡ negsuc int64_max → radix % 2 ≡ 0)
    → PrintsFront (int64_to_buffer_radix v radix) (int_text radix v)
unfolding int64_to_buffer_radix
int64_to_buffer_radix-PrintsFront v radix h two sixteen even = elim (Bool-cases (radix == 10)) [
  | inl ten ↦ rw ten (int64_to_buffer-PrintsFront v h)
  | inr other ↦ rw other (
      through_temp-PrintsFront 65 (int64_to_str_radix v radix) (signed_digits radix v)
        (length-signed_digits radix 64 9223372036854775808 v two (omega arith) h)
        (int64_to_str_radix-Prints v radix two sixteen h even))
]
