-- ===== src/Strconv/ToStr/RoundTrip.antt =====
-- The parsers read back what the printers print.
use mathlib.Core.Option
use mathlib.Core.List.{concat-ne-nil}
use cupcake.Base.{
  take_all, ℕ, zero, suc, ◌+◌, ◌%◌, ◌≤◌, ◌<◌, ◌≡◌, ◌≢◌, refl, ap, ◌∙◌, inl, inr, [], ◌∷◌, Option,
  some, arith, ◌==◌, Bool-cases, false, Bytes, length, take, drop, ◌++◌, take-length-append, ==_iff,
}
use cupcake.Base.Int.{ℤ, pos, negsuc}
use cupcake.Strconv.Buffer.{Printer}
use cupcake.Strconv.Digit.{digit_value, digit_value_minus}
use cupcake.Strconv.Numeral.{numeral, bounded_numeral}
use cupcake.Strconv.Parse.Unsigned.{parse_uint32-bounded_numeral, parse_uint64-bounded_numeral}
use cupcake.Strconv.Parse.{uint32_max, uint64_max, parse_uint32, parse_uint64}
use cupcake.Strconv.ParseInt.Signed.{
  signed_numeral, parse_int32-signed_numeral, parse_int64-signed_numeral,
}
use cupcake.Strconv.ParseInt.{int32_max, int64_max, parse_int32, parse_int64}
use cupcake.Strconv.Text.{text, signed_text, InRange, numeral-text}
use cupcake.Strconv.ToStr.Fits.{
  uint_text, int_text, PrintsFront, uint32_to_buffer_radix_lem, uint64_to_buffer_radix-PrintsFront,
  int32_to_buffer_radix-PrintsFront, int64_to_buffer_radix-PrintsFront,
}
use cupcake.Strconv.ToStr.{
  uint32_to_buffer_radix, uint64_to_buffer_radix, int32_to_buffer_radix, int64_to_buffer_radix,
}

ne-nil_of_numeral : (radix v : ℕ) (s : Bytes) → 0 < v → numeral radix 0 s ≡ some v → s ≢ []
ne-nil_of_numeral radix v [] h e = ground arith
ne-nil_of_numeral radix v (c ∷ cs) h e = λ x. cc

text-ne-nil : (radix v : ℕ) → text radix v ≢ []
unfolding text
text-ne-nil radix v = concat-ne-nil _ _

module _ (radix : ℕ) (two : 2 ≤ radix) (sixteen : radix ≤ 16) where
  read_text :
      (max v : ℕ) (s : Bytes)
      → s ≢ []
      → numeral radix 0 s ≡ some v
      → v ≤ max
      → bounded_numeral max radix s ≡ some v
  read_text max v [] ne e h = absurd (ne refl)
  read_text max v (c ∷ cs) ne e h = ground arith

  no_minus : (v c : ℕ) (cs : Bytes) → numeral radix 0 (c ∷ cs) ≡ some v → (c == b'-') ≡ false
  no_minus v c cs e = elim (Bool-cases (c == b'-')) [
    | inl minus ↦
        ground (arith, digit_value_minus radix, ap (digit_value radix) ((==_iff c b'-').0 minus))
    | inr other ↦ other
  ]

  read_minus_text :
      (max n : ℕ) → n ≤ max → signed_numeral max radix (b'-' ∷ text radix (suc n)) ≡ some (negsuc n)
  read_minus_text max n h = ground (
    arith,
    read_text (max + 1) (suc n) (text radix (suc n)) (text-ne-nil radix (suc n))
        (numeral-text radix two sixteen (suc n)),
  )

  read_plain_text :
      (max v : ℕ) (s : Bytes)
      → s ≢ []
      → numeral radix 0 s ≡ some v
      → v ≤ max
      → signed_numeral max radix s ≡ some (pos v)
  read_plain_text max v [] ne e h = absurd (ne refl)
  read_plain_text max v (c ∷ cs) ne e h =
      rw (no_minus v c cs e) (ap (Option.map pos) (read_text max v (c ∷ cs) ne e h))

  pub uint_text-text : (v : ℕ) → (v ≡ 0 → radix ≡ 10) → uint_text radix v ≡ text radix v
  uint_text-text zero ten = ground (arith, ten refl)
  uint_text-text (suc n) ten = ground arith

  int_text-signed_text : (v : ℤ) → (v ≡ pos 0 → radix ≡ 10) → int_text radix v ≡ signed_text radix v
  int_text-signed_text (pos zero) ten = ground (arith, ten refl)
  int_text-signed_text (pos (suc n)) ten = ground arith
  int_text-signed_text (negsuc n) ten = ground arith

  read_text-text : (max v : ℕ) → v ≤ max → bounded_numeral max radix (text radix v) ≡ some v
  read_text-text max v h =
      read_text max v (text radix v) (text-ne-nil radix v) (numeral-text radix two sixteen v) h

  read_signed_text :
      (max : ℕ) (v : ℤ)
      → InRange (suc max) v
      → signed_numeral max radix (signed_text radix v) ≡ some v
  read_signed_text max (pos n) h =
      read_plain_text max n (text radix n) (text-ne-nil radix n) (numeral-text radix two sixteen n)
        (omega arith)
  read_signed_text max (negsuc n) h = read_minus_text max n (omega arith)

-- The parsers read the text that a number has in a radix.
parse_uint32-uint_text :
    (v radix : ℕ)
    → v < 4294967296
    → 2 ≤ radix
    → radix ≤ 16
    → (v ≡ 0 → radix ≡ 10)
    → parse_uint32 (uint_text radix v) radix ≡ some v
parse_uint32-uint_text v radix h two sixteen ten =
    ap (λ s. parse_uint32 s radix) (uint_text-text radix two sixteen v ten)
    ∙ parse_uint32-bounded_numeral (text radix v) radix
    ∙ read_text-text radix two sixteen uint32_max v (omega arith)

pub parse_uint64-uint_text :
    (v radix : ℕ)
    → v < 18446744073709551616
    → 2 ≤ radix
    → radix ≤ 16
    → (v ≡ 0 → radix ≡ 10)
    → parse_uint64 (uint_text radix v) radix ≡ some v
parse_uint64-uint_text v radix h two sixteen ten =
    ap (λ s. parse_uint64 s radix) (uint_text-text radix two sixteen v ten)
    ∙ parse_uint64-bounded_numeral (text radix v) radix
    ∙ read_text-text radix two sixteen uint64_max v (omega arith)

parse_int32-int_text :
    (v : ℤ) (radix : ℕ)
    → InRange 2147483648 v
    → 2 ≤ radix
    → radix ≤ 16
    → (v ≡ pos 0 → radix ≡ 10)
    → parse_int32 (int_text radix v) radix ≡ some v
parse_int32-int_text v radix h two sixteen ten =
    ap (λ s. parse_int32 s radix) (int_text-signed_text radix two sixteen v ten)
    ∙ parse_int32-signed_numeral (signed_text radix v) radix
    ∙ read_signed_text radix two sixteen int32_max v h

parse_int64-int_text :
    (v : ℤ) (radix : ℕ)
    → InRange 9223372036854775808 v
    → 2 ≤ radix
    → radix ≤ 16
    → (v ≡ pos 0 → radix ≡ 10)
    → parse_int64 (int_text radix v) radix ≡ some v
parse_int64-int_text v radix h two sixteen ten =
    ap (λ s. parse_int64 s radix) (int_text-signed_text radix two sixteen v ten)
    ∙ parse_int64-signed_numeral (signed_text radix v) radix
    ∙ read_signed_text radix two sixteen int64_max v h

-- What is read back of a buffer after a printer has filled it.
abbrev pub ReadsBack : {A : Type 0} → Printer → (Bytes → Option A) → A → Bytes → Type 0
ReadsBack print parse v buffer =
    (written : Bytes) × (n : ℕ) × (print buffer ≡ some (written, n))
    × (parse (take n written) ≡ some v)

PrintsFront-ReadsBack :
    {A : Type 0} (print : Printer) (parse : Bytes → Option A) (v : A) (t buffer : Bytes)
    → PrintsFront print t
    → parse t ≡ some v
    → length t ≤ length buffer
    → ReadsBack print parse v buffer
PrintsFront-ReadsBack print parse v t buffer p read room = (
  take (length buffer) t ++ drop (length t) buffer,
  length t,
  p buffer,
  ap (λ s. parse (take (length t) (s ++ drop (length t) buffer))) (take_all (length buffer) t room)
      ∙ ap parse (take-length-append t (drop (length t) buffer))
      ∙ read,
)

-- For every `uint32_t`, radix from 2 to 16 and buffer with room for the text, but for zero in a radix
-- other than 10: `uint32ToStr` writes into the buffer and returns a length, and `parseUint32` of that
-- many bytes of the buffer gives the number.
pub uint32_to_buffer_radix-ReadsBack :
    (v radix : ℕ) (buffer : Bytes)
    → v < 4294967296
    → 2 ≤ radix
    → radix ≤ 16
    → (v ≡ 0 → radix ≡ 10)
    → length (uint_text radix v) ≤ length buffer
    → ReadsBack (uint32_to_buffer_radix v radix) (λ s. parse_uint32 s radix) v buffer
uint32_to_buffer_radix-ReadsBack v radix buffer h two sixteen ten room =
    PrintsFront-ReadsBack (uint32_to_buffer_radix v radix) (λ s. parse_uint32 s radix) v
      (uint_text radix v) buffer (uint32_to_buffer_radix_lem v radix h two sixteen)
      (parse_uint32-uint_text v radix h two sixteen ten) room

-- For every `uint64_t`, radix from 2 to 16 and buffer with room for the text, but for zero in a radix
-- other than 10: `uint64ToStr` writes into the buffer and returns a length, and `parseUint64` of that
-- many bytes of the buffer gives the number.
pub uint64_to_buffer_radix-ReadsBack :
    (v radix : ℕ) (buffer : Bytes)
    → v < 18446744073709551616
    → 2 ≤ radix
    → radix ≤ 16
    → (v ≡ 0 → radix ≡ 10)
    → length (uint_text radix v) ≤ length buffer
    → ReadsBack (uint64_to_buffer_radix v radix) (λ s. parse_uint64 s radix) v buffer
uint64_to_buffer_radix-ReadsBack v radix buffer h two sixteen ten room =
    PrintsFront-ReadsBack (uint64_to_buffer_radix v radix) (λ s. parse_uint64 s radix) v
      (uint_text radix v) buffer (uint64_to_buffer_radix-PrintsFront v radix h two sixteen)
      (parse_uint64-uint_text v radix h two sixteen ten) room

-- For every `int32_t`, radix from 2 to 16 and buffer with room for the text, but for zero in a radix
-- other than 10: `int32ToStr` writes into the buffer and returns a length, and `parseInt32` of that
-- many bytes of the buffer gives the number.
pub int32_to_buffer_radix-ReadsBack :
    (v : ℤ) (radix : ℕ) (buffer : Bytes)
    → InRange 2147483648 v
    → 2 ≤ radix
    → radix ≤ 16
    → (v ≡ pos 0 → radix ≡ 10)
    → length (int_text radix v) ≤ length buffer
    → ReadsBack (int32_to_buffer_radix v radix) (λ s. parse_int32 s radix) v buffer
int32_to_buffer_radix-ReadsBack v radix buffer h two sixteen ten room =
    PrintsFront-ReadsBack (int32_to_buffer_radix v radix) (λ s. parse_int32 s radix) v
      (int_text radix v) buffer (int32_to_buffer_radix-PrintsFront v radix h two sixteen)
      (parse_int32-int_text v radix h two sixteen ten) room

-- For every `int64_t`, radix from 2 to 16 and buffer with room for the text, but for zero in a radix
-- other than 10 and for `INT64_MIN` in an odd radix: `int64ToStr` writes into the buffer and returns
-- a length, and `parseInt64` of that many bytes of the buffer gives the number.
pub int64_to_buffer_radix-ReadsBack :
    (v : ℤ) (radix : ℕ) (buffer : Bytes)
    → InRange 9223372036854775808 v
    → 2 ≤ radix
    → radix ≤ 16
    → (v ≡ pos 0 → radix ≡ 10)
    → (v ≡ negsuc int64_max → radix % 2 ≡ 0)
    → length (int_text radix v) ≤ length buffer
    → ReadsBack (int64_to_buffer_radix v radix) (λ s. parse_int64 s radix) v buffer
int64_to_buffer_radix-ReadsBack v radix buffer h two sixteen ten even room =
    PrintsFront-ReadsBack (int64_to_buffer_radix v radix) (λ s. parse_int64 s radix) v
      (int_text radix v) buffer (int64_to_buffer_radix-PrintsFront v radix h two sixteen even)
      (parse_int64-int_text v radix h two sixteen ten) room
