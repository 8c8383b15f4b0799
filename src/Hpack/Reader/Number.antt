-- ===== src/Hpack/Reader/Number.antt =====
-- `readNumberAfterPrefix` against the integer encoding of RFC 7541, section 5.1.
use cupcake.Base.{
  ℕ, zero, suc, ◌+◌, ◌/◌, ◌%◌, ◌<◌, ◌≡◌, inl, inr, [], ◌∷◌, ◌++◌, arith, ltb, if◌then◌else◌,
  Bool-cases, Bytes,
}
use cupcake.Base.Word.{uint32_mod}
use cupcake.Hpack.Reader.{ok, Decoder, next_byte, read_number}

-- The bytes behind a prefix of ones: the low seven bits first, the top bit set on all but the last.
abbrev pub extension_bytes : ℕ → ℕ → Bytes
extension_bytes zero e = e ∷ []
extension_bytes (suc f) e =
    if ltb e 128 then e ∷ [] else (e % 128 + 128) ∷ extension_bytes f (e / 128)

-- At most five bytes hold a number below 2 ^ 32.
abbrev pub encode_extension : ℕ → Bytes
encode_extension = extension_bytes 4

abbrev pub last_of : ℕ → Bytes → ℕ
last_of c [] = c
last_of c (x ∷ xs) = last_of x xs

-- Behind the current byte, the encoding of a number `e` below 2^32 is read as the prefix plus `e`,
-- modulo 2^32, and the last byte of the encoding is the current one then: a sum that needs more than
-- 32 bits is not refused but wraps.
pub read_number-encode :
    (d : Decoder) (c initial e : ℕ) (rest : Bytes)
    → initial < uint32_mod
    → e < uint32_mod
    → read_number initial (record d { data_left = c ∷ (encode_extension e ++ rest) })
      ≡ ok (
        (initial + e) % uint32_mod,
        record d { data_left = last_of c (encode_extension e) ∷ rest },
      )
unfolding read_number next_byte
read_number-encode d c initial e rest hi he = elim (Bool-cases (ltb e 128)) [
  | inl one ↦ rw one (ground arith)
  | inr more ↦ rw more elim (Bool-cases (ltb (e / 128) 128)) [
    | inl two ↦ rw two (ground arith)
    | inr more2 ↦ rw more2 elim (Bool-cases (ltb (e / 128 / 128) 128)) [
      | inl three ↦ rw three (ground arith)
      | inr more3 ↦ rw more3 elim (Bool-cases (ltb (e / 128 / 128 / 128) 128)) [
        | inl four ↦ rw four (ground arith)
        | inr more4 ↦ rw more4 (ground arith)
      ]
    ]
  ]
]
