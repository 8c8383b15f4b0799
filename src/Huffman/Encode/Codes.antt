-- ===== src/Huffman/Encode/Codes.antt =====
-- `encode` puts the bits of the codes of a text behind the bits that are there.
use mathlib.Core.List.{append_assoc, append-nil}
use cupcake.Base.{
  AllBytes, leb→le, Bool-cases, ℕ, ◌-◌, ◌^◌, ◌≤◌, ◌<◌, ◌≡◌, refl, sym, ap, ◌∙◌, inl, inr, Bool,
  true, ◌&&◌, [], ◌∷◌, ◌++◌, some, ltb, leb, arith, Bytes, all_below, all_below_sound,
}
use cupcake.Huffman.Bits.{bits, byte_bits, byte_bits-append}
use cupcake.Huffman.Data.{EncodeData}
use cupcake.Huffman.EncodeTable.{huffman_encode_table}
use cupcake.Huffman.Encode.Filled.{both, bits-filled, ones, bits-eos}
use cupcake.Huffman.Encode.{encode_bits, code_of, encode_loop, pad, encode}
use cupcake.Huffman.Encode.Appends.{state, written, Appends, encode_bits-Appends}

-- A code has up to 30 bits, and its value no more bits than these.
abbrev is_code : EncodeData → Bool
is_code e = leb e.bit_count 30 && ltb e.value (2 ^ e.bit_count)

codes_table : all_below 256 (λ c. is_code (code_of c)) ≡ true
unfolding all_below huffman_encode_table
codes_table = refl

-- The bits of the codes of a text.
unfoldable pub code_bits : Bytes → Bytes
code_bits [] = []
code_bits (c ∷ cs) = bits (code_of c).bit_count (code_of c).value ++ code_bits cs

encode_code :
    (c : ℕ) (d : Bytes) (r high : ℕ)
    → c < 256
    → 0 < r
    → r < 9
    → high < 2 ^ (8 - r)
    → Appends d r high
        (bits (code_of c).bit_count (code_of c).value)
        (encode_bits 5 (code_of c).bit_count (code_of c).value (state d r high))
encode_code c d r high hc room hr hh =
    let e = code_of c in
    let (short, small) =
      both (leb e.bit_count 30) (ltb e.value (2 ^ e.bit_count))
        (all_below_sound 256 (λ c. is_code (code_of c)) c codes_table hc) in
    let short' : e.bit_count ≤ 30 = leb→le _ _ short in
    encode_bits-Appends 4 e.bit_count e.value d r high room hr hh (inl (ground (arith, small)))
      (omega (arith, short'))

encode_loop-Appends :
    (cs d : Bytes) (r high : ℕ)
    → AllBytes cs
    → 0 < r
    → r < 9
    → high < 2 ^ (8 - r)
    → Appends d r high (code_bits cs) (encode_loop (state d r high) cs)
unfolding encode_loop code_bits
encode_loop-Appends [] d r high bytes room hr hh = record {
  dest' = d;
  rembits' = r;
  high' = high;
  some_room = room;
  whole = hr;
  small = hh;
  ended = refl;
  behind = sym (append-nil (written d r high));
}
encode_loop-Appends (c ∷ cs) d r high bytes room hr hh =
    let one = encode_code c d r high bytes.0 room hr hh in
    let rest =
      encode_loop-Appends cs one.dest' one.rembits' one.high' bytes.1 one.some_room one.whole
        one.small in
    record {
      dest' = rest.dest';
      rembits' = rest.rembits';
      high' = rest.high';
      some_room = rest.some_room;
      whole = rest.whole;
      small = rest.small;
      ended = rw one.ended rest.ended;
      behind =
          rest.behind
          ∙ ap (λ s. s ++ code_bits cs) one.behind
          ∙ append_assoc (written d r high) (bits (code_of c).bit_count (code_of c).value)
              (code_bits cs);
    }

-- The last byte is filled up with ones.
pad-ones :
    (d : Bytes) (r high : ℕ)
    → 0 < r
    → r < 9
    → high < 2 ^ (8 - r)
    → (p : ℕ) × (p < 8) × (byte_bits (pad (state d r high)) ≡ written d r high ++ ones p)
unfolding pad ones byte_bits bits
pad-ones d r high room hr hh = elim (Bool-cases (ltb r 8)) [
  | inl some_left ↦
      let (small, set_bits) = bits-eos r hr in
      (
        r,
        ground (arith, some_left),
        rw some_left (
            byte_bits-append d _
            ∙ ap (◌++◌ (byte_bits d)) (
                append-nil (bits 8 _)
                ∙ bits-filled r _ high hr small hh
                ∙ ap (◌++◌ (bits (8 - r) high)) set_bits)
            ∙ sym (append_assoc (byte_bits d) (bits (8 - r) high) (ones r))),
      )
  | inr full ↦
      let e : r ≡ 8 = ground (arith, full, hr) in
      (
        0,
        omega arith,
        rw full (
            sym (append-nil (byte_bits d))
            ∙ ap (λ k. byte_bits d ++ bits k high) (ap (λ r. 8 - r) (sym e))
            ∙ sym (append-nil (written d r high))),
      )
]

-- For every text of bytes, `encode` ends, and the bits of its result are those of `dest`, then the codes
-- of the bytes of the text, each with its high bit first, and then fewer than 8 ones up to a whole byte.
pub encode-code_bits :
    (dest cs : Bytes)
    → AllBytes cs
    → (coded : Bytes) × (p : ℕ) × (encode dest cs ≡ some coded)
      × (p < 8)
      × (byte_bits coded ≡ byte_bits dest ++ (code_bits cs ++ ones p))
unfolding encode bits
encode-code_bits dest cs bytes =
    let w = encode_loop-Appends cs dest 8 0 bytes (omega arith) (omega arith) (omega arith) in
    let (p, few, filled) = pad-ones w.dest' w.rembits' w.high' w.some_room w.whole w.small in
    (
      pad (state w.dest' w.rembits' w.high'),
      p,
      rw w.ended refl,
      few,
      filled
          ∙ ap (λ s. s ++ ones p)
              (w.behind ∙ ap (λ s. s ++ code_bits cs) (append-nil (byte_bits dest)))
          ∙ append_assoc (byte_bits dest) (code_bits cs) (ones p),
    )
