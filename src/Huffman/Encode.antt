-- ===== src/Huffman/Encode.antt =====
-- `HuffmanEncoding::encode`.
pub mod Filled
mod Appends
pub mod Codes
pub mod Total
use Prim.Native.Nat.{bit_or}
use cupcake.Base.{
  ℕ, zero, suc, ◌+◌, ◌-◌, ◌*◌, ◌/◌, ◌%◌, ◌^◌, Bool, [], ◌∷◌, ◌++◌, List, Option, none, some, ltb,
  ◌==◌, if◌then◌else◌, ◌>>=◌, Bytes, get_or,
}
use cupcake.Base.Word.{uint32_mod}
use cupcake.Huffman.Data.{EncodeData, code}
use cupcake.Huffman.EncodeTable.{huffman_encode_table}

-- What has been written: the bytes of `dest`, and a byte that has `rembits` bits to fill.
pub record Writer : Type 0 where
  pub dest : Bytes
  pub rembits : ℕ
  pub cur_byte : ℕ

-- `dest->push_back(curByte)` after the last bits, and a fresh byte.
abbrev pub push_byte : Writer → ℕ → Writer
push_byte w mask = record {
  dest = w.dest ++ bit_or w.cur_byte mask ∷ [];
  rembits = 8;
  cur_byte = 0;
}

-- `while (1)`: the bits of one code. The fuel counts the rounds.
unfoldable pub encode_bits : ℕ → ℕ → ℕ → Writer → Option Writer
encode_bits zero bit_count value w = none
encode_bits (suc f) bit_count value w =
    let pushed = push_byte w (value / 2 ^ (bit_count - w.rembits) % 256) in
    let rest = encode_bits f (bit_count - w.rembits) value pushed in
    if ltb bit_count w.rembits
    then some (record w {
      rembits = w.rembits - bit_count;
      cur_byte = bit_or w.cur_byte (value * 2 ^ (w.rembits - bit_count) % uint32_mod % 256);
    })
    else if bit_count - w.rembits == 0
    then some pushed
    else rest

abbrev pub code_of : ℕ → EncodeData
code_of c = get_or huffman_encode_table c (code 0 0)

-- A code of up to 30 bits fills four bytes and reaches a fifth at most.
unfoldable pub encode_loop : Writer → Bytes → Option Writer
encode_loop w [] = some w
encode_loop w (c ∷ cs) = do
  w' ← encode_bits 5 (code_of c).bit_count (code_of c).value w
  encode_loop w' cs

-- The bits that remain are those of the EOS symbol.
unfoldable pub pad : Writer → Bytes
pad w =
    if ltb w.rembits 8
    then w.dest ++ bit_or w.cur_byte (0x3fffffff / 2 ^ (30 - w.rembits) % 256) ∷ []
    else w.dest

unfoldable pub encode : Bytes → Bytes → Option Bytes
unfolding encode_bits encode_loop pad
encode dest cs = do
  w ← encode_loop (record { dest = dest; rembits = 8; cur_byte = 0 }) cs
  some (pad w)
