-- ===== src/Huffman/Encode/Total.antt =====
-- What `encode` makes of a byte, `decode` reads back.
use cupcake.Base.{
  Option-cases, bytes_equal_iff, ℕ, ◌<◌, ◌≡◌, refl, inl, inr, Bool, true, false, ◌&&◌, [], ◌∷◌,
  none, some, arith, Bytes, all_below, all_below_sound, bytes_equal,
}
use cupcake.Huffman.Decode.{decode}
use cupcake.Huffman.DecodeTable.{huffman_decode_table}
use cupcake.Huffman.EncodeTable.{huffman_encode_table}
use cupcake.Huffman.Encode.Filled.{both}
use cupcake.Huffman.Encode.{encode}

reads_back : ℕ → Bool
unfolding encode decode
reads_back c = elim (encode [] (c ∷ [])) [
  | none ↦ false
  | some coded ↦ bytes_equal (decode [] coded).0 (c ∷ []) && (decode [] coded).1
]

table_reads_back : all_below 256 reads_back ≡ true
unfolding all_below reads_back encode decode huffman_decode_table huffman_encode_table bytes_equal
table_reads_back = refl

-- For every byte, `encode` of it alone ends, and `decode` of the result gives it back and accepts.
pub encode-decode :
    (c : ℕ)
    → c < 256
    → (coded : Bytes) × (encode [] (c ∷ []) ≡ some coded) × (decode [] coded ≡ (c ∷ [], true))
unfolding reads_back
encode-decode c h = elim (Option-cases (encode [] (c ∷ []))) [
  | inl stuck ↦ absurd (ground (arith, all_below_sound 256 reads_back c table_reads_back h))
  | inr (coded, e) ↦
      let good = rw (e, reads_back) at (all_below_sound 256 reads_back c table_reads_back h) in
      let (same, accepted) =
        both (bytes_equal (decode [] coded).0 (c ∷ [])) (decode [] coded).1 good in
      let back = (bytes_equal_iff (decode [] coded).0 (c ∷ [])).0 same in
      (coded, e, λ i. (back i, accepted i))
]
