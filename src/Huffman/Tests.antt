-- ===== src/Huffman/Tests.antt =====
-- Runs of src/http2/HuffmanEncoding.cpp, and its theorems at inputs.
use cupcake.Base.{ℕ, ◌<◌, ◌++◌, ◌≡◌, some, arith, refl, [], ◌∷◌, true, Bytes, codes}
use cupcake.Huffman.Bits.{byte_bits}
use cupcake.Huffman.Encode.Codes.{code_bits, encode-code_bits}
use cupcake.Huffman.Encode.Filled.{ones}
use cupcake.Huffman.Encode.Total.{encode-decode}
use cupcake.Huffman.Encode.{encode}
use cupcake.Huffman.EncodeTable.{huffman_encode_table}
use cupcake.Huffman.Decode.{decode}
use cupcake.Huffman.DecodeTable.{huffman_decode_table}

-- The example of RFC 7541, C.4.1.
abbrev www_coded : Bytes
www_coded = 0xf1 ∷ 0xe3 ∷ 0xc2 ∷ 0xe5 ∷ 0xf2 ∷ 0x3a ∷ 0x6b ∷ 0xa0 ∷ 0xab ∷ 0x90 ∷ 0xf4 ∷ 0xff ∷ []

www_example : decode [] www_coded ≡ (codes "www.example.com", true)
unfolding decode huffman_decode_table
www_example = refl

www_encoded : encode [] (codes "www.example.com") ≡ some www_coded
unfolding encode huffman_encode_table
www_encoded = refl

encode-code_bits_example :
    (coded : Bytes) × (p : ℕ) × (encode (codes "x") (codes "a~b") ≡ some coded)
    × (p < 8)
    × (byte_bits coded ≡ byte_bits (codes "x") ++ (code_bits (codes "a~b") ++ ones p))
encode-code_bits_example =
    encode-code_bits (codes "x") (codes "a~b") (omega arith, (omega arith, (omega arith, tt)))

encode-decode_example :
    (coded : Bytes) × (encode [] (92 ∷ []) ≡ some coded) × (decode [] coded ≡ (92 ∷ [], true))
encode-decode_example = encode-decode 92 (omega arith)
