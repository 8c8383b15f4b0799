-- ===== src/Huffman/EncodeTable/High.antt =====
-- Symbols 128 to 255 of `huffmanEncodeTable`.
use cupcake.Base.{List, [], ◌∷◌}
use cupcake.Huffman.Data.{EncodeData, code}

unfoldable pub high_codes : List EncodeData
high_codes =
    code 20 0xfffe6
    ∷ code 22 0x3fffd2
    ∷ code 20 0xfffe7
    ∷ code 20 0xfffe8
    ∷ code 22 0x3fffd3
    ∷ code 22 0x3fffd4
    ∷ code 22 0x3fffd5
    ∷ code 23 0x7fffd9
    ∷ code 22 0x3fffd6
    ∷ code 23 0x7fffda
    ∷ code 23 0x7fffdb
    ∷ code 23 0x7fffdc
    ∷ code 23 0x7fffdd
    ∷ code 23 0x7fffde
    ∷ code 24 0xffffeb
    ∷ code 23 0x7fffdf
    ∷ code 24 0xffffec
    ∷ code 24 0xffffed
    ∷ code 22 0x3fffd7
    ∷ code 23 0x7fffe0
    ∷ code 24 0xffffee
    ∷ code 23 0x7fffe1
    ∷ code 23 0x7fffe2
    ∷ code 23 0x7fffe3
    ∷ code 23 0x7fffe4
    ∷ code 21 0x1fffdc
    ∷ code 22 0x3fffd8
    ∷ code 23 0x7fffe5
    ∷ code 22 0x3fffd9
    ∷ code 23 0x7fffe6
    ∷ code 23 0x7fffe7
    ∷ code 24 0xffffef
    ∷ code 22 0x3fffda
    ∷ code 21 0x1fffdd
    ∷ code 20 0xfffe9
    ∷ code 22 0x3fffdb
    ∷ code 22 0x3fffdc
    ∷ code 23 0x7fffe8
    ∷ code 23 0x7fffe9
    ∷ code 21 0x1fffde
    ∷ code 23 0x7fffea
    ∷ code 22 0x3fffdd
    ∷ code 22 0x3fffde
    ∷ code 24 0xfffff0
    ∷ code 21 0x1fffdf
    ∷ code 22 0x3fffdf
    ∷ code 23 0x7fffeb
    ∷ code 23 0x7fffec
    ∷ code 21 0x1fffe0
    ∷ code 21 0x1fffe1
    ∷ code 22 0x3fffe0
    ∷ code 21 0x1fffe2
    ∷ code 23 0x7fffed
    ∷ code 22 0x3fffe1
    ∷ code 23 0x7fffee
    ∷ code 23 0x7fffef
    ∷ code 20 0xfffea
    ∷ code 22 0x3fffe2
    ∷ code 22 0x3fffe3
    ∷ code 22 0x3fffe4
    ∷ code 23 0x7ffff0
    ∷ code 22 0x3fffe5
    ∷ code 22 0x3fffe6
    ∷ code 23 0x7ffff1
    ∷ code 26 0x3ffffe0
    ∷ code 26 0x3ffffe1
    ∷ code 20 0xfffeb
    ∷ code 19 0x7fff1
    ∷ code 22 0x3fffe7
    ∷ code 23 0x7ffff2
    ∷ code 22 0x3fffe8
    ∷ code 25 0x1ffffec
    ∷ code 26 0x3ffffe2
    ∷ code 26 0x3ffffe3
    ∷ code 26 0x3ffffe4
    ∷ code 27 0x7ffffde
    ∷ code 27 0x7ffffdf
    ∷ code 26 0x3ffffe5
    ∷ code 24 0xfffff1
    ∷ code 25 0x1ffffed
    ∷ code 19 0x7fff2
    ∷ code 21 0x1fffe3
    ∷ code 26 0x3ffffe6
    ∷ code 27 0x7ffffe0
    ∷ code 27 0x7ffffe1
    ∷ code 26 0x3ffffe7
    ∷ code 27 0x7ffffe2
    ∷ code 24 0xfffff2
    ∷ code 21 0x1fffe4
    ∷ code 21 0x1fffe5
    ∷ code 26 0x3ffffe8
    ∷ code 26 0x3ffffe9
    ∷ code 28 0xffffffd
    ∷ code 27 0x7ffffe3
    ∷ code 27 0x7ffffe4
    ∷ code 27 0x7ffffe5
    ∷ code 20 0xfffec
    ∷ code 24 0xfffff3
    ∷ code 20 0xfffed
    ∷ code 21 0x1fffe6
    ∷ code 22 0x3fffe9
    ∷ code 21 0x1fffe7
    ∷ code 21 0x1fffe8
    ∷ code 23 0x7ffff3
    ∷ code 22 0x3fffea
    ∷ code 22 0x3fffeb
    ∷ code 25 0x1ffffee
    ∷ code 25 0x1ffffef
    ∷ code 24 0xfffff4
    ∷ code 24 0xfffff5
    ∷ code 26 0x3ffffea
    ∷ code 23 0x7ffff4
    ∷ code 26 0x3ffffeb
    ∷ code 27 0x7ffffe6
    ∷ code 26 0x3ffffec
    ∷ code 26 0x3ffffed
    ∷ code 27 0x7ffffe7
    ∷ code 27 0x7ffffe8
    ∷ code 27 0x7ffffe9
    ∷ code 27 0x7ffffea
    ∷ code 27 0x7ffffeb
    ∷ code 28 0xffffffe
    ∷ code 27 0x7ffffec
    ∷ code 27 0x7ffffed
    ∷ code 27 0x7ffffee
    ∷ code 27 0x7ffffef
    ∷ code 27 0x7fffff0
    ∷ code 26 0x3ffffee
    ∷ []
