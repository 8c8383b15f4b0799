-- ===== src/Huffman/EncodeTable/Low.antt =====
-- Symbols 0 to 127 of `huffmanEncodeTable`.
use cupcake.Base.{List, [], ◌∷◌}
use cupcake.Huffman.Data.{EncodeData, code}

unfoldable pub low_codes : List EncodeData
low_codes =
    code 13 0x1ff8
    ∷ code 23 0x7fffd8
    ∷ code 28 0xfffffe2
    ∷ code 28 0xfffffe3
    ∷ code 28 0xfffffe4
    ∷ code 28 0xfffffe5
    ∷ code 28 0xfffffe6
    ∷ code 28 0xfffffe7
    ∷ code 28 0xfffffe8
    ∷ code 24 0xffffea
    ∷ code 30 0x3ffffffc
    ∷ code 28 0xfffffe9
    ∷ code 28 0xfffffea
    ∷ code 30 0x3ffffffd
    ∷ code 28 0xfffffeb
    ∷ code 28 0xfffffec
    ∷ code 28 0xfffffed
    ∷ code 28 0xfffffee
    ∷ code 28 0xfffffef
    ∷ code 28 0xffffff0
    ∷ code 28 0xffffff1
    ∷ code 28 0xffffff2
    ∷ code 30 0x3ffffffe
    ∷ code 28 0xffffff3
    ∷ code 28 0xffffff4
    ∷ code 28 0xffffff5
    ∷ code 28 0xffffff6
    ∷ code 28 0xffffff7
    ∷ code 28 0xffffff8
    ∷ code 28 0xffffff9
    ∷ code 28 0xffffffa
    ∷ code 28 0xffffffb
    ∷ code 6 0x14
    ∷ code 10 0x3f8
    ∷ code 10 0x3f9
    ∷ code 12 0xffa
    ∷ code 13 0x1ff9
    ∷ code 6 0x15
    ∷ code 8 0xf8
    ∷ code 11 0x7fa
    ∷ code 10 0x3fa
    ∷ code 10 0x3fb
    ∷ code 8 0xf9
    ∷ code 11 0x7fb
    ∷ code 8 0xfa
    ∷ code 6 0x16
    ∷ code 6 0x17
    ∷ code 6 0x18
    ∷ code 5 0x0
    ∷ code 5 0x1
    ∷ code 5 0x2
    ∷ code 6 0x19
    ∷ code 6 0x1a
    ∷ code 6 0x1b
    ∷ code 6 0x1c
    ∷ code 6 0x1d
    ∷ code 6 0x1e
    ∷ code 6 0x1f
    ∷ code 7 0x5c
    ∷ code 8 0xfb
    ∷ code 15 0x7ffc
    ∷ code 6 0x20
    ∷ code 12 0xffb
    ∷ code 10 0x3fc
    ∷ code 13 0x1ffa
    ∷ code 6 0x21
    ∷ code 7 0x5d
    ∷ code 7 0x5e
    ∷ code 7 0x5f
    ∷ code 7 0x60
    ∷ code 7 0x61
    ∷ code 7 0x62
    ∷ code 7 0x63
    ∷ code 7 0x64
    ∷ code 7 0x65
    ∷ code 7 0x66
    ∷ code 7 0x67
    ∷ code 7 0x68
    ∷ code 7 0x69
    ∷ code 7 0x6a
    ∷ code 7 0x6b
    ∷ code 7 0x6c
    ∷ code 7 0x6d
    ∷ code 7 0x6e
    ∷ code 7 0x6f
    ∷ code 7 0x70
    ∷ code 7 0x71
    ∷ code 7 0x72
    ∷ code 8 0xfc
    ∷ code 7 0x73
    ∷ code 8 0xfd
    ∷ code 13 0x1ffb
    ∷ code 19 0x7fff0
    ∷ code 13 0x1ffc
    ∷ code 14 0x3ffc
    ∷ code 6 0x22
    ∷ code 15 0x7ffd
    ∷ code 5 0x3
    ∷ code 6 0x23
    ∷ code 5 0x4
    ∷ code 6 0x24
    ∷ code 5 0x5
    ∷ code 6 0x25
    ∷ code 6 0x26
    ∷ code 6 0x27
    ∷ code 5 0x6
    ∷ code 7 0x74
    ∷ code 7 0x75
    ∷ code 6 0x28
    ∷ code 6 0x29
    ∷ code 6 0x2a
    ∷ code 5 0x7
    ∷ code 6 0x2b
    ∷ code 7 0x76
    ∷ code 6 0x2c
    ∷ code 5 0x8
    ∷ code 5 0x9
    ∷ code 6 0x2d
    ∷ code 7 0x77
    ∷ code 7 0x78
    ∷ code 7 0x79
    ∷ code 7 0x7a
    ∷ code 7 0x7b
    ∷ code 15 0x7ffe
    ∷ code 11 0x7fc
    ∷ code 14 0x3ffd
    ∷ code 13 0x1ffd
    ∷ code 28 0xffffffc
    ∷ []
