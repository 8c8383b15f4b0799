-- ===== src/Huffman/Decode.antt =====
-- `HuffmanEncoding::decode`. The table is an argument, as the machine is the same for any.
use cupcake.Base.{
  ℕ, ◌+◌, ◌/◌, ◌%◌, Bool, true, false, [], ◌∷◌, ◌++◌, List, ◌==◌, if◌then◌else◌, Bytes, get_or,
  length, length-append, arith, Bool-cases, inl, inr, ◌≤◌, ◌*◌,
}
use cupcake.Huffman.Data.{DecodeData, cell}
use cupcake.Huffman.DecodeTable.{huffman_decode_table}

-- The bits 0x4, 0x2 and 0x1 of the flags.
abbrev fails : DecodeData → Bool
fails d = d.flags / 4 % 2 == 1

abbrev emits : DecodeData → Bool
emits d = d.flags / 2 % 2 == 1

abbrev accepts : DecodeData → Bool
accepts d = d.flags % 2 == 1

-- `huffmanDecodeTable[state][x]`
abbrev entry : List (List DecodeData) → ℕ → ℕ → DecodeData
entry table state x = get_or (get_or table state []) x (cell 0 0 0)

-- What `dest` holds after a round of the inner loop.
abbrev pushed : Bytes → DecodeData → Bytes
pushed dest d = if emits d then dest ++ d.symbol ∷ [] else dest

-- The bytes that `dest` holds at the end, and the result. The two rounds of the inner loop are
-- written out.
pub decode_loop : List (List DecodeData) → ℕ → Bool → Bytes → Bytes → Bytes × Bool
decode_loop table state accept dest [] = (dest, accept)
decode_loop table state accept dest (c ∷ cs) =
    let high = entry table state (c / 16) in
    let low = entry table high.state (c % 16) in
    let rest = decode_loop table low.state (accepts low) (pushed (pushed dest high) low) cs in
    if fails high then (dest, false) else if fails low then (pushed dest high, false) else rest

unfoldable pub decode : Bytes → Bytes → Bytes × Bool
unfolding decode_loop
decode dest cs = decode_loop huffman_decode_table 0 true dest cs

length-pushed : (dest : Bytes) (d : DecodeData) → length (pushed dest d) ≤ length dest + 1
length-pushed dest d = elim (Bool-cases (emits d)) [
  | inl one ↦ rw one (omega (arith, length-append dest (d.symbol ∷ [])))
  | inr same ↦ rw same (omega arith)
]

length-decode_loop :
    (table : List (List DecodeData)) (state : ℕ) (accept : Bool) (dest cs : Bytes)
    → length (decode_loop table state accept dest cs).0 ≤ length dest + 2 * length cs
unfolding decode_loop
length-decode_loop table state accept dest [] = omega arith
length-decode_loop table state accept dest (c ∷ cs) =
    let high = entry table state (c / 16) in
    let low = entry table high.state (c % 16) in
    let one = pushed dest high in
    let rest = length-decode_loop table low.state (accepts low) (pushed one low) cs in
    let more = length-pushed one low in
    let some_more = length-pushed dest high in
    elim (Bool-cases (fails high)) [
      | inl stop ↦ rw stop (omega arith)
      | inr on ↦ rw on elim (Bool-cases (fails low)) [
        | inl stop ↦ rw stop (omega arith)
        | inr on' ↦ rw on' (omega arith)
      ]
    ]

-- `HuffmanEncoding::decode` puts two bytes at most into an empty buffer for every byte it reads.
pub length-decode : (cs : Bytes) → length (decode [] cs).0 ≤ 2 * length cs
unfolding decode
length-decode cs = omega (arith, length-decode_loop huffman_decode_table 0 true [] cs)
