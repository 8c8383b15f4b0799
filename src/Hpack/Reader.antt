-- ===== src/Hpack/Reader.antt =====
-- `HpackDecoder`'s state, and its reads of bytes, numbers and strings.
pub mod Number
pub mod Literal
use cupcake.Base.{
  ◌≡◌, ℕ, zero, suc, ◌+◌, ◌*◌, ◌/◌, ◌%◌, ◌^◌, Bool, true, false, not, [], ◌∷◌, List, ltb, ◌==◌,
  if◌then◌else◌, Bytes, length, take, drop,
}
use cupcake.Base.Word.{add_uint32, sub_uint32, uint32_mod}
use cupcake.Hpack.Table.{Table}
use cupcake.Huffman.Decode

-- What a call gives: a value; `false`, after which the caller gives the state up; or behaviour
-- that C++ leaves undefined, or a failed `assert`; `dangling` is a read through a reference into a
-- table entry that has been dropped.
pub data Result (A : Type 0) : Type 0 where
  ok : A → Result A
  refused : Result A
  fault : Result A
  dangling : Result A

-- `data_left` holds the bytes from `data` up to `dataEnd`. `names` and `values` are those of the
-- request data.
pub record Decoder : Type 0 where
  pub table : Table
  pub names : List Bytes
  pub values : List Bytes
  pub data_left : Bytes

abbrev pub M : Type 0 → Type 0
M A = Decoder → Result (A × Decoder)

infixl 5 ◌>>=◌ ◌>>◌
abbrev pub ◌>>=◌ : {A B : Type 0} → M A → (A → M B) → M B
◌>>=◌ m f d = elim (m d) [
  | ok (a, d') ↦ f a d'
  | refused ↦ refused
  | fault ↦ fault
  | dangling ↦ dangling
]

abbrev pub ◌>>◌ : {B : Type 0} → M (Unit {0}) → M B → M B
m >> k = m >>= λ _. k

pub bind-eq_of_ok :
    {A B : Type 0} (m : M A) (f : A → M B) (d : Decoder) {a : A} {d' : Decoder}
    → m d ≡ ok (a, d')
    → (m >>= f) d ≡ f a d'
bind-eq_of_ok m f d e = rw (e, ◌>>=◌)

abbrev pub give : {A : Type 0} → A → M A
give a d = ok (a, d)

abbrev pub refuse : {A : Type 0} → M A
refuse d = refused

-- `*data`
unfoldable pub byte_of : Bytes → Decoder → Result (ℕ × Decoder)
byte_of [] d = fault
byte_of (c ∷ cs) d = ok (c, d)

unfoldable pub current : M ℕ
unfolding byte_of
current d = byte_of d.data_left d

unfoldable pub next_of : Bytes → Decoder → Result (ℕ × Decoder)
next_of (c ∷ next ∷ rest) d = ok (next, record d { data_left = next ∷ rest })
next_of _ d = refused

-- `nextByte`, whose `false` every caller passes on.
unfoldable pub next_byte : M ℕ
unfolding next_of
next_byte d = next_of d.data_left d

-- One of the first four extensions: seven bits, at a shift, and the rest of the number if the top
-- bit is set.
abbrev pub extension : ℕ → ℕ → (ℕ → M ℕ) → M ℕ
extension shift res_val more = do
  byte ← next_byte
  let res_val' = add_uint32 res_val (byte % 128 * 2 ^ shift)
  if byte / 128 % 2 == 0 then give res_val' else more res_val'

-- The fifth extension, of four bits.
unfoldable pub from_fifth : ℕ → M ℕ
from_fifth res_val = do
  byte ← next_byte
  if ltb 0xf byte then refuse else give (add_uint32 res_val (byte * 2 ^ 28))

unfoldable pub from_fourth : ℕ → M ℕ
from_fourth res_val = extension 21 res_val from_fifth

unfoldable pub from_third : ℕ → M ℕ
from_third res_val = extension 14 res_val from_fourth

unfoldable pub from_second : ℕ → M ℕ
from_second res_val = extension 7 res_val from_third

-- `readNumberAfterPrefix`
unfoldable pub read_number : ℕ → M ℕ
unfolding from_second from_third from_fourth from_fifth
read_number initial = extension 0 initial from_second

-- `data += count`, up to `dataEnd`.
unfoldable pub advance_by : ℕ → M (Unit {0})
advance_by count d =
    if ltb (length d.data_left) count
    then fault
    else ok (tt, record d { data_left = drop count d.data_left })

unfoldable pub advance : M (Unit {0})
unfolding advance_by
advance = advance_by 1

-- The bytes of a string literal, once its length is known: `data` moves onto its last byte.
unfoldable pub literal_bytes : Bool → ℕ → M Bytes
literal_bytes huffman len d =
    let raw = take len d.data_left in
    let buffer = if huffman then (Decode.decode [] raw).0 else raw in
    let moved = (do advance_by (sub_uint32 len 1); give buffer) in
    if ltb (length d.data_left) len then refused else moved d

-- The length of a literal, from its first byte.
unfoldable pub literal_length : ℕ → M ℕ
literal_length initial = if not (initial % 128 == 0) then give (initial % 128) else read_number 0x7f

-- `readStringLiteral`: what it leaves in its buffer.
unfoldable pub read_string_literal : M Bytes
unfolding literal_length
read_string_literal = do
  initial ← next_byte
  len ← literal_length initial
  advance_by 1
  literal_bytes (initial / 128 % 2 == 1) len
