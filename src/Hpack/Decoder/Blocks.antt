-- ===== src/Hpack/Decoder/Blocks.antt =====
-- Header blocks of plain literals, and what `decode` makes of them.
use mathlib.Core.List.{append-nil, append_assoc}
use cupcake.Base.{
  ℕ, zero, suc, ◌≤◌, ◌<◌, ◌≡◌, refl, sym, ap, ◌∙◌, Bool, true, false, some, none, [], ◌∷◌, ◌++◌,
  List, map, arith, ◌==◌, Bytes, length, length-append,
}
use cupcake.Hpack.Decoder.{
  add_header_name, add_header_value, table_add, new_name, new_name_indexed,
  read_literal_header_incremental_indexing, read_literal_header_no_indexing, dispatch, read_field,
  decode_fuel, decode,
}
use cupcake.Hpack.Reader.Literal.{advance_by_lem, read_string_literal-encode}
use cupcake.Hpack.Reader.Number.{last_of}
use cupcake.Hpack.Reader.{
  Result, ok, Decoder, bind-eq_of_ok, current, byte_of, advance, read_string_literal,
}
use cupcake.Hpack.Table.Evict.{IsValid, add-keeps_max}
use cupcake.Hpack.Table.{Entry, Table, add}

-- A header, and whether it is to be put into the table.
pub record Item : Type 0 where
  pub indexed : Bool
  pub header : Entry

-- A text of 1 to 126 bytes.
abbrev pub IsShort : Bytes → Type 0
IsShort s = (0 < length s) × (length s < 127)

abbrev pub AllShort : List Item → Type 0
AllShort [] = Unit {0}
AllShort (i ∷ is) = (IsShort i.header.name × IsShort i.header.value) × AllShort is

abbrev first_byte : Bool → ℕ
first_byte true = 0x40
first_byte false = 0

-- The literals of RFC 7541, 6.2.1 and 6.2.2, with new names and no Huffman coding.
abbrev pub block : List Item → Bytes
block [] = []
block (i ∷ is) =
    first_byte i.indexed
    ∷ length i.header.name
    ∷ (i.header.name ++ (length i.header.value ∷ (i.header.value ++ block is)))

-- The table with an entry more, if it has room for it.
abbrev pub with_entry : Table → Entry → Table
with_entry t e = elim (add t e.name e.value) [ none ↦ t | some (t', fits) ↦ t' ]

abbrev after : Table → Bool → Entry → Table
after t true e = with_entry t e
after t false e = t

-- The table behind a block.
abbrev pub table_after : Table → List Item → Table
table_after t [] = t
table_after t (i ∷ is) = table_after (after t i.indexed i.header) is

abbrev last_byte : Bytes → ℕ
last_byte [] = 0
last_byte (x ∷ s) = last_of x s

read_literal :
    (d : Decoder) (c : ℕ) (s rest : Bytes)
    → IsShort s
    → read_string_literal (record d { data_left = c ∷ length s ∷ (s ++ rest) })
      ≡ ok (s, record d { data_left = last_byte s ∷ rest })
read_literal d c [] rest h = absurd (omega (arith, h.0))
read_literal d c (x ∷ s) rest h = read_string_literal-encode d c x s rest h.1

-- The state with a header more, and these bytes left.
abbrev with_header : Decoder → Bool → Entry → Bytes → Decoder
with_header d indexed e rest = record {
  table = after d.table indexed e;
  names = d.names ++ e.name ∷ [];
  values = d.values ++ e.value ∷ [];
  data_left = rest;
}

after-IsValid :
    (t : Table) (indexed : Bool) (e : Entry)
    → IsValid t
    → IsShort e.name
    → IsShort e.value
    → IsValid (after t indexed e)
after-IsValid t false e v h k = v
after-IsValid t true e v h k =
    let (t', fits, made, v', same) = add-keeps_max t e.name e.value v (omega (arith, h.1, k.1)) in
    rw (made, with_entry) v'

module _ (d : Decoder) (e : Entry) (rest : Bytes) (name_short : IsShort e.name)
    (value_short : IsShort e.value) where
  abbrev start : Bool → Decoder
  start indexed = record d {
    data_left =
        first_byte indexed ∷ length e.name ∷ (e.name ++ (length e.value ∷ (e.value ++ rest)));
  }

  abbrev handled : Bool → Decoder
  handled indexed = with_header d indexed e (last_byte e.value ∷ rest)

  new_name_lem : new_name (start false) ≡ ok (tt, handled false)
  unfolding new_name add_header_name add_header_value
  new_name_lem =
      bind-eq_of_ok read_string_literal _ (start false)
        (read_literal d 0 e.name (length e.value ∷ (e.value ++ rest)) name_short)
      ∙ bind-eq_of_ok read_string_literal _ _
          (read_literal d (last_byte e.name) e.value rest value_short)

  table_add_lem :
      IsValid d.table
      → table_add e.name e.value (with_header d false e (last_byte e.value ∷ rest))
        ≡ ok (tt, handled true)
  unfolding table_add
  table_add_lem v =
      let (t', fits, made, v', same) =
        add-keeps_max d.table e.name e.value v (omega (arith, name_short.1, value_short.1)) in
      rw (made, table_add, with_entry) refl

  new_name_indexed_lem : IsValid d.table → new_name_indexed (start true) ≡ ok (tt, handled true)
  unfolding new_name_indexed add_header_name add_header_value
  new_name_indexed_lem v =
      bind-eq_of_ok read_string_literal _ (start true)
        (read_literal d 0x40 e.name (length e.value ∷ (e.value ++ rest)) name_short)
      ∙ bind-eq_of_ok read_string_literal _ _
          (read_literal d (last_byte e.name) e.value rest value_short)
      ∙ table_add_lem v

  dispatch_lem :
      (indexed : Bool)
      → IsValid d.table
      → dispatch (first_byte indexed) (start indexed) ≡ ok (tt, handled indexed)
  unfolding dispatch read_literal_header_no_indexing read_literal_header_incremental_indexing
      current byte_of
  dispatch_lem false v = new_name_lem
  dispatch_lem true v = new_name_indexed_lem v

  read_field_lem :
      (indexed : Bool)
      → IsValid d.table
      → read_field (start indexed) ≡ ok (tt, with_header d indexed e rest)
  unfolding read_field current byte_of advance
  read_field_lem indexed v =
      bind-eq_of_ok (dispatch (first_byte indexed)) _ (start indexed) (dispatch_lem indexed v)
      ∙ advance_by_lem 1 (handled indexed) (omega arith)

-- The end of `decode`, with this table and these headers.
abbrev finished : Table → List Bytes → List Bytes → Result (Unit {0} × Decoder)
finished t ns vs = ok (tt, record { table = t; names = ns; values = vs; data_left = [] })

abbrev pub names_of : List Item → List Bytes
names_of = map (λ i. i.header.name)

abbrev pub values_of : List Item → List Bytes
values_of = map (λ i. i.header.value)

-- The state behind a block.
abbrev pub with_headers : Decoder → List Item → Decoder
with_headers d is = record {
  table = table_after d.table is;
  names = d.names ++ names_of is;
  values = d.values ++ values_of is;
  data_left = [];
}

same_headers :
    (t : Table) (d : Decoder) (i : Item) (is : List Item)
    → finished t
        (d.names ++ i.header.name ∷ [] ++ names_of is)
        (d.values ++ i.header.value ∷ [] ++ values_of is)
      ≡ finished t (d.names ++ names_of (i ∷ is)) (d.values ++ values_of (i ∷ is))
same_headers t d i is =
    ap (λ ns. finished t ns (d.values ++ i.header.value ∷ [] ++ values_of is))
      (append_assoc d.names (i.header.name ∷ []) (names_of is))
    ∙ ap (finished t (d.names ++ names_of (i ∷ is)))
        (append_assoc d.values (i.header.value ∷ []) (values_of is))

decode_fuel-block :
    (f : ℕ) (d : Decoder) (is : List Item)
    → length is < f
    → IsValid d.table
    → AllShort is
    → decode_fuel f (record d { data_left = block is }) ≡ ok (tt, with_headers d is)
unfolding decode_fuel
decode_fuel-block zero d is h v k = absurd (omega arith)
decode_fuel-block (suc f) d [] h v k =
    ap (λ ns. finished d.table ns d.values) (sym (append-nil d.names))
    ∙ ap (finished d.table (d.names ++ [])) (sym (append-nil d.values))
decode_fuel-block (suc f) d (i ∷ is) h v k =
    let more : (length (block (i ∷ is)) == 0) ≡ false = ground arith in
    let left : Decoder = record d { data_left = block (i ∷ is) } in
    let step = read_field_lem d i.header (block is) k.0.0 k.0.1 i.indexed v in
    let t' = after d.table i.indexed i.header in
    rw more (
      bind-eq_of_ok read_field (λ _. decode_fuel f) left step
      ∙ decode_fuel-block f (with_header d i.indexed i.header (block is)) is (omega arith)
          (after-IsValid d.table i.indexed i.header v k.0.0 k.0.1) k.1
      ∙ same_headers (table_after t' is) d i is)

length-block-ge : (is : List Item) → length is ≤ length (block is)
length-block-ge [] = omega arith
length-block-ge (i ∷ is) = omega (
  arith,
  length-block-ge is,
  length-append i.header.name (length i.header.value ∷ (i.header.value ++ block is)),
  length-append i.header.value (block is),
)

-- Over a table whose recorded size is that of its entries and is within a maximum below 2^63, `decode`
-- of a block of headers whose names and values have 1 to 126 bytes, each a plain literal with a new
-- name, ends with `true`: it appends the names and the values to those of the request in their order,
-- reads the data to the end, and has put the headers that are to be indexed, and no others, into the
-- table in their order.
pub decode-block :
    (d : Decoder) (is : List Item)
    → IsValid d.table
    → AllShort is
    → decode (record d { data_left = block is }) ≡ ok (tt, with_headers d is)
unfolding decode
decode-block d is v k =
    decode_fuel-block (suc (length (block is))) d is (omega (arith, length-block-ge is)) v k
