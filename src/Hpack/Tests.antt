-- ===== src/Hpack/Tests.antt =====
-- Runs of src/http2/HpackDecoder.cpp and src/http2/HpackTable.cpp, and their theorems at inputs.
use cupcake.Base.{
  ℕ, zero, suc, ◌+◌, ◌-◌, ◌%◌, ◌≡◌, ◌≢◌, refl, [], ◌∷◌, List, ◌++◌, true, false, leb, if◌then◌else◌,
  some, arith, Bytes, codes, get_elem?,
}
use cupcake.Base.Word.{uint32_mod}
use cupcake.Hpack.Decoder.Blocks.{Item, block, with_headers, decode-block}
use cupcake.Hpack.Decoder.Dangling.{table_add_at-oldest}
use cupcake.Hpack.Decoder.Ensures.{Ensures, NoWrap}
use cupcake.Hpack.Decoder.Handlers.{IsSound}
use cupcake.Hpack.Decoder.Total.{decode-Ensures}
use cupcake.Hpack.Decoder.{table_add_at, decode}
use cupcake.Hpack.Reader.Literal.{read_string_literal-encode, empty_literal_refused}
use cupcake.Hpack.Reader.Number.{encode_extension, last_of, read_number-encode}
use cupcake.Hpack.Reader.{
  ok, refused, dangling, Decoder, next_byte, read_number, read_string_literal,
}
use cupcake.Hpack.Table.Evict.{
  IsValid, holding, holding-IsValid, newest, size_of, add-newest, resize-newest,
}
use cupcake.Hpack.Table.History.{resizes, adds, changes, changes-init-IsValid}
use cupcake.Hpack.Table.Lookup.{add-lookup}
use cupcake.Hpack.Table.{
  resize, Entry, Table, empty, init, add, has_entry_at_index, name_at_index, value_at_index,
}

abbrev first_entry : Entry
first_entry = record { name = codes "a"; value = codes "b" }

-- A table of 100 bytes, with one entry of 34.
abbrev one_entry : Table
one_entry = holding 100 (first_entry ∷ [])

one_entry-IsValid : IsValid one_entry
one_entry-IsValid = holding-IsValid 100 (first_entry ∷ []) (omega arith) (omega arith)

abbrev over_table : Table → Bytes → Decoder
over_table t bytes = record { table = t; names = []; values = []; data_left = bytes }

-- `:method: GET`, from the static table.
abbrev get_method : Decoder
get_method = over_table one_entry (0x82 ∷ [])

get_method-NoWrap : NoWrap (0x82 ∷ [])
unfolding read_number next_byte
get_method-NoWrap = (λ d d' prefix v left small e. cc, tt)

decode-Ensures_example :
    Ensures (λ _ d'. IsSound d'.table × (d'.data_left ≡ [])) (decode get_method)
decode-Ensures_example =
    decode-Ensures get_method (omega arith)
      (record { valid = one_entry-IsValid; roomy = omega arith }) get_method-NoWrap

-- A header that is put into the table, and one that is not.
abbrev two_items : List Item
two_items =
    record { indexed = true; header = record { name = codes "key"; value = codes "one" } }
    ∷ record { indexed = false; header = record { name = codes "other"; value = codes "2" } }
    ∷ []

decode-block_example :
    decode (over_table one_entry (block two_items))
    ≡ ok (tt, with_headers (over_table one_entry []) two_items)
decode-block_example = decode-block (over_table one_entry []) two_items one_entry-IsValid (
  ((omega arith, omega arith), (omega arith, omega arith)),
  (((omega arith, omega arith), (omega arith, omega arith)), tt),
)

resize-newest_example : resize one_entry 33 ≡ some (holding 33 (newest 33 (first_entry ∷ [])))
resize-newest_example = resize-newest one_entry 33 one_entry-IsValid

abbrev long_name : Bytes
long_name = codes "content-disposition-of-this-header-entry"

add-newest_example : add one_entry long_name [] ≡ (
    if leb (size_of (record { name = long_name; value = [] })) 100
    then some (
      holding 100 (
          record { name = long_name; value = [] }
          ∷ newest (100 - size_of (record { name = long_name; value = [] })) (first_entry ∷ [])),
      true,
    )
    else some (one_entry, false))
add-newest_example = add-newest one_entry long_name [] one_entry-IsValid (omega arith)

changes-init-IsValid_example :
    (t : Table) × (changes
        (init empty 70)
        (adds [] [] ∷ adds (codes "a") (codes "b") ∷ adds [] [] ∷ resizes 40 ∷ [])
      ≡ some t)
    × IsValid t
changes-init-IsValid_example =
    changes-init-IsValid 70
      (adds [] [] ∷ adds (codes "a") (codes "b") ∷ adds [] [] ∷ resizes 40 ∷ []) (omega arith)
      (omega arith, (omega arith, (omega arith, (omega arith, tt))))

added :
    add one_entry (codes "c") (codes "d")
    ≡ some (holding 100 (record { name = codes "c"; value = codes "d" } ∷ first_entry ∷ []), true)
unfolding newest
added = add-newest one_entry (codes "c") (codes "d") one_entry-IsValid (omega arith)

add-lookup_example :
    (name_at_index
        (holding 100 (record { name = codes "c"; value = codes "d" } ∷ first_entry ∷ []))
        62
      ≡ some (codes "c"))
    × (value_at_index
          (holding 100 (record { name = codes "c"; value = codes "d" } ∷ first_entry ∷ []))
          62
        ≡ some (codes "d"))
    × ((i : ℕ) (e : Entry)
        → get_elem? (record { name = codes "c"; value = codes "d" } ∷ first_entry ∷ []) (suc i)
          ≡ some e
        → get_elem? (first_entry ∷ []) i ≡ some e)
add-lookup_example =
    add-lookup one_entry (codes "c") (codes "d") one_entry-IsValid (omega arith) added

has_62 : has_entry_at_index one_entry 62 ≡ some true
unfolding has_entry_at_index
has_62 = refl

lacks_63 : has_entry_at_index one_entry 63 ≢ some true
unfolding has_entry_at_index
lacks_63 = λ e. cc

table_add_at-oldest_example : table_add_at 62 long_name [] (over_table one_entry []) ≡ dangling
table_add_at-oldest_example =
    table_add_at-oldest (over_table one_entry []) long_name [] one_entry-IsValid (omega arith)
      (omega arith)

read_number-encode_example :
    read_number 31 (over_table one_entry (63 ∷ (encode_extension 1306 ++ [])))
    ≡ ok ((31 + 1306) % uint32_mod, over_table one_entry (last_of 63 (encode_extension 1306) ∷ []))
read_number-encode_example =
    read_number-encode (over_table one_entry []) 63 31 1306 [] (omega arith) (omega arith)

read_string_literal-encode_example :
    read_string_literal (over_table one_entry (0x40 ∷ 3 ∷ codes "key" ++ codes "rest"))
    ≡ ok (codes "key", over_table one_entry (b'y' ∷ codes "rest"))
read_string_literal-encode_example =
    read_string_literal-encode (over_table one_entry []) 0x40 b'k' (codes "ey") (codes "rest")
      (omega arith)

empty_literal_refused_example :
    (read_string_literal (over_table one_entry (0x40 ∷ 0 ∷ [])) ≡ refused)
    × (read_string_literal (over_table one_entry (0x40 ∷ 0 ∷ (encode_extension 1 ++ codes "a")))
        ≡ refused)
empty_literal_refused_example =
    empty_literal_refused (over_table one_entry []) 0x40 1 (codes "a") (omega arith) (omega arith)

abbrev repeated : ℕ → Bytes
repeated zero = []
repeated (suc n) = b'x' ∷ repeated n
