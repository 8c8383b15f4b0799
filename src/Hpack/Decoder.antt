-- ===== src/Hpack/Decoder.antt =====
-- The handlers and the loop of src/http2/HpackDecoder.cpp.
pub mod Ensures
mod Reads
pub mod Handlers
pub mod Total
pub mod Dangling
pub mod Blocks
use cupcake.Base.{
  ℕ, zero, suc, ◌+◌, ◌-◌, ◌/◌, ◌%◌, Bool, true, false, not, ◌||◌, [], ◌∷◌, ◌++◌, Option, none, some,
  ltb, leb, ◌==◌, if◌then◌else◌, Bytes, length,
}
use cupcake.Hpack.Reader.{
  Result, ok, refused, fault, dangling, Decoder, M, ◌>>=◌, ◌>>◌, give, refuse, current, advance,
  read_number, read_string_literal,
}
use cupcake.Hpack.Table.{Table, resize, add, has_entry_at_index, name_at_index, value_at_index}

-- A call on the table; its faults are the decoder's.
pub of_table : {A : Type 0} → (Table → Option A) → M A
of_table f d = elim (f d.table) [ none ↦ fault | some a ↦ ok (a, d) ]

-- `addHeaderName` and `addHeaderValue` of the request data; the static forms call them.
pub add_header_name : Bytes → M (Unit {0})
add_header_name name d = ok (tt, record d { names = d.names ++ name ∷ [] })

pub add_header_value : Bytes → M (Unit {0})
add_header_value value d = ok (tt, record d { values = d.values ++ value ∷ [] })

pub add_static_header_name : Bytes → M (Unit {0})
add_static_header_name = add_header_name

pub add_static_header_value : Bytes → M (Unit {0})
add_static_header_value = add_header_value

-- `hpackTable->add(headerName, headerValue)`, whose result is not looked at.
pub table_add : Bytes → Bytes → M (Unit {0})
table_add name value d = elim (add d.table name value) [
  | none ↦ fault
  | some (t, fits) ↦ ok (tt, record d { table = t })
]

-- Whether the entry at an index has outlived the drops of an `add`: a static one has, and a dynamic
-- one if the table, with the new entry in front, reaches one place behind it.
pub is_kept : Table → ℕ → Bool → Bool
is_kept t index fits = not fits || leb index 61 || ltb (index - 61) (length t.dynamic_table)

-- The same with a name that refers into the entry at an index: `add` copies it after its drops.
pub table_add_at : ℕ → Bytes → Bytes → M (Unit {0})
table_add_at index name value d = elim (add d.table name value) [
  | none ↦ fault
  | some (t, fits) ↦ if is_kept t index fits then ok (tt, record d { table = t }) else dangling
]

pub table_resize : ℕ → M (Unit {0})
table_resize size d = elim (resize d.table size) [
  | none ↦ fault
  | some t ↦ ok (tt, record d { table = t })
]

-- `if (!hpackTable->hasEntryAtIndex(index)) return false;`
pub require_entry : ℕ → M (Unit {0})
require_entry index = do
  found ← of_table (λ t. has_entry_at_index t index)
  if found then give tt else refuse

-- A number whose prefix is all ones goes on behind it.
pub prefixed : ℕ → ℕ → M ℕ
prefixed mask first = if ltb first mask then give first else read_number mask

pub name_at : ℕ → M Bytes
name_at index = of_table (λ t. name_at_index t index)

pub value_at : ℕ → M Bytes
value_at index = of_table (λ t. value_at_index t index)

pub push_name : ℕ → Bytes → M (Unit {0})
unfolding add_static_header_name add_header_name
push_name index name = if leb index 61 then add_static_header_name name else add_header_name name

pub push_value : ℕ → Bytes → M (Unit {0})
unfolding add_static_header_value add_header_value
push_value index value =
    if leb index 61 then add_static_header_value value else add_header_value value

pub push_entry : ℕ → M (Unit {0})
push_entry index = do
  name ← name_at index
  push_name index name
  value ← value_at index
  push_value index value

-- `readIndexedHeaderField`, at its first byte. Index 0 is not allowed.
pub indexed_field : ℕ → M (Unit {0})
indexed_field byte =
    let entry = (do index ← prefixed 0x7f (byte % 128); require_entry index; push_entry index) in
    if byte % 128 == 0 then refuse else entry

pub read_indexed_header_field : M (Unit {0})
read_indexed_header_field = do byte ← current; indexed_field byte

-- A literal header that is put into the table as well.
pub new_name_indexed : M (Unit {0})
new_name_indexed = do
  name ← read_string_literal
  value ← read_string_literal
  add_header_name name
  add_header_value value
  table_add name value

pub entry_name_indexed : ℕ → M (Unit {0})
entry_name_indexed first = do
  index ← prefixed 0x3f first
  require_entry index
  value ← read_string_literal
  name ← name_at index
  push_name index name
  add_header_value value
  table_add_at index name value

-- `readLiteralHeaderIncrementalIndexing`
pub read_literal_header_incremental_indexing : M (Unit {0})
read_literal_header_incremental_indexing = do
  byte ← current
  if byte % 64 == 0 then new_name_indexed else entry_name_indexed (byte % 64)

-- A literal header that is not.
pub new_name : M (Unit {0})
new_name = do
  name ← read_string_literal
  value ← read_string_literal
  add_header_name name
  add_header_value value

pub entry_name : ℕ → M (Unit {0})
entry_name first = do
  index ← prefixed 0x0f first
  require_entry index
  value ← read_string_literal
  name ← name_at index
  push_name index name
  add_header_value value

-- `readLiteralHeaderNoIndexing`
pub read_literal_header_no_indexing : M (Unit {0})
read_literal_header_no_indexing = do
  byte ← current
  if byte % 16 == 0 then new_name else entry_name (byte % 16)

-- `readTableSizeUpdate`
pub read_table_size_update : M (Unit {0})
read_table_size_update = do
  byte ← current
  new_size ← prefixed 0x1f (byte % 32)
  table_resize new_size

-- The tests of `decode` on the first byte of a field.
pub dispatch : ℕ → M (Unit {0})
dispatch byte =
    if byte / 128 % 2 == 1
    then read_indexed_header_field
    else if byte / 64 % 4 == 1
    then read_literal_header_incremental_indexing
    else if byte / 32 % 8 == 1
    then read_table_size_update
    else if byte / 16 % 16 == 1 || byte / 16 % 16 == 0
    then read_literal_header_no_indexing
    else refuse

-- One round of the loop.
pub read_field : M (Unit {0})
read_field = do byte ← current; dispatch byte; advance

-- `decode`. The fuel counts the rounds; running out of it is a fault.
pub decode_fuel : ℕ → M (Unit {0})
decode_fuel zero d = fault
decode_fuel (suc f) d =
    let more = (read_field >>= λ _. decode_fuel f) d in
    if length d.data_left == 0 then ok (tt, d) else more

-- Every round takes a byte at least.
pub decode : M (Unit {0})
decode d = decode_fuel (suc (length d.data_left)) d
