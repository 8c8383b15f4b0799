-- ===== src/Hpack/Decoder/Dangling.antt =====
-- An entry that is added by the name of an entry which has to make room for it.
use cupcake.Base.{◌+◌, ◌-◌, ◌≤◌, ◌<◌, ◌≡◌, arith, Bytes, length}
use cupcake.Hpack.Decoder.{is_kept, table_add_at}
use cupcake.Hpack.Reader.{dangling, Decoder}
use cupcake.Hpack.Table.Evict.{IsValid, add-newest, length-newest-lt}

-- In a table whose recorded size is that of its entries, an entry that fits the table but not beside
-- all its entries, added by the name of the oldest entry, is made of a name that has been freed:
-- `HpackTable::add` drops the oldest entry first and copies the name it refers to then.
pub table_add_at-oldest :
    (d : Decoder) (name value : Bytes)
    → IsValid d.table
    → length name + length value + 32 ≤ d.table.max_table_bytes
    → d.table.max_table_bytes < d.table.current_table_bytes + (length name + length value + 32)
    → table_add_at (61 + length d.table.dynamic_table) name value d ≡ dangling
unfolding table_add_at is_kept
table_add_at-oldest d name value v fits full =
    let budget = d.table.max_table_bytes - (length name + length value + 32) in
    let es = d.table.dynamic_table in
    let shorter = length-newest-lt budget es (omega (arith, v.counted)) in
    ground (arith, add-newest d.table name value v (omega (arith, v.small)), shorter)
