-- ===== src/Hpack/Table.antt =====
-- `HpackTable`: the static entries 1 to 61, and behind them the dynamic ones, the newest first. An
-- access that C++ leaves undefined, and a failed `assert`, are `none`.
pub mod Evict
pub mod History
pub mod Lookup
use cupcake.Base.{
  ℕ, zero, suc, ◌+◌, ◌-◌, ◌≤◌, Bool, true, false, [], ◌∷◌, List, Option, none, some, ltb, leb, ◌==◌,
  if◌then◌else◌, ◌>>=◌, Bytes, length, get_elem?,
}
use cupcake.Base.Word.{add_size, sub_size}
use cupcake.Hpack.Static.{static_names, static_values}

pub record Entry : Type 0 where
  pub name : Bytes
  pub value : Bytes

pub record Table : Type 0 where
  pub max_table_bytes : ℕ
  pub current_table_bytes : ℕ
  pub dynamic_table : List Entry

-- `name.length() + value.length() + ENTRY_OVERHEAD`
abbrev pub entry_size : Bytes → Bytes → ℕ
entry_size name value = add_size (add_size (length name) (length value)) 32

pub empty : Table
empty = record { max_table_bytes = 0; current_table_bytes = 0; dynamic_table = [] }

pub init : Table → ℕ → Table
init t initial = record t { max_table_bytes = initial }

-- `back()` and `pop_back()`; a deque that is empty has no back.
pub split_back : List Entry → Option (List Entry × Entry)
split_back [] = none
split_back (e ∷ es) = elim (split_back es) [
  | none ↦ some ([], e)
  | some (front, last) ↦ some (e ∷ front, last)
]

pub drop_entry : Table → Option Table
drop_entry t = do
  (front, last) ← split_back t.dynamic_table
  some (record t {
    current_table_bytes = sub_size t.current_table_bytes (entry_size last.name last.value);
    dynamic_table = front;
  })

-- `while (test(currentTableBytes)) dropEntry();` The fuel counts the rounds.
pub drop_while : ℕ → (ℕ → Bool) → Table → Option Table
drop_while zero test t = none
drop_while (suc f) test t =
    let rest = (do t' ← drop_entry t; drop_while f test t') in
    if test t.current_table_bytes then rest else some t

-- A round drops an entry, so this fuel suffices.
abbrev pub rounds : Table → ℕ
rounds t = suc (length t.dynamic_table)

unfoldable pub resize : Table → ℕ → Option Table
resize t new_max = do
  t' ← drop_while (rounds t) (λ current. ltb new_max current) t
  some (record t' { max_table_bytes = new_max })

unfoldable pub add : Table → Bytes → Bytes → Option (Table × Bool)
add t name value =
    let size = entry_size name value in
    let added = (do
      t' ← drop_while (rounds t) (λ current. ltb t.max_table_bytes (add_size current size)) t
      some (
        record t' {
          current_table_bytes = add_size t'.current_table_bytes size;
          dynamic_table = record { name = name; value = value } ∷ t'.dynamic_table;
        },
        true,
      )) in
    if ltb t.max_table_bytes size then some (t, false) else added

unfoldable pub has_entry_at_index : Table → ℕ → Option Bool
has_entry_at_index t index =
    if index == 0
    then none
    else if leb index 61
    then some true
    else some (leb (index - 61) (length t.dynamic_table))

unfoldable pub name_at_index : Table → ℕ → Option Bytes
name_at_index t index =
    let dynamic = (do e ← get_elem? t.dynamic_table (index - 62); some e.name) in
    if index == 0 then none else if leb index 61 then get_elem? static_names index else dynamic

unfoldable pub value_at_index : Table → ℕ → Option Bytes
value_at_index t index =
    let dynamic = (do e ← get_elem? t.dynamic_table (index - 62); some e.value) in
    if index == 0 then none else if leb index 61 then get_elem? static_values index else dynamic
