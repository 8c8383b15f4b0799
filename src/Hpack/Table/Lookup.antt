-- ===== src/Hpack/Table/Lookup.antt =====
-- Look-ups: which indices have an entry, and where an added entry stands.
use cupcake.Base.{
  ℕ, zero, suc, ◌+◌, ◌-◌, ◌≤◌, ◌<◌, ◌≡◌, ◌≢◌, refl, ap, Bool, true, inl, inr, [], ◌∷◌, List, none,
  some, arith, leb, Bool-cases, Option-cases, Bytes, length, get_elem?, get_or, all_below,
  all_below_sound, leb→le,
}
use cupcake.Hpack.Static.{static_names, static_values}
use cupcake.Hpack.Table.{Entry, Table, add, has_entry_at_index, name_at_index, value_at_index}
use cupcake.Hpack.Table.Evict.{IsValid, size_of, add-newest, newest_prefix, total}

get_elem?-some {ℓ} :
    {A : Type ℓ} (xs : List A) (i : ℕ) → i < length xs → (x : A) × (get_elem? xs i ≡ some x)
get_elem?-some [] i h = absurd (omega arith)
get_elem?-some (x ∷ xs) zero h = (x, refl)
get_elem?-some (x ∷ xs) (suc i) h = get_elem?-some xs i (omega arith)

get_elem?-none {ℓ} : {A : Type ℓ} (xs : List A) (i : ℕ) → length xs ≤ i → get_elem? xs i ≡ none
get_elem?-none [] i h = refl
get_elem?-none (x ∷ xs) zero h = absurd (omega arith)
get_elem?-none (x ∷ xs) (suc i) h = get_elem?-none xs i (omega arith)

length-static : (length static_names ≡ 62) × (length static_values ≡ 62)
unfolding static_names static_values
length-static = (refl, refl)

-- At every index at which `hasEntryAtIndex` is true, `nameAtIndex` and `valueAtIndex` read an entry.
pub has_entry-reads :
    (t : Table) (index : ℕ)
    → has_entry_at_index t index ≡ some true
    → (name : Bytes) × (value : Bytes) × (name_at_index t index ≡ some name)
      × (value_at_index t index ≡ some value)
unfolding has_entry_at_index name_at_index value_at_index
has_entry-reads t index h = elim (Bool-cases (leb index 61)) [
  | inl static ↦
      let (n, en) = get_elem?-some static_names index (ground (arith, length-static)) in
      let (v, ev) = get_elem?-some static_values index (ground (arith, length-static)) in
      (n, v, ground arith, ground arith)
  | inr dynamic ↦
      let (e, ee) = get_elem?-some t.dynamic_table (index - 62) (ground arith) in
      (e.name, e.value, ground arith, ground arith)
]

-- At every index at which `hasEntryAtIndex` is not true, `nameAtIndex` and `valueAtIndex` fail their
-- `assert` or read behind the table.
pub no_entry-faults :
    (t : Table) (index : ℕ)
    → has_entry_at_index t index ≢ some true
    → (name_at_index t index ≡ none) × (value_at_index t index ≡ none)
unfolding has_entry_at_index name_at_index value_at_index
no_entry-faults t index h = ground (arith, get_elem?-none t.dynamic_table (index - 62))

-- When `add` puts an entry below 2^63 bytes into a table whose recorded size is that of its entries and
-- is within a maximum below 2^63, its name and value are found at index 62, and every entry that
-- still stands behind it stood one place before.
pub add-lookup :
    (t : Table) (name value : Bytes) {t' : Table}
    → IsValid t
    → length name + length value + 32 < 9223372036854775808
    → add t name value ≡ some (t', true)
    → (name_at_index t' 62 ≡ some name)
      × (value_at_index t' 62 ≡ some value)
      × ((i : ℕ) (e : Entry)
          → get_elem? t'.dynamic_table (suc i) ≡ some e
          → get_elem? t.dynamic_table i ≡ some e)
unfolding name_at_index value_at_index
add-lookup t name value {t'} v h e =
    let made = add-newest t name value v h in
    (
      ground arith,
      ground arith,
      λ i x found. ground (
        arith,
        newest_prefix (t.max_table_bytes - (length name + length value + 32)) t.dynamic_table i x,
      ),
    )

static_short : all_below 62 (λ i. leb (length (get_or static_names i [])) 100) ≡ true
unfolding all_below static_names
static_short = refl

get_or_of_get_elem? :
    (xs : List Bytes) (i : ℕ) {x : Bytes} → get_elem? xs i ≡ some x → get_or xs i [] ≡ x
get_or_of_get_elem? [] i e = cc
get_or_of_get_elem? (y ∷ xs) zero e = cc
get_or_of_get_elem? (y ∷ xs) (suc i) e = get_or_of_get_elem? xs i e

size_of-le-total :
    (es : List Entry) (i : ℕ) {e : Entry} → get_elem? es i ≡ some e → size_of e ≤ total es
size_of-le-total [] i h = cc
size_of-le-total (x ∷ es) zero h = ground arith
size_of-le-total (x ∷ es) (suc i) h = omega (arith, size_of-le-total es i h)

-- No name is longer than the table, but for the static ones.
pub name_at_index-short :
    (t : Table) (index : ℕ) (name : Bytes)
    → IsValid t
    → name_at_index t index ≡ some name
    → length name ≤ t.max_table_bytes + 100
unfolding name_at_index
name_at_index-short t index name v h = elim (Bool-cases (leb index 61)) [
  | inl static ↦
      let found : get_elem? static_names index ≡ some name = ground arith in
      let short = all_below_sound 62 _ index static_short (ground arith) in
      omega (arith, ap length (get_or_of_get_elem? static_names index found), leb→le _ _ short)
  | inr dynamic ↦ elim (Option-cases (get_elem? t.dynamic_table (index - 62))) [
    | inl missing ↦ ground arith
    | inr (e, found) ↦ ground (arith, size_of-le-total t.dynamic_table (index - 62) found)
  ]
]

-- The test of an index that is not 0 is never a fault.
pub has_entry-some :
    (t : Table) (index : ℕ) → 0 < index → (b : Bool) × (has_entry_at_index t index ≡ some b)
unfolding has_entry_at_index
has_entry-some t index h = elim (Bool-cases (leb index 61)) [
  | inl static ↦ (true, ground arith)
  | inr dynamic ↦ (leb (index - 61) (length t.dynamic_table), ground arith)
]
