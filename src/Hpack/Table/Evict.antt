-- ===== src/Hpack/Table/Evict.antt =====
-- Eviction: the dynamic table keeps its newest entries, as many as fit.
use mathlib.Core.List.{◌++◌}
use cupcake.Base.{
  ℕ, zero, suc, ◌+◌, ◌-◌, ◌≤◌, ◌<◌, ◌≡◌, refl, ap, ◌∙◌, inl, inr, Bool, true, false, [], ◌∷◌, List,
  some, arith, ltb, leb, if◌then◌else◌, Bool-cases, Bytes, length, get_elem?,
}
use cupcake.Base.Word.{size_mod, add_size, sub_size}
use cupcake.Hpack.Table.{
  Entry, Table, entry_size, split_back, drop_entry, drop_while, rounds, resize, add,
}

-- The size of an entry, with no wrap-around.
abbrev pub size_of : Entry → ℕ
size_of e = length e.name + length e.value + 32

abbrev pub total : List Entry → ℕ
total [] = 0
total (e ∷ es) = size_of e + total es

-- The newest entries whose sizes fit into a budget together.
unfoldable pub newest : ℕ → List Entry → List Entry
newest budget [] = []
newest budget (e ∷ es) = if leb (size_of e) budget then e ∷ newest (budget - size_of e) es else []

-- The byte count is that of the entries, is within the maximum, and no sum of two such wraps.
pub record IsValid (t : Table) : Type 0 where
  pub counted : t.current_table_bytes ≡ total t.dynamic_table
  pub within : t.current_table_bytes ≤ t.max_table_bytes
  pub small : t.max_table_bytes < 9223372036854775808

newest_all : (budget : ℕ) (es : List Entry) → total es ≤ budget → newest budget es ≡ es
unfolding newest
newest_all budget [] h = refl
newest_all budget (e ∷ es) h = ground (arith, newest_all (budget - size_of e) es)

pub total-newest-le : (budget : ℕ) (es : List Entry) → total (newest budget es) ≤ budget
unfolding newest
total-newest-le budget [] = omega arith
total-newest-le budget (e ∷ es) = ground (arith, total-newest-le (budget - size_of e) es)

pub length-newest-lt :
    (budget : ℕ) (es : List Entry) → budget < total es → length (newest budget es) < length es
unfolding newest
length-newest-lt budget [] h = absurd (omega arith)
length-newest-lt budget (e ∷ es) h = ground (arith, length-newest-lt (budget - size_of e) es)

total-append : (xs ys : List Entry) → total (xs ++ ys) ≡ total xs + total ys
total-append [] ys = omega arith
total-append (x ∷ xs) ys = omega (arith, total-append xs ys)

-- If not everything fits, the oldest entry is not kept.
newest_drop :
    (budget : ℕ) (front : List Entry) (last : Entry)
    → budget < total (front ++ last ∷ [])
    → newest budget (front ++ last ∷ []) ≡ newest budget front
unfolding newest
newest_drop budget [] last h = ground arith
newest_drop budget (e ∷ front) last h = ground (arith, newest_drop (budget - size_of e) front last)

split_back_lem :
    (e : Entry) (es : List Entry)
    → (front : List Entry) × (last : Entry) × (split_back (e ∷ es) ≡ some (front, last))
      × (e ∷ es ≡ front ++ last ∷ [])
      × (length es ≡ length front)
unfolding split_back
split_back_lem e [] = ([], e, refl, refl, refl)
split_back_lem e (e' ∷ es) =
    let (front, last, split, whole, len) = split_back_lem e' es in
    (e ∷ front, last, ground arith, ap (◌∷◌ e) whole, ap suc len)

pub newest_prefix :
    (budget : ℕ) (es : List Entry) (i : ℕ) (e : Entry)
    → get_elem? (newest budget es) i ≡ some e
    → get_elem? es i ≡ some e
unfolding newest
newest_prefix budget [] i e h = h
newest_prefix budget (x ∷ es) zero e h = ground arith
newest_prefix budget (x ∷ es) (suc i) e h =
    ground (arith, newest_prefix (budget - size_of x) es i e)

-- The table that holds these entries and the count of their bytes.
abbrev pub holding : ℕ → List Entry → Table
holding max es = record {
  max_table_bytes = max;
  current_table_bytes = total es;
  dynamic_table = es;
}

drop_entry_lem :
    (max : ℕ) (e last : Entry) (es front : List Entry)
    → split_back (e ∷ es) ≡ some (front, last)
    → e ∷ es ≡ front ++ last ∷ []
    → total (e ∷ es) < size_mod
    → drop_entry (holding max (e ∷ es)) ≡ some (holding max front)
unfolding drop_entry
drop_entry_lem max e last es front split whole small =
    let sum = ap total whole ∙ total-append front (last ∷ []) in
    let wrap : sub_size (total (e ∷ es)) (entry_size last.name last.value) ≡ total front =
      omega arith in
    ground (arith, wrap)

-- The loop keeps the newest entries that fit into the budget, if it stops just there.
drop_while_lem :
    (budget : ℕ) (test : ℕ → Bool) (max f : ℕ) (es : List Entry)
    → ((c : ℕ) → c ≤ total es → test c ≡ ltb budget c)
    → length es < f
    → total es < size_mod
    → drop_while f test (holding max es) ≡ some (holding max (newest budget es))
unfolding drop_while
drop_while_lem budget test max zero es agree h small = absurd (omega arith)
drop_while_lem budget test max (suc f) [] agree h small =
    unfold newest in ground (arith, agree 0 (omega arith))
drop_while_lem budget test max (suc f) (e ∷ es) agree h small =
    elim (Bool-cases (ltb budget (total (e ∷ es)))) [
      | inl over ↦
          let (front, last, split, whole, len) = split_back_lem e es in
          let sum = ap total whole ∙ total-append front (last ∷ []) in
          let more : budget < total (front ++ last ∷ []) = ground arith in
          ground (
            arith,
            agree (total (e ∷ es)) (omega arith),
            drop_entry_lem max e last es front split whole small,
            drop_while_lem budget test max f front (λ c hc. agree c (omega arith)) (omega arith)
                (omega arith),
            ap (newest budget) whole,
            newest_drop budget front last more,
          )
      | inr fits ↦ ground (arith, agree (total (e ∷ es)) (omega arith), newest_all budget (e ∷ es))
    ]

holding_self : (t : Table) → IsValid t → holding t.max_table_bytes t.dynamic_table ≡ t
holding_self t v = ground (arith)

-- In a table whose recorded size is that of its entries and is within a maximum below 2^63, `resize` to
-- any new maximum keeps the newest entries that fit into it together, records their size and the new
-- maximum, and never takes an entry from an empty deque.
pub resize-newest :
    (t : Table) (new_max : ℕ)
    → IsValid t
    → resize t new_max ≡ some (holding new_max (newest new_max t.dynamic_table))
unfolding resize
resize-newest t new_max v = ground (
  arith,
  ap (drop_while (rounds t) (λ current. ltb new_max current)) (holding_self t v),
  drop_while_lem new_max (λ current. ltb new_max current) t.max_table_bytes (rounds t)
      t.dynamic_table (λ c h. refl) (omega arith) (omega arith),
)

-- The test of `add` is a test against the budget that the new entry leaves.
agree :
    (c size max : ℕ)
    → c < 9223372036854775808
    → size ≤ max
    → max < 9223372036854775808
    → ltb max (add_size c size) ≡ ltb (max - size) c
agree c size max hc fits small = ground arith

-- In a table whose recorded size is that of its entries and is within a maximum below 2^63, and for
-- an entry whose size is below 2^63, `add` drops no entry of an empty deque. An entry that is larger
-- than the maximum is refused and changes nothing; any other is put in front of the newest entries
-- that fit beside it, with the size of them all.
pub add-newest :
    (t : Table) (name value : Bytes)
    → IsValid t
    → length name + length value + 32 < 9223372036854775808
    → let e : Entry = record { name = name; value = value } in
      add t name value ≡ (
        if leb (size_of e) t.max_table_bytes
        then some (
          holding t.max_table_bytes (e ∷ newest (t.max_table_bytes - size_of e) t.dynamic_table),
          true,
        )
        else some (t, false))
unfolding add
add-newest t name value v h =
    let size = entry_size name value in
    let exact : size ≡ length name + length value + 32 = omega arith in
    let budget = t.max_table_bytes - size in
    elim (Bool-cases (leb size t.max_table_bytes)) [
      | inl fits ↦
          let test : ℕ → Bool = λ current. ltb t.max_table_bytes (add_size current size) in
          ground (
            arith,
            exact,
            ap (drop_while (rounds t) test) (holding_self t v),
            drop_while_lem budget test t.max_table_bytes (rounds t) t.dynamic_table
                (λ c hc. agree c size t.max_table_bytes (omega arith) (ground arith) (omega arith))
                (omega arith) (omega arith),
            total-newest-le budget t.dynamic_table,
          )
      | inr large ↦ ground (arith, exact)
    ]

pub holding-IsValid :
    (max : ℕ) (es : List Entry)
    → total es ≤ max
    → max < 9223372036854775808
    → IsValid (holding max es)
holding-IsValid max es h k = record { counted = refl; within = h; small = k }

pub add-keeps_max :
    (t : Table) (name value : Bytes)
    → IsValid t
    → length name + length value + 32 < 9223372036854775808
    → (t' : Table) × (fits : Bool) × (add t name value ≡ some (t', fits))
      × IsValid t'
      × (t'.max_table_bytes ≡ t.max_table_bytes)
add-keeps_max t name value v h =
    let e : Entry = record { name = name; value = value } in
    let budget = t.max_table_bytes - size_of e in
    elim (Bool-cases (leb (size_of e) t.max_table_bytes)) [
      | inl fits ↦
          let kept = total-newest-le budget t.dynamic_table in
          (
            holding t.max_table_bytes (e ∷ newest budget t.dynamic_table),
            true,
            ground (arith, add-newest t name value v h),
            holding-IsValid t.max_table_bytes _ (ground arith) v.small,
            refl,
          )
      | inr large ↦ (t, false, ground (arith, add-newest t name value v h), v, refl)
    ]
