-- ===== src/Hpack/Decoder/Handlers.antt =====
-- The handlers of a header field never fault while no number wraps, and leave a valid table.
use cupcake.Base.{
  ℕ, ◌+◌, ◌*◌, ◌%◌, ◌≤◌, ◌<◌, ◌≡◌, refl, ap, ◌∙◌, Bool, true, false, inl, inr, Bool-cases, Option,
  some, arith, leb, ◌==◌, if◌then◌else◌, Bytes, length,
}
use cupcake.Base.Word.{uint32_mod}
use cupcake.Hpack.Decoder.Ensures.{Ensures, bind-Ensures, weaken, Ensures-ok, Reading}
use cupcake.Hpack.Decoder.Reads.{prefixed-Ensures, read_string_literal-Ensures}
use cupcake.Hpack.Reader.{ok, Decoder, M, ◌>>=◌, ◌>>◌, give, refuse, read_string_literal}
use cupcake.Hpack.Table.Evict.{
  IsValid, add-keeps_max, resize-newest, holding-IsValid, total-newest-le, newest, holding,
}
use cupcake.Hpack.Table.Lookup.{has_entry-reads, has_entry-some, name_at_index-short}
use cupcake.Hpack.Table.{Table, add, resize, has_entry_at_index}
use cupcake.Hpack.Decoder.{
  of_table, add_header_name, add_header_value, table_add, table_add_at, is_kept, table_resize,
  require_entry, prefixed, name_at, value_at, push_name, push_value, push_entry, indexed_field,
  new_name_indexed, entry_name_indexed, new_name, entry_name,
}

abbrev pub max_size : ℕ
max_size = 1152921504606846976

-- A table whose byte count is right, and whose maximum leaves room for sums.
pub record IsSound (t : Table) : Type 0 where
  pub valid : IsValid t
  pub roomy : t.max_table_bytes ≤ max_size

-- A field has been handled: what is left is still to be read, with a sound table.
pub record Handled (n : ℕ) (d : Decoder) : Type 0 where
  pub sound : IsSound d.table
  pub reading : Reading n d.table d

module _ (n : ℕ) (t : Table) (small : n < uint32_mod) (sound : IsSound t) where
  Reading-Handled : (d : Decoder) → Reading n t d → Handled n d
  Reading-Handled d r = record {
    sound = rw r.same_table sound;
    reading = record { same_table = refl; calm = r.calm; left = r.left; some_left = r.some_left };
  }

  of_table-ok :
      {A : Type 0} (f : Table → Option A) (d : Decoder) {a : A}
      → d.table ≡ t
      → f t ≡ some a
      → of_table f d ≡ ok (a, d)
  unfolding of_table
  of_table-ok f d same e = rw (ap f same ∙ e, of_table)

  require_entry-Ensures :
      (index : ℕ) (d : Decoder)
      → 0 < index
      → Reading n t d
      → Ensures
          (λ _ d'. Reading n t d' × (has_entry_at_index t index ≡ some true))
          (require_entry index d)
  unfolding require_entry
  require_entry-Ensures index d pos r =
      let (b, e) = has_entry-some t index pos in
      let test : M Bool = of_table (λ t. has_entry_at_index t index) in
      bind-Ensures (λ b d'. Reading n t d' × (has_entry_at_index t index ≡ some b))
        (λ _ d'. Reading n t d' × (has_entry_at_index t index ≡ some true)) test
        (λ found. if found then give tt else refuse) d
        (Ensures-ok _ (test d) (of_table-ok _ d r.same_table e) (r, e))
        λ found d' p.
          elim found
              as (λ found.
                has_entry_at_index t index ≡ some found
                → Ensures (λ _ d'. Reading n t d' × (has_entry_at_index t index ≡ some true))
                    ((if found then give tt else refuse) d')) [
                      | true ↦ λ e. (p.0, e)
                      | false ↦ λ e. tt
                    ]
            p.1

  name_at-Ensures :
      (index : ℕ) (d : Decoder)
      → has_entry_at_index t index ≡ some true
      → Reading n t d
      → Ensures (λ s d'. Reading n t d' × (length s ≤ 2 * max_size)) (name_at index d)
  unfolding name_at
  name_at-Ensures index d found r =
      let (name, value, e, e') = has_entry-reads t index found in
      Ensures-ok _ (name_at index d) (of_table-ok _ d r.same_table e)
        (r, omega (arith, name_at_index-short t index name sound.valid e, sound.roomy))

  value_at-Ensures :
      (index : ℕ) (d : Decoder)
      → has_entry_at_index t index ≡ some true
      → Reading n t d
      → Ensures (λ _ d'. Reading n t d') (value_at index d)
  unfolding value_at
  value_at-Ensures index d found r =
      let (name, value, e, e') = has_entry-reads t index found in
      Ensures-ok _ (value_at index d) (of_table-ok _ d r.same_table e') r

  Reading-moved :
      (d d' : Decoder)
      → d'.table ≡ d.table
      → d'.data_left ≡ d.data_left
      → Reading n t d
      → Reading n t d'
  Reading-moved d d' same left r = record {
    same_table = same ∙ r.same_table;
    calm = rw left r.calm;
    left = rw left r.left;
    some_left = rw left r.some_left;
  }

  push_name-Ensures :
      (index : ℕ) (name : Bytes) (d : Decoder)
      → Reading n t d
      → Ensures (λ _ d'. Reading n t d') (push_name index name d)
  unfolding push_name
  push_name-Ensures index name d r = elim (Bool-cases (leb index 61)) [
    | inl static ↦ rw static (Reading-moved d _ refl refl r)
    | inr dynamic ↦ rw dynamic (Reading-moved d _ refl refl r)
  ]

  push_value-Ensures :
      (index : ℕ) (value : Bytes) (d : Decoder)
      → Reading n t d
      → Ensures (λ _ d'. Reading n t d') (push_value index value d)
  unfolding push_value
  push_value-Ensures index value d r = elim (Bool-cases (leb index 61)) [
    | inl static ↦ rw static (Reading-moved d _ refl refl r)
    | inr dynamic ↦ rw dynamic (Reading-moved d _ refl refl r)
  ]

  with_table :
      (d : Decoder) (t' : Table) → IsSound t' → Reading n t d → Handled n (record d { table = t' })
  with_table d t' s r = record {
    sound = s;
    reading = record { same_table = refl; calm = r.calm; left = r.left; some_left = r.some_left };
  }

  table_add-Ensures :
      (name value : Bytes) (d : Decoder)
      → length name + length value + 32 < 9223372036854775808
      → Reading n t d
      → Ensures (λ _ d'. Handled n d') (table_add name value d)
  unfolding table_add
  table_add-Ensures name value d fits r =
      let (t', b, e, valid, same) = add-keeps_max t name value sound.valid fits in
      Ensures-ok (λ _ d'. Handled n d') (table_add name value d) {d = record d { table = t' }}
        (rw (ap (λ t. add t name value) r.same_table ∙ e, table_add))
        (with_table d t' (record { valid = valid; roomy = omega (arith, same, sound.roomy) }) r)

  table_add_at-Ensures :
      (index : ℕ) (name value : Bytes) (d : Decoder)
      → length name + length value + 32 < 9223372036854775808
      → Reading n t d
      → Ensures (λ _ d'. Handled n d') (table_add_at index name value d)
  unfolding table_add_at
  table_add_at-Ensures index name value d fits r =
      let (t', b, e, valid, same) = add-keeps_max t name value sound.valid fits in
      rw (ap (λ t. add t name value) r.same_table ∙ e, table_add_at)
        elim (Bool-cases (is_kept t' index b)) [
          | inl kept ↦ rw kept (
              with_table d t' (record { valid = valid; roomy = omega (arith, same, sound.roomy) })
                r)
          | inr dropped ↦ rw dropped tt
        ]

  pub table_resize-Ensures :
      (size : ℕ) (d : Decoder)
      → size < uint32_mod
      → Reading n t d
      → Ensures (λ _ d'. Handled n d') (table_resize size d)
  unfolding table_resize
  table_resize-Ensures size d fits r =
      let kept = newest size t.dynamic_table in
      let t' = holding size kept in
      let valid = holding-IsValid size kept (total-newest-le size t.dynamic_table) (omega arith) in
      Ensures-ok (λ _ d'. Handled n d') (table_resize size d) {d = record d { table = t' }}
        (rw (ap (λ t. resize t size) r.same_table ∙ resize-newest t size sound.valid, table_resize))
        (with_table d t' (record { valid = valid; roomy = omega arith }) r)

  -- An entry's name and value, put behind the headers.
  push_entry-Ensures :
      (index : ℕ) (d : Decoder)
      → has_entry_at_index t index ≡ some true
      → Reading n t d
      → Ensures (λ _ d'. Reading n t d') (push_entry index d)
  unfolding push_entry
  push_entry-Ensures index d found r =
      bind-Ensures (λ s d'. Reading n t d' × (length s ≤ 2 * max_size)) (λ _ d'. Reading n t d')
        (name_at index) _ d (name_at-Ensures index d found r)
        λ name d1 r1.
          bind-Ensures (λ _ d'. Reading n t d') (λ _ d'. Reading n t d') (push_name index name) _ d1
            (push_name-Ensures index name d1 r1.0)
            λ _ d2 r2.
              bind-Ensures (λ _ d'. Reading n t d') (λ _ d'. Reading n t d') (value_at index) _ d2
                (value_at-Ensures index d2 found r2)
                λ value d3 r3. push_value-Ensures index value d3 r3

  pub indexed_field-Ensures :
      (byte : ℕ) (d : Decoder)
      → Reading n t d
      → Ensures (λ _ d'. Handled n d') (indexed_field byte d)
  unfolding indexed_field
  indexed_field-Ensures byte d r = elim (Bool-cases (byte % 128 == 0)) [
    | inl zero_index ↦ rw zero_index tt
    | inr some_index ↦ rw some_index (
        bind-Ensures (λ v d'. Reading n t d' × (0 < v) × (v < uint32_mod)) (λ _ d'. Handled n d')
          (prefixed 0x7f (byte % 128)) _ d
          (prefixed-Ensures n t 127 (byte % 128) d (ground arith) (omega arith) (omega arith) r)
          λ index d1 r1.
            bind-Ensures (λ _ d'. Reading n t d' × (has_entry_at_index t index ≡ some true))
              (λ _ d'. Handled n d') (require_entry index) _ d1
              (require_entry-Ensures index d1 r1.1 r1.0)
              λ _ d2 r2.
                weaken (λ _ d'. Reading n t d') (λ _ d'. Handled n d') _
                  (push_entry-Ensures index d2 r2.1 r2.0) (λ _ d' r'. Reading-Handled d' r'))
  ]

  add_header_name-Ensures :
      (name : Bytes) (d : Decoder)
      → Reading n t d
      → Ensures (λ _ d'. Reading n t d') (add_header_name name d)
  unfolding add_header_name
  add_header_name-Ensures name d r = Reading-moved d _ refl refl r

  add_header_value-Ensures :
      (value : Bytes) (d : Decoder)
      → Reading n t d
      → Ensures (λ _ d'. Reading n t d') (add_header_value value d)
  unfolding add_header_value
  add_header_value-Ensures value d r = Reading-moved d _ refl refl r

  -- A string literal is no longer than twice the data.
  abbrev Text : Bytes → Decoder → Type 0
  Text s d = Reading n t d × (length s ≤ 2 * n)

  pub new_name_indexed-Ensures :
      (d : Decoder) → Reading n t d → Ensures (λ _ d'. Handled n d') (new_name_indexed d)
  unfolding new_name_indexed
  new_name_indexed-Ensures d r =
      bind-Ensures Text (λ _ d'. Handled n d') read_string_literal _ d
        (read_string_literal-Ensures n t d small r)
        λ name d1 r1.
          bind-Ensures Text (λ _ d'. Handled n d') read_string_literal _ d1
            (read_string_literal-Ensures n t d1 small r1.0)
            λ value d2 r2.
              bind-Ensures (λ _ d'. Reading n t d') (λ _ d'. Handled n d') (add_header_name name) _
                d2 (add_header_name-Ensures name d2 r2.0)
                λ _ d3 r3.
                  bind-Ensures (λ _ d'. Reading n t d') (λ _ d'. Handled n d')
                    (add_header_value value) _ d3 (add_header_value-Ensures value d3 r3)
                    λ _ d4 r4. table_add-Ensures name value d4 (omega (arith, r1.1, r2.1)) r4

  pub new_name-Ensures : (d : Decoder) → Reading n t d → Ensures (λ _ d'. Handled n d') (new_name d)
  unfolding new_name
  new_name-Ensures d r =
      bind-Ensures Text (λ _ d'. Handled n d') read_string_literal _ d
        (read_string_literal-Ensures n t d small r)
        λ name d1 r1.
          bind-Ensures Text (λ _ d'. Handled n d') read_string_literal _ d1
            (read_string_literal-Ensures n t d1 small r1.0)
            λ value d2 r2.
              bind-Ensures (λ _ d'. Reading n t d') (λ _ d'. Handled n d') (add_header_name name) _
                d2 (add_header_name-Ensures name d2 r2.0)
                λ _ d3 r3.
                  weaken (λ _ d'. Reading n t d') (λ _ d'. Handled n d') _
                    (add_header_value-Ensures value d3 r3) (λ _ d' r'. Reading-Handled d' r')

  -- An index behind a prefix, which has an entry.
  entry_index-Ensures :
      (mask first : ℕ) (Q : Unit {0} → Decoder → Type 0) (more : ℕ → M (Unit {0})) (d : Decoder)
      → 0 < first
      → mask < 128
      → 0 < mask
      → Reading n t d
      → ((index : ℕ) (d' : Decoder)
          → has_entry_at_index t index ≡ some true
          → Reading n t d'
          → Ensures Q (more index d'))
      → Ensures Q ((prefixed mask first >>= λ index. require_entry index >> more index) d)
  entry_index-Ensures mask first Q more d pos low some_mask r k =
      bind-Ensures (λ v d'. Reading n t d' × (0 < v) × (v < uint32_mod)) Q (prefixed mask first) _ d
        (prefixed-Ensures n t mask first d pos low some_mask r)
        λ index d1 r1.
          bind-Ensures (λ _ d'. Reading n t d' × (has_entry_at_index t index ≡ some true)) Q
            (require_entry index) _ d1 (require_entry-Ensures index d1 r1.1 r1.0)
            λ _ d2 r2. k index d2 r2.1 r2.0

  pub entry_name_indexed-Ensures :
      (first : ℕ) (d : Decoder)
      → 0 < first
      → Reading n t d
      → Ensures (λ _ d'. Handled n d') (entry_name_indexed first d)
  unfolding entry_name_indexed
  entry_name_indexed-Ensures first d pos r =
      entry_index-Ensures 0x3f first (λ _ d'. Handled n d') _ d pos (omega arith) (omega arith) r
        λ index d1 found r1.
          bind-Ensures Text (λ _ d'. Handled n d') read_string_literal _ d1
            (read_string_literal-Ensures n t d1 small r1)
            λ value d2 r2.
              bind-Ensures (λ s d'. Reading n t d' × (length s ≤ 2 * max_size))
                (λ _ d'. Handled n d') (name_at index) _ d2 (name_at-Ensures index d2 found r2.0)
                λ name d3 r3.
                  bind-Ensures (λ _ d'. Reading n t d') (λ _ d'. Handled n d')
                    (push_name index name) _ d3 (push_name-Ensures index name d3 r3.0)
                    λ _ d4 r4.
                      bind-Ensures (λ _ d'. Reading n t d') (λ _ d'. Handled n d')
                        (add_header_value value) _ d4 (add_header_value-Ensures value d4 r4)
                        λ _ d5 r5.
                          table_add_at-Ensures index name value d5 (omega (arith, r2.1, r3.1)) r5

  pub entry_name-Ensures :
      (first : ℕ) (d : Decoder)
      → 0 < first
      → Reading n t d
      → Ensures (λ _ d'. Handled n d') (entry_name first d)
  unfolding entry_name
  entry_name-Ensures first d pos r =
      entry_index-Ensures 0x0f first (λ _ d'. Handled n d') _ d pos (omega arith) (omega arith) r
        λ index d1 found r1.
          bind-Ensures Text (λ _ d'. Handled n d') read_string_literal _ d1
            (read_string_literal-Ensures n t d1 small r1)
            λ value d2 r2.
              bind-Ensures (λ s d'. Reading n t d' × (length s ≤ 2 * max_size))
                (λ _ d'. Handled n d') (name_at index) _ d2 (name_at-Ensures index d2 found r2.0)
                λ name d3 r3.
                  bind-Ensures (λ _ d'. Reading n t d') (λ _ d'. Handled n d')
                    (push_name index name) _ d3 (push_name-Ensures index name d3 r3.0)
                    λ _ d4 r4.
                      weaken (λ _ d'. Reading n t d') (λ _ d'. Handled n d') _
                        (add_header_value-Ensures value d4 r4) (λ _ d' r'. Reading-Handled d' r')
