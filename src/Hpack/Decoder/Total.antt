-- ===== src/Hpack/Decoder/Total.antt =====
-- `decode` ends, without undefined behaviour or a failed `assert`, while no number wraps.
use cupcake.Base.{
  nil_of_length, ℕ, zero, suc, ◌/◌, ◌%◌, ◌≤◌, ◌<◌, ◌≡◌, refl, ◌||◌, inl, inr, Bool-cases, [], arith,
  ◌==◌, length, length-drop,
}
use cupcake.Base.Word.{uint32_mod}
use cupcake.Hpack.Decoder.Ensures.{Ensures, bind-Ensures, Ensures-ok, Reading, NoWrap, NoWrap-drop}
use cupcake.Hpack.Decoder.Handlers
use cupcake.Hpack.Decoder.Handlers.{IsSound, Handled}
use cupcake.Hpack.Decoder.Reads.{current-Ensures, prefixed_any}
use cupcake.Hpack.Reader.Literal.{advance_by_lem}
use cupcake.Hpack.Reader.{Decoder, M, ◌>>=◌, current, advance}
use cupcake.Hpack.Table.{Table}
use cupcake.Hpack.Decoder.{
  prefixed, read_indexed_header_field, read_literal_header_incremental_indexing,
  read_literal_header_no_indexing, read_table_size_update, dispatch, read_field, decode_fuel,
  decode,
}

module _ (n : ℕ) (t : Table) (small : n < uint32_mod) (sound : IsSound t) where
  -- A handler reads the current byte, and goes on by it.
  by_current :
      (f : ℕ → M (Unit {0})) (d : Decoder)
      → Reading n t d
      → ((byte : ℕ) (d' : Decoder) → Reading n t d' → Ensures (λ _ d'. Handled n d') (f byte d'))
      → Ensures (λ _ d'. Handled n d') ((current >>= f) d)
  by_current f d r k =
      bind-Ensures (λ _ d'. Reading n t d') (λ _ d'. Handled n d') current f d
        (current-Ensures n t d r) k

  indexed-Ensures :
      (d : Decoder) → Reading n t d → Ensures (λ _ d'. Handled n d') (read_indexed_header_field d)
  unfolding read_indexed_header_field
  indexed-Ensures d r = by_current _ d r (Handlers.indexed_field-Ensures n t small sound)

  incremental-Ensures :
      (d : Decoder)
      → Reading n t d
      → Ensures (λ _ d'. Handled n d') (read_literal_header_incremental_indexing d)
  unfolding read_literal_header_incremental_indexing
  incremental-Ensures d r = by_current _ d r λ byte d1 r1. elim (Bool-cases (byte % 64 == 0)) [
    | inl none ↦ rw none (Handlers.new_name_indexed-Ensures n t small sound d1 r1)
    | inr first ↦
        rw first
          (Handlers.entry_name_indexed-Ensures n t small sound (byte % 64) d1 (ground arith) r1)
  ]

  no_indexing-Ensures :
      (d : Decoder)
      → Reading n t d
      → Ensures (λ _ d'. Handled n d') (read_literal_header_no_indexing d)
  unfolding read_literal_header_no_indexing
  no_indexing-Ensures d r = by_current _ d r λ byte d1 r1. elim (Bool-cases (byte % 16 == 0)) [
    | inl none ↦ rw none (Handlers.new_name-Ensures n t small sound d1 r1)
    | inr first ↦
        rw first (Handlers.entry_name-Ensures n t small sound (byte % 16) d1 (ground arith) r1)
  ]

  size_update-Ensures :
      (d : Decoder) → Reading n t d → Ensures (λ _ d'. Handled n d') (read_table_size_update d)
  unfolding read_table_size_update
  size_update-Ensures d r = by_current _ d r λ byte d1 r1.
      bind-Ensures (λ v d'. Reading n t d' × (v < uint32_mod)) (λ _ d'. Handled n d')
        (prefixed 0x1f (byte % 32)) _ d1 (prefixed_any n t 31 (byte % 32) d1 (omega arith) r1)
        λ size d2 r2. Handlers.table_resize-Ensures n t small sound size d2 r2.1 r2.0

  dispatch-Ensures :
      (byte : ℕ) (d : Decoder) → Reading n t d → Ensures (λ _ d'. Handled n d') (dispatch byte d)
  unfolding dispatch
  dispatch-Ensures byte d r = elim (Bool-cases (byte / 128 % 2 == 1)) [
    | inl one ↦ rw one (indexed-Ensures d r)
    | inr other ↦ rw other elim (Bool-cases (byte / 64 % 4 == 1)) [
      | inl two ↦ rw two (incremental-Ensures d r)
      | inr other2 ↦ rw other2 elim (Bool-cases (byte / 32 % 8 == 1)) [
        | inl three ↦ rw three (size_update-Ensures d r)
        | inr other3 ↦ rw other3 elim (Bool-cases (byte / 16 % 16 == 1 || byte / 16 % 16 == 0)) [
          | inl four ↦ rw four (no_indexing-Ensures d r)
          | inr other4 ↦ rw other4 tt
        ]
      ]
    ]
  ]

-- A state between two rounds: what is left is still to be read.
pub record Between (n : ℕ) (d : Decoder) : Type 0 where
  pub sound : IsSound d.table
  pub calm : NoWrap d.data_left
  pub left : length d.data_left ≤ n

read_field-Ensures :
    (n : ℕ) (d : Decoder)
    → suc n < uint32_mod
    → Between (suc n) d
    → 0 < length d.data_left
    → Ensures (λ _ d'. Between n d') (read_field d)
unfolding read_field advance
read_field-Ensures n d small b some_left =
    let r : Reading (suc n) d.table d = record {
      same_table = refl;
      calm = b.calm;
      left = b.left;
      some_left = some_left;
    } in
    bind-Ensures (λ _ d'. Reading (suc n) d.table d') (λ _ d'. Between n d') current _ d
      (current-Ensures (suc n) d.table d r)
      λ byte d1 r1.
        bind-Ensures (λ _ d'. Handled (suc n) d') (λ _ d'. Between n d') (dispatch byte) _ d1
          (dispatch-Ensures (suc n) d.table small b.sound byte d1 r1)
          λ _ d2 h2.
            Ensures-ok (λ _ d'. Between n d') (advance d2)
              (advance_by_lem 1 d2 h2.reading.some_left)
              (record {
                sound = h2.sound;
                calm = NoWrap-drop 1 d2.data_left h2.reading.calm;
                left = omega (arith, length-drop 1 d2.data_left, h2.reading.left);
              })

decode_fuel-Ensures :
    (n f : ℕ) (d : Decoder)
    → n < f
    → n < uint32_mod
    → Between n d
    → Ensures (λ _ d'. IsSound d'.table × (d'.data_left ≡ [])) (decode_fuel f d)
unfolding decode_fuel
decode_fuel-Ensures n zero d h small b = absurd (omega arith)
decode_fuel-Ensures zero (suc f) d h small b =
    let done : length d.data_left ≡ 0 = omega (arith, b.left) in
    rw done (b.sound, nil_of_length d.data_left done)
decode_fuel-Ensures (suc n) (suc f) d h small b = elim (Bool-cases (length d.data_left == 0)) [
  | inl done ↦ rw done (b.sound, nil_of_length d.data_left (ground arith))
  | inr more ↦ rw more (
      bind-Ensures (λ _ d'. Between n d') (λ _ d'. IsSound d'.table × (d'.data_left ≡ []))
        read_field _ d (read_field-Ensures n d small b (ground arith))
        λ _ d' b'. decode_fuel-Ensures n f d' (omega arith) (omega arith) b')
]

-- Over data below 2^32 bytes in which no number wraps (read at any place, no number comes out
-- below its prefix), with a table whose sizes add up to its recorded size within a limit of at most
-- `max_size` bytes, `decode` ends: it refuses the data, or it reads them to the last byte and leaves
-- such a table, or it stops at an added entry whose name refers to an entry dropped for it. It never
-- reads past the data, uses an index that has no entry, moves past the end, or runs out of rounds.
pub decode-Ensures :
    (d : Decoder)
    → length d.data_left < uint32_mod
    → IsSound d.table
    → NoWrap d.data_left
    → Ensures (λ _ d'. IsSound d'.table × (d'.data_left ≡ [])) (decode d)
unfolding decode
decode-Ensures d small sound calm =
    decode_fuel-Ensures (length d.data_left) (suc (length d.data_left)) d (omega arith) small
      (record { sound = sound; calm = calm; left = omega arith })
