-- ===== src/Http/BufferedReader/Layout.antt =====
-- The bytes that a reader is yet to give: those in its buffer, and the rest of the stream.
use mathlib.Core.List.{append_assoc}
use cupcake.Base.{
  length-take, take-append-drop, ◌≤◌, ℕ, zero, suc, ◌+◌, ◌-◌, ◌≤◌, ◌<◌, ◌≡◌, ◌∙◌, refl, sym, ap, [],
  ◌∷◌, ◌++◌, arith, Bytes, length, take, drop, length-append, length-drop, take-length-append,
  drop-length-append,
}
use cupcake.Base.Word.{uint32_mod}
use cupcake.Http.BufferedReader.{Reader, init, new_buffer, write_at, between, with_bytes}
use cupcake.Http.Stream.{Source}

-- The buffer is what was read before, what is pending, and what is free; all of it has a 32-bit
-- length.
pub record IsLayout (r : Reader) (before pending free : Bytes) : Type 0 where
  pub parts : r.buffer ≡ before ++ (pending ++ free)
  pub starts : r.start_index ≡ length before
  pub ends : r.end_index ≡ length before + length pending
  pub some_buffer : 0 < length r.buffer
  pub small : length r.buffer < uint32_mod

-- The reader's indices are in order within its buffer, and these bytes are yet to come from it.
abbrev pub Holds : Reader → Bytes → Type 0
Holds r contents =
    (before : Bytes) × (pending : Bytes) × (free : Bytes) × IsLayout r before pending free
    × (contents ≡ pending ++ r.source.stream)

pub length-new_buffer : (n : ℕ) → length (new_buffer n) ≡ n
length-new_buffer zero = refl
length-new_buffer (suc n) = ap suc (length-new_buffer n)

pub init-Holds :
    (source : Source) (size : ℕ)
    → 0 < size
    → size < uint32_mod
    → Holds (init source size) source.stream
unfolding init
init-Holds source size pos small =
    let len = length-new_buffer size in
    (
      [],
      [],
      new_buffer size,
      record {
        parts = refl;
        starts = refl;
        ends = omega arith;
        some_buffer = omega (arith, len);
        small = omega (arith, len);
      },
      refl,
    )

pub take_back : (xs ys : Bytes) (n : ℕ) → n ≡ length xs → take n (xs ++ ys) ≡ xs
take_back xs ys n e = rw e (take-length-append xs ys)

pub drop_back : (xs ys : Bytes) (n : ℕ) → n ≡ length xs → drop n (xs ++ ys) ≡ ys
drop_back xs ys n e = rw e (drop-length-append xs ys)

module _ (r : Reader) (before pending free : Bytes) (lay : IsLayout r before pending free) where
  pub length-buffer : length r.buffer ≡ length before + (length pending + length free)
  length-buffer =
      ap length lay.parts
      ∙ length-append before (pending ++ free)
      ∙ ap (◌+◌ (length before)) (length-append pending free)

  pub drop-start : drop r.start_index r.buffer ≡ pending ++ free
  drop-start =
      ap (drop r.start_index) lay.parts
      ∙ drop_back before (pending ++ free) r.start_index lay.starts

  pub between-lem : between r.buffer r.start_index r.end_index ≡ pending
  between-lem =
      ap (take (r.end_index - r.start_index)) drop-start
      ∙ take_back pending free (r.end_index - r.start_index) (omega (arith, lay.starts, lay.ends))

-- A write over the front of the free part.
pub write_at-append :
    (front free bytes : Bytes)
    → length bytes ≤ length free
    → write_at (front ++ free) (length front) bytes ≡ front ++ (bytes ++ drop (length bytes) free)
write_at-append front free bytes fits =
    ap (λ xs. xs ++ (bytes ++ drop (length front + length bytes) (front ++ free)))
      (take-length-append front free)
    ∙ ap (λ xs. front ++ (bytes ++ xs)) (drop-append front free (length bytes))
  where
    drop-append : (xs ys : Bytes) (n : ℕ) → drop (length xs + n) (xs ++ ys) ≡ drop n ys
    drop-append [] ys n = let e : 0 + n ≡ n = omega arith in rw e refl
    drop-append (x ∷ xs) ys n =
        let e : suc (length xs) + n ≡ suc (length xs + n) = omega arith in
        rw e (drop-append xs ys n)

-- Bytes that are read behind the pending ones are pending then.
pub with_bytes-IsLayout :
    (r : Reader) (pending free bytes : Bytes) (source : Source)
    → IsLayout r [] pending free
    → length bytes ≤ length free
    → IsLayout (with_bytes r bytes source) [] (pending ++ bytes) (drop (length bytes) free)
with_bytes-IsLayout r pending free bytes source lay fits =
    let place : r.end_index ≡ length pending = omega (arith, lay.ends) in
    let parts =
      ap (λ b. write_at b r.end_index bytes) lay.parts
      ∙ ap (λ k. write_at (pending ++ free) k bytes) place
      ∙ write_at-append pending free bytes fits
      ∙ sym (append_assoc pending bytes (drop (length bytes) free)) in
    let size = length-append (pending ++ bytes) (drop (length bytes) free) in
    let size' = length-append pending bytes in
    let left = length-drop {A = ℕ} (length bytes) free in
    let len = length-buffer r [] pending free lay in
    record {
      parts = parts;
      starts = lay.starts;
      ends = omega (arith, place, size');
      some_buffer = omega (arith, ap length parts, size, size', left, len, fits, lay.some_buffer);
      small = omega (arith, ap length parts, size, size', left, len, fits, lay.small);
    }

-- Bytes that are read over the front of the buffer are pending then.
pub write_front-IsLayout :
    (r : Reader) (bytes : Bytes) (source : Source) (start : ℕ)
    → start ≡ 0
    → length bytes ≤ length r.buffer
    → 0 < length r.buffer
    → length r.buffer < uint32_mod
    → IsLayout
        (record r {
          source = source;
          buffer = write_at r.buffer 0 bytes;
          start_index = start;
          end_index = length bytes;
        })
        []
        bytes
        (drop (length bytes) r.buffer)
write_front-IsLayout r bytes source start front fits pos small =
    let zero_place : 0 + length bytes ≡ length bytes = omega arith in
    let tail = drop (length bytes) r.buffer in
    let left = length-drop {A = ℕ} (length bytes) r.buffer in
    let whole = length-append bytes tail in
    record {
      parts = ap (λ k. bytes ++ drop k r.buffer) zero_place;
      starts = front;
      ends = omega arith;
      some_buffer = rw zero_place (omega (arith, whole, left, fits, pos));
      small = rw zero_place (omega (arith, whole, left, fits, small));
    }

-- Some pending bytes are passed over.
pub skip-IsLayout :
    (k : ℕ) (r : Reader) (before pending free : Bytes)
    → IsLayout r before pending free
    → k ≤ length pending
    → IsLayout
        (record r { start_index = r.start_index + k })
        (before ++ take k pending)
        (drop k pending)
        free
skip-IsLayout k r before pending free lay fits =
    let split = take-append-drop k pending in
    let taken = length-take {A = ℕ} k pending in
    let left = length-drop {A = ℕ} k pending in
    let size = length-append before (take k pending) in
    record {
      parts =
          lay.parts
          ∙ ap (λ xs. before ++ (xs ++ free)) (sym split)
          ∙ ap (◌++◌ before) (append_assoc (take k pending) (drop k pending) free)
          ∙ sym (append_assoc before (take k pending) (drop k pending ++ free));
      starts = omega (arith, lay.starts, size, taken, fits);
      ends = omega (arith, lay.ends, size, taken, left, fits);
      some_buffer = lay.some_buffer;
      small = lay.small;
    }
