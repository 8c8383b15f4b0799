-- ===== src/Http/BufferedReader/Skip/Discard.antt =====
-- `discard` against the bytes that the reader is yet to give.
use mathlib.Core.Path.{subst}
use cupcake.Base.{
  drop_front, ℕ, zero, suc, ◌+◌, ◌-◌, ◌≤◌, ◌<◌, ◌≡◌, ◌∙◌, refl, sym, ap, ◌⊎◌, inl, inr, Bool-cases,
  true, false, [], ◌++◌, arith, ltb, ◌==◌, if◌then◌else◌, Bytes, length, take, drop, length-append,
  split_behind,
}
use cupcake.Base.Word.{uint32_mod, add_uint32, sub_uint32}
use cupcake.Http.BufferedReader.Layout.{
  IsLayout, Holds, length-buffer, write_front-IsLayout, skip-IsLayout,
}
use cupcake.Http.BufferedReader.Skip.{discard_rounds, discard}
use cupcake.Http.BufferedReader.{Reader, buffer_len, write_at}
use cupcake.Http.Stream.{Reply, ok, err, Source, source_read, source_read-cases}

-- The first `n` bytes go if more than `n` are to come, and otherwise the error of the stream is given.
abbrev pub Discards : ℕ → Reader → Bytes → Reply (Unit {0}) × Reader → Type 0
Discards n r contents result =
    (r' : Reader) × (((n < length contents) × (result ≡ (ok tt, r')) × Holds r' (drop n contents))
      ⊎ ((length contents ≤ n) × (result ≡ (err r.source.ending, r')) × Holds r' []))

-- The bytes wait in the buffer, or it is empty and begins at 0.
abbrev pub IsReady : ℕ → ℕ → Reader → Bytes → Type 0
IsReady f n r pending =
    ((0 < length pending) × (n < f)) ⊎ ((length pending ≡ 0) × (r.start_index ≡ 0) × (n + 1 < f))

discard_rounds-Discards :
    (f n : ℕ) (r : Reader) (before pending free : Bytes)
    → IsLayout r before pending free
    → IsReady f n r pending
    → Discards n r (pending ++ r.source.stream) (discard_rounds f n r)
unfolding discard_rounds
discard_rounds-Discards zero n r before pending free lay ready = absurd (omega (arith, ready))
discard_rounds-Discards (suc f) n r before pending free lay ready =
    let len = length-buffer r before pending free lay in
    let available : sub_uint32 r.end_index r.start_index ≡ length pending =
      omega (arith, len, lay.starts, lay.ends, lay.small) in
    let whole = length-append pending r.source.stream in
    rw available elim (Bool-cases (ltb n (length pending))) [
      | inl enough ↦
          let moved : add_uint32 r.start_index n ≡ r.start_index + n =
            ground (arith, len, lay.starts, lay.small) in
          rw enough (
            rw moved (
              record r { start_index = r.start_index + n },
              inl (
                ground (arith, whole),
                refl,
                (
                  before ++ take n pending,
                  drop n pending,
                  free,
                  skip-IsLayout n r before pending free lay (ground arith),
                  drop_front n pending r.source.stream (ground arith),
                ),
              ),
            ))
      | inr few ↦
          let start = if length pending == 0 then r.start_index else 0 in
          let behind = if length pending == 0 then r.end_index else 0 in
          let front : start ≡ 0 = ground (arith, ready) in
          let empty : behind ≡ 0 = ground (arith, ready, lay.ends, lay.starts) in
          rw few elim (source_read-cases r.source (buffer_len r) lay.some_buffer) [
            | inl (done, e) ↦ rw e (
              record r { start_index = start; end_index = behind },
              inr (
                ground (arith, whole, ap length done),
                refl,
                (
                  [],
                  [],
                  r.buffer,
                  record {
                    parts = refl;
                    starts = front;
                    ends = empty;
                    some_buffer = lay.some_buffer;
                    small = lay.small;
                  },
                  sym done,
                ),
              ),
            )
            | inr (bytes, s', e, split, some_bytes, most, ending) ↦
                let next : Reader = record r {
                  source = s';
                  buffer = write_at r.buffer 0 bytes;
                  start_index = start;
                  end_index = length bytes;
                } in
                let left = n - length pending in
                let (r', outcome) =
                  discard_rounds-Discards f left next [] bytes (drop (length bytes) r.buffer)
                    (write_front-IsLayout r bytes s' start front most lay.some_buffer lay.small)
                    (inl (some_bytes, ground (arith, ready))) in
                let count : length pending + left ≡ n = ground arith in
                let (taken, dropped) = split_behind pending r.source.stream n left count in
                let back = dropped ∙ ap (drop left) split in
                let size = ap length split in
                rw e (
                  r',
                  elim outcome [
                    | inl (enough, e', k) ↦ inl (
                      omega (arith, whole, size, enough, count),
                      e',
                      subst (Holds r') (sym back) k,
                    )
                    | inr (short, e', k) ↦ inr (
                      omega (arith, whole, size, short, count),
                      e' ∙ ap (λ x. (err x, r')) ending,
                      k,
                    )
                  ],
                )
          ]
    ]

-- For a reader whose indices are in order within its buffer, which has bytes waiting or an empty
-- buffer whose start is 0: `discard` ends. If more than `n` bytes are yet to come, the first `n` of
-- them go and the others stay; otherwise, also if exactly `n` are to come, it gives the error of the
-- stream.
pub discard-Discards :
    (n : ℕ) (r : Reader) (before pending free : Bytes)
    → IsLayout r before pending free
    → (0 < length pending) ⊎ ((length pending ≡ 0) × (r.start_index ≡ 0))
    → Discards n r (pending ++ r.source.stream) (discard n r)
unfolding discard
discard-Discards n r before pending free lay (inl some_pending) =
    discard_rounds-Discards (n + 2) n r before pending free lay (inl (some_pending, omega arith))
discard-Discards n r before pending free lay (inr (empty, start)) =
    discard_rounds-Discards (n + 2) n r before pending free lay (inr (empty, start, omega arith))

-- If the buffer is empty and its start is not 0, as behind a line that ended with the buffer's bytes,
-- and fewer bytes than the start come next: `discard` succeeds, and leaves the start behind the end,
-- with the bytes that came not discarded but lost.
pub discard-behind_line :
    (n : ℕ) (r : Reader) (before free bytes : Bytes) (s' : Source)
    → IsLayout r before [] free
    → source_read r.source (buffer_len r) ≡ (ok bytes, s')
    → length bytes < r.start_index
    → n + length r.buffer < uint32_mod
    → (r' : Reader) × (discard n r ≡ (ok tt, r'))
      × (r'.end_index < r'.start_index)
      × (r'.source ≡ s')
unfolding discard discard_rounds
discard-behind_line n r before free bytes s' lay e few small =
    let len = length-buffer r before [] free lay in
    let none_there : sub_uint32 r.end_index r.start_index ≡ 0 =
      omega (arith, len, lay.starts, lay.ends, lay.small) in
    let next : Reader = record r {
      source = s';
      buffer = write_at r.buffer 0 bytes;
      start_index = r.start_index;
      end_index = length bytes;
    } in
    let past : ltb n 0 ≡ false = ground arith in
    let two : n + 2 ≡ suc (suc n) = omega arith in
    let wraps : ltb (n - 0) (sub_uint32 (length bytes) r.start_index) ≡ true =
      ground (arith, len, lay.starts, lay.small) in
    let moved : add_uint32 r.start_index (n - 0) ≡ r.start_index + n =
      ground (arith, len, lay.starts, lay.small) in
    rw two (
      rw none_there (
        rw past (
          rw e (
            rw wraps (
              rw moved (
                record next { start_index = r.start_index + n },
                refl,
                omega (arith, few),
                refl,
              ))))))
