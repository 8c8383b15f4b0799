-- ===== src/Http/BufferedReader/Read.antt =====
-- `read` and `readFixedLength` against the bytes that the reader is yet to give.
use mathlib.Core.Path.{subst}
use mathlib.Core.List.{append_assoc, append-nil}
use cupcake.Base.{
  true, leb, split_behind, take_front, ℕ, zero, suc, ◌+◌, ◌-◌, ◌≤◌, ◌<◌, ◌≡◌, ◌∙◌, refl, sym, ap,
  ◌⊎◌, inl, inr, Bool-cases, false, [], ◌∷◌, ◌++◌, min, arith, ltb, ◌==◌, Bytes, length, take, drop,
  length-append, length-take, length-drop, take-append-drop,
}
use cupcake.Base.Word.{sub_uint32}
use cupcake.Http.BufferedReader.Layout.{IsLayout, Holds, length-buffer, drop-start}
use cupcake.Http.BufferedReader.{Reader, buffer_len, write_at, read, read_rounds, read_fixed_length}
use cupcake.Http.Stream.{Reply, ok, err, source_read-cases}

-- At the end of the contents the error of the stream; before it, some of the next bytes, up to `n`.
abbrev pub ReadsSome : ℕ → Reader → Bytes → Reply Bytes × Reader → Type 0
ReadsSome n r contents result =
    ((r' : Reader) × (contents ≡ [])
      × (result ≡ (err r.source.ending, r'))
      × Holds r' []
      × (r'.source.ending ≡ r.source.ending))
    ⊎ ((r' : Reader) × (bytes : Bytes) × (rest : Bytes) × (result ≡ (ok bytes, r'))
        × (contents ≡ bytes ++ rest)
        × Holds r' rest
        × (length bytes ≤ n)
        × (0 < n → 0 < length bytes)
        × (r'.source.ending ≡ r.source.ending))

module _ (n : ℕ) (r : Reader) (before pending free : Bytes)
    (lay : IsLayout r before pending free) where
  buffered-ReadsSome : 0 < length pending → ReadsSome n r (pending ++ r.source.stream) (read n r)
  unfolding read
  buffered-ReadsSome some_pending =
      let len = length-buffer r before pending free lay in
      let available : sub_uint32 r.end_index r.start_index ≡ length pending =
        omega (arith, len, lay.starts, lay.ends, lay.small) in
      let some_there : (length pending == 0) ≡ false = ground arith in
      let k = min (length pending) n in
      let taken = length-take {A = ℕ} k pending in
      let left = length-drop {A = ℕ} k pending in
      let split = take-append-drop k pending in
      let inside : leb (r.start_index + k) (length r.buffer) ≡ true =
        ground (arith, len, lay.starts) in
      let bytes : take k (drop r.start_index r.buffer) ≡ take k pending =
        ap (take k) (drop-start r before pending free lay)
        ∙ take_front k pending free (omega arith) in
      inr (
        record r { start_index = r.start_index + k },
        take k pending,
        drop k pending ++ r.source.stream,
        rw available (rw some_there (rw inside (rw bytes refl))),
        ap (λ xs. xs ++ r.source.stream) (sym split)
            ∙ append_assoc (take k pending) (drop k pending) r.source.stream,
        (
          before ++ take k pending,
          drop k pending,
          free,
          record {
            parts =
                lay.parts
                ∙ ap (λ xs. before ++ (xs ++ free)) (sym split)
                ∙ ap (◌++◌ before) (append_assoc (take k pending) (drop k pending) free)
                ∙ sym (append_assoc before (take k pending) (drop k pending ++ free));
            starts = omega (arith, lay.starts, length-append before (take k pending), taken);
            ends = omega (arith, lay.ends, length-append before (take k pending), taken, left);
            some_buffer = lay.some_buffer;
            small = lay.small;
          },
          refl,
        ),
        omega (arith, taken),
        λ pos. omega (arith, taken, pos),
        refl,
      )

  empty-ReadsSome : length pending ≡ 0 → ReadsSome n r r.source.stream (read n r)
  unfolding read
  empty-ReadsSome none_pending =
      let len = length-buffer r before pending free lay in
      let available : sub_uint32 r.end_index r.start_index ≡ 0 =
        omega (arith, len, lay.starts, lay.ends, lay.small, none_pending) in
      elim (source_read-cases r.source (n + buffer_len r) (omega (arith, lay.some_buffer))) [
        | inl (done, e) ↦ inl (
          record r { start_index = 0; end_index = 0 },
          done,
          rw available (rw e refl),
          (
            [],
            [],
            r.buffer,
            record {
              parts = refl;
              starts = refl;
              ends = omega arith;
              some_buffer = lay.some_buffer;
              small = lay.small;
            },
            sym done,
          ),
          refl,
        )
        | inr (bytes, s', e, split, some_bytes, most, ending) ↦
            elim (Bool-cases (ltb n (length bytes))) [
              | inl more ↦
                  let extra = drop n bytes in
                  let over = length-drop {A = ℕ} n bytes in
                  let room : length extra ≤ length r.buffer = ground (arith, over) in
                  let tail = drop (length extra) r.buffer in
                  let left = length-drop {A = ℕ} (length extra) r.buffer in
                  let whole = length-append extra tail in
                  let split' = take-append-drop n bytes in
                  let zero_place : 0 + length extra ≡ length extra = omega arith in
                  inr (
                    record r {
                      source = s';
                      buffer = write_at r.buffer 0 extra;
                      start_index = 0;
                      end_index = length bytes - n;
                    },
                    take n bytes,
                    extra ++ s'.stream,
                    rw available (rw e (rw more refl)),
                    split
                        ∙ ap (λ xs. xs ++ s'.stream) (sym split')
                        ∙ append_assoc (take n bytes) extra s'.stream,
                    (
                      [],
                      extra,
                      tail,
                      record {
                        parts = ap (λ k. extra ++ drop k r.buffer) zero_place;
                        starts = refl;
                        ends = omega (arith, over);
                        some_buffer = rw zero_place (omega (arith, whole, left, lay.some_buffer));
                        small = rw zero_place (omega (arith, whole, left, lay.small));
                      },
                      refl,
                    ),
                    omega (arith, length-take {A = ℕ} n bytes),
                    λ pos. ground (arith, length-take {A = ℕ} n bytes),
                    ending,
                  )
              | inr few ↦ inr (
                record r { source = s'; start_index = 0; end_index = 0 },
                bytes,
                s'.stream,
                rw available (rw e (rw few refl)),
                split,
                (
                  [],
                  [],
                  r.buffer,
                  record {
                    parts = refl;
                    starts = refl;
                    ends = omega arith;
                    some_buffer = lay.some_buffer;
                    small = lay.small;
                  },
                  refl,
                ),
                ground arith,
                λ pos. some_bytes,
                ending,
              )
            ]
      ]

-- For a reader whose indices are in order within its buffer, and the bytes that are yet to come from it:
-- `read` gives the error of the stream when there are none, and else some of the first of them, at
-- most as many as asked for, and one at least if any were; the others are yet to come afterwards. It
-- never leaves the buffer.
pub read-ReadsSome :
    (n : ℕ) (r : Reader) (contents : Bytes) → Holds r contents → ReadsSome n r contents (read n r)
read-ReadsSome n r contents (before, pending, free, lay, e) = rw e (go pending refl)
  where
    go : (xs : Bytes) → pending ≡ xs → ReadsSome n r (pending ++ r.source.stream) (read n r)
    go [] none_pending =
        rw none_pending (empty-ReadsSome n r before pending free lay (ap length none_pending))
    go (x ∷ xs) some_pending =
        buffered-ReadsSome n r before pending free lay (omega (arith, ap length some_pending))

-- What a read of just `n` bytes gives behind `dest`.
abbrev pub ReadsJust : ℕ → Reader → Bytes → Bytes → Reply Bytes × Reader → Type 0
ReadsJust n r dest contents result =
    (r' : Reader) × (r'.source.ending ≡ r.source.ending)
    × (((n ≤ length contents)
          × (result ≡ (ok (dest ++ take n contents), r'))
          × Holds r' (drop n contents))
        ⊎ ((length contents < n) × (result ≡ (err r.source.ending, r')) × Holds r' []))

read_rounds-ReadsJust :
    (f n : ℕ) (dest : Bytes) (r : Reader) (contents : Bytes)
    → n ≤ f
    → Holds r contents
    → ReadsJust n r dest contents (read_rounds f n dest r)
unfolding read_rounds
read_rounds-ReadsJust zero zero dest r contents h k =
    (r, refl, inl (omega arith, ap (λ d. (ok d, r)) (sym (append-nil dest)), k))
read_rounds-ReadsJust zero (suc n) dest r contents h k = absurd (omega arith)
read_rounds-ReadsJust (suc f) zero dest r contents h k =
    (r, refl, inl (omega arith, ap (λ d. (ok d, r)) (sym (append-nil dest)), k))
read_rounds-ReadsJust (suc f) (suc n) dest r contents h k =
    let more : (suc n == 0) ≡ false = ground arith in
    elim (read-ReadsSome (suc n) r contents k) [
      | inl (r', done, e, k', ending) ↦
          (r', ending, inr (omega (arith, ap length done), rw more (rw e refl), k'))
      | inr (r', bytes, rest, e, split, k', most, some_bytes, ending) ↦
          let some_read : (length bytes == 0) ≡ false = ground (arith, some_bytes) in
          let left = suc n - length bytes in
          let whole = ap length split ∙ length-append bytes rest in
          let (r'', ending', outcome) =
            read_rounds-ReadsJust f left (dest ++ bytes) r' rest (omega (arith, some_bytes)) k' in
          let count : length bytes + left ≡ suc n = omega arith in
          let (taken, dropped) = split_behind bytes rest (suc n) left count in
          let front = ap (take (suc n)) split ∙ taken in
          let back = ap (drop (suc n)) split ∙ dropped in
          rw more (
            rw e (
              rw some_read (
                r'',
                ending' ∙ ending,
                elim outcome [
                  | inl (enough, e', k'') ↦ inl (
                    omega (arith, whole, enough),
                    e'
                        ∙ ap (λ d. (ok d, r''))
                            (append_assoc dest bytes (take left rest) ∙ ap (◌++◌ dest) (sym front)),
                    subst (Holds r'') (sym back) k'',
                  )
                  | inr (short, e', k'') ↦
                      inr (omega (arith, whole, short), e' ∙ ap (λ x. (err x, r'')) ending, k'')
                ],
              )))
    ]

-- For a reader whose indices are in order within its buffer, and the bytes that are yet to come from it:
-- `readFixedLength` ends. It gives the first `n` of them and leaves the others if there are so many, and
-- otherwise the error of the stream, with nothing left.
pub read_fixed_length-ReadsJust :
    (n : ℕ) (r : Reader) (contents : Bytes)
    → Holds r contents
    → ReadsJust n r [] contents (read_fixed_length n r)
unfolding read_fixed_length
read_fixed_length-ReadsJust n r contents k = read_rounds-ReadsJust n n [] r contents (omega arith) k
