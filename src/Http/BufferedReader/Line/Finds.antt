-- ===== src/Http/BufferedReader/Line/Finds.antt =====
-- `readLine` against the bytes that the reader is yet to give.
use mathlib.Core.Path.{subst}
use mathlib.Core.List.{append_assoc}
use cupcake.Base.{
  drop_front, ℕ, zero, suc, ◌+◌, ◌-◌, ◌≤◌, ◌<◌, ◌≡◌, ◌∙◌, refl, sym, ap, inl, inr, [], ◌∷◌, ◌++◌,
  some, arith, Bytes, Lacks, length, drop, length-append, length-drop,
}
use cupcake.Base.Word.{uint32_mod}
use cupcake.Http.BufferedReader.Layout.{IsLayout, Holds, length-buffer, with_bytes-IsLayout}
use cupcake.Http.BufferedReader.{
  Reader, buffer_len, find_newline, with_bytes, line_rounds, read_line,
}
use cupcake.Http.Stream.{Reply, ok, Source, source_read-cases}
use cupcake.Http.BufferedReader.Line.Room.{
  find_newline-append, find_newline-none, Lacks-drop, Lacks-front, between-drop, split_at,
  make_room-IsLayout,
}
use cupcake.Http.BufferedReader.Line.View.{
  without_cr, IsClean, behind_line, behind_line-IsLayout, line_at-lem,
}

-- What `readLine` gives for contents that start with a line and its newline.
abbrev pub ReadsLine : Reader → Bytes → Bytes → Reply Bytes × Reader → Type 0
ReadsLine r l rest result =
    (r' : Reader) × (result ≡ (ok (without_cr l), r'))
    × Holds r' rest
    × (r'.source.ending ≡ r.source.ending)

module _ (max_length : ℕ) (l rest : Bytes) (plain : Lacks 0x0a l) (short : length l < max_length)
    (small : max_length + 2 < uint32_mod) where
  line_rounds-ReadsLine :
      (f searched : ℕ) (r : Reader) (before pending free : Bytes)
      → length r.source.stream < f
      → searched ≤ length pending
      → searched ≤ length l
      → IsClean l r
      → IsLayout r before pending free
      → pending ++ r.source.stream ≡ l ++ 0x0a ∷ rest
      → ReadsLine r l rest (line_rounds f max_length searched r)
  unfolding line_rounds behind_line
  line_rounds-ReadsLine zero searched r before pending free enough s s' clean lay whole =
      absurd (omega arith)
  line_rounds-ReadsLine (suc f) searched r before pending free enough s s' clean lay whole =
      let area = between-drop r before pending free lay searched s in
      rw (area, line_rounds)
        elim (split_at pending r.source.stream l rest 0x0a whole) [
          | inl (mid, split, e) ↦
              let place : r.start_index + searched + length (drop searched l)
                  ≡ r.start_index + length l =
                omega (arith, s', length-drop {A = ℕ} searched l) in
              let there =
                ap (λ xs. find_newline (drop searched xs) (r.start_index + searched)) split
                ∙ ap (λ xs. find_newline xs (r.start_index + searched))
                    (drop_front searched l (0x0a ∷ mid) s')
                ∙ find_newline-append (drop searched l) mid (r.start_index + searched)
                    (Lacks-drop 0x0a searched l plain)
                ∙ ap some place in
              (
                behind_line r before pending free l mid lay split,
                rw there (line_at-lem r before pending free l mid lay split clean),
                (
                  before ++ (l ++ 0x0a ∷ []),
                  mid,
                  free,
                  behind_line-IsLayout r before pending free l mid lay split,
                  e,
                ),
                refl,
              )
          | inr (mid, e, stream) ↦
              let lacks = Lacks-front 0x0a pending mid (subst (Lacks 0x0a) e plain) in
              let none_yet =
                find_newline-none (drop searched pending) (r.start_index + searched)
                  (Lacks-drop 0x0a searched pending lacks) in
              let fits : length pending ≤ length l =
                omega (arith, ap length e, length-append pending mid) in
              let (r1, free1, room, lay1, some_room, same) =
                make_room-IsLayout max_length r before pending free lay (omega (arith, fits, short))
                  small in
              let space : 0 < buffer_len r1 - r1.end_index =
                omega (arith, length-buffer r1 [] pending free1 lay1, lay1.ends, some_room) in
              rw none_yet (
                rw (room, line_rounds)
                  elim (source_read-cases r1.source (buffer_len r1 - r1.end_index) space) [
                    | inl (done, e') ↦ absurd (
                        omega (
                          arith,
                          ap length stream,
                          length-append mid (0x0a ∷ rest),
                          ap length done,
                          ap (λ (x : Source). length x.stream) same,
                        ))
                    | inr (bytes, s1, e', given, some_bytes, most, ending) ↦
                        let count : r1.end_index - r1.start_index ≡ length pending =
                          omega (arith, lay1.ends, lay1.starts) in
                        let fresh = drop (length bytes) free1 in
                        let next = with_bytes r1 bytes s1 in
                        let given' = sym (ap (λ (x : Source). x.stream) same) ∙ given in
                        let fill : length bytes ≤ length free1 =
                          omega (arith, most, length-buffer r1 [] pending free1 lay1, lay1.ends) in
                        let (r', got, held, end') =
                          line_rounds-ReadsLine f (length pending) next [] (pending ++ bytes) fresh
                            (omega (
                              arith,
                              enough,
                              ap length given',
                              length-append bytes s1.stream,
                              some_bytes,
                            ))
                            (omega (arith, length-append pending bytes)) fits
                            (inr (inl (omega (arith, lay1.starts))))
                            (with_bytes-IsLayout r1 pending free1 bytes s1 lay1 fill)
                            (append_assoc pending bytes s1.stream
                              ∙ ap (◌++◌ pending) (sym given')
                              ∙ whole) in
                        rw e' (
                          rw count
                            (r', got, held, end' ∙ ending ∙ ap (λ (x : Source). x.ending) same))
                  ])
        ]

-- For a reader whose indices are in order within its buffer, and from which a line of fewer than
-- `maxLength` bytes with no newline, its newline and the rest are yet to come, with `maxLength` + 2 below
-- 2^32, and if the line is empty no carriage return stands in the buffer before it: `readLine` ends,
-- however the bytes arrive. It gives the line without a carriage return at its end, and leaves the
-- rest.
pub read_line-ReadsLine :
    (max_length : ℕ) (r : Reader) (l rest : Bytes)
    → Holds r (l ++ 0x0a ∷ rest)
    → Lacks 0x0a l
    → length l < max_length
    → max_length + 2 < uint32_mod
    → IsClean l r
    → ReadsLine r l rest (read_line max_length r)
unfolding read_line
read_line-ReadsLine max_length r l rest (before, pending, free, lay, e) plain short small clean =
    line_rounds-ReadsLine max_length l rest plain short small (suc (length r.source.stream)) 0 r
      before pending free (omega arith) (omega arith) (omega arith) clean lay (sym e)
