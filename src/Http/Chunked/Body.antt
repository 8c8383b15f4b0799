-- ===== src/Http/Chunked/Body.antt =====
-- `ChunkedReader::read` and `close` against the body that is yet to come.
use cupcake.Base.{
  ℕ, suc, ◌+◌, ◌<◌, ◌≡◌, ◌∙◌, refl, ap, ◌⊎◌, inl, inr, true, false, [], arith, Bytes, length, take,
  drop,
}
use cupcake.Http.Chunked.Rounds.{close_rounds-end}
use cupcake.Http.Chunked.{ChunkedReader, is_at_eof, read_chunked, close_rounds, close_reader}
use cupcake.Http.Stream.{Reply, ok, err, eof}
use cupcake.Http.Chunked.Loop.{IsLive, IsBody, chunk_rounds-GivesBody, drop-nil}

-- What `read` gives for up to `n` bytes.
abbrev pub ReadsBody : ℕ → Bytes → Bytes → Reply Bytes × ChunkedReader → Type 0
ReadsBody n content rest result =
    (c' : ChunkedReader) × IsBody c' (drop n content) rest
    × (((content ≡ []) × (result ≡ (err eof, c')))
        ⊎ ((0 < length content) × (result ≡ (ok (take n content), c'))))

-- For a reader that stands in a chunked body, before a chunk or within it, and the content of the body
-- that is yet to come: a `read` for one byte or more ends, however the bytes arrive. It gives `Eof` if no
-- content is left, and else as many bytes of it as asked for, or all; then the reader stands behind these,
-- and at the end of the body the bytes that follow it are yet to come.
pub read_chunked-ReadsBody :
    (n : ℕ) (c : ChunkedReader) (content rest : Bytes)
    → 0 < n
    → IsBody c content rest
    → ReadsBody n content rest (read_chunked n c)
unfolding read_chunked
read_chunked-ReadsBody n c content rest pos (inl (cs, good, where_in)) =
    let (c', body, outcome) =
      chunk_rounds-GivesBody rest (n + 2) n [] c content (omega arith) (cs, good, where_in) in
    let state : is_at_eof c.chunked_state ≡ false = elim where_in [
      | inl before ↦ ap is_at_eof before.0
      | inr inside ↦ ap is_at_eof inside.1
    ] in
    (
      c',
      body,
      rw state elim outcome [
        | inl (none_left, none_yet, some, e) ↦ inl (none_left, e)
        | inr (some, e) ↦ inr (omega (arith, some, pos), e)
      ],
    )
read_chunked-ReadsBody n c content rest pos (inr (state, none_left, k)) =
    let end_state : is_at_eof c.chunked_state ≡ true = ap is_at_eof state in
    (c, inr (state, ap (drop n) none_left ∙ drop-nil n, k), inl (none_left, rw end_state refl))

-- If no content of a chunked body is left, but its end is not read yet, `close` gives the error `Eof`,
-- though the body is complete.
pub close_reader_complete :
    (c : ChunkedReader) (rest : Bytes) → IsLive c [] rest → (close_reader c).0 ≡ err eof
unfolding close_reader
close_reader_complete c rest (cs, good, where_in) =
    let (c', body, outcome) =
      read_chunked-ReadsBody 1024 c [] rest (omega arith) (inl (cs, good, where_in)) in
    let state : is_at_eof c.chunked_state ≡ false = elim where_in [
      | inl before ↦ ap is_at_eof before.0
      | inr inside ↦ ap is_at_eof inside.1
    ] in
    let fuel = c.buf_reader.end_index + length c.buf_reader.source.stream in
    let two : fuel + 2 ≡ suc (fuel + 1) = omega arith in
    elim outcome [
      | inl (none_left, e) ↦
          ap (λ k. (close_rounds k c).0) two
          ∙ ap (λ (x : Reply (Unit {0}) × ChunkedReader). x.0)
              (close_rounds-end (fuel + 1) c c' state e)
      | inr (some, e) ↦ absurd (omega (arith, some))
    ]
