-- ===== src/Http/Chunked/Steps.antt =====
-- The parts of a round of the loop of `ChunkedReader::read`.
use mathlib.Core.Path.{subst}
use cupcake.Base.{
  split_front, ℕ, ◌-◌, ◌≤◌, ◌<◌, ◌≡◌, ◌∙◌, refl, ap, inl, inr, false, [], ◌∷◌, ◌++◌, some, arith,
  min, ◌==◌, if◌then◌else◌, Bytes, length, length-append,
}
use cupcake.Base.Word.{uint32_mod}
use cupcake.Http.BufferedReader.Layout.{Holds}
use cupcake.Http.BufferedReader.Read.{read-ReadsSome}
use cupcake.Http.BufferedReader.{Reader}
use cupcake.Http.Chunked.Coding.{
  crlf, hex, coded, hex-Lacks-newline, hex-Lacks-semicolon, parse-hex, length-hex,
  without_extension-plain, read_line-crlf,
}
use cupcake.Http.Chunked.{
  ChunkedReader, at_length, at_data, at_data_eol, at_eof, without_extension, trailer_rounds,
  set_length, read_length, read_data, read_data_eol,
}
use cupcake.Http.Stream.{ok}
use cupcake.Strconv.Digit.{digit_value, char_value}
use cupcake.Strconv.Parse.Unsigned.{parse_uint64-bounded_numeral}
use cupcake.Strconv.Parse.{parse_uint64}

zero_lem : parse_uint64 (without_extension (0x30 ∷ [])) 16 ≡ some 0
unfolding digit_value char_value
zero_lem =
    ap (λ s. parse_uint64 s 16) (without_extension-plain (0x30 ∷ []) (omega arith, tt))
    ∙ parse_uint64-bounded_numeral (0x30 ∷ []) 16

module _ (c : ChunkedReader) (rest : Bytes) where
  -- The length of a chunk.
  pub read_length-chunk :
      (n : ℕ)
      → 0 < n
      → n < uint32_mod
      → Holds c.buf_reader (hex n ++ crlf rest)
      → (r : Reader) × (read_length c
          ≡ (ok tt, record { buf_reader = r; cur_length = n; chunked_state = at_data }))
        × Holds r rest
  unfolding read_length set_length
  read_length-chunk n pos small k =
      let (r, e, k') =
        read_line-crlf 1024 c.buf_reader (hex n) rest k (hex-Lacks-newline n pos)
          (omega (arith, length-hex n small)) (omega arith) in
      let number : parse_uint64 (without_extension (hex n)) 16 ≡ some n =
        ap (λ s. parse_uint64 s 16) (without_extension-plain (hex n) (hex-Lacks-semicolon n pos))
        ∙ parse-hex n pos small in
      let more : (n == 0) ≡ false = ground arith in
      (r, rw (e, read_length) (rw number (rw more refl)), k')

  -- The length 0 and the blank line behind it.
  pub read_length-last :
      Holds c.buf_reader (coded [] rest)
      → (r : Reader) × (read_length c
          ≡ (ok tt, record { buf_reader = r; cur_length = 0; chunked_state = at_eof }))
        × Holds r rest
  unfolding read_length set_length trailer_rounds
  read_length-last k =
      let (r, e, k') =
        read_line-crlf 1024 c.buf_reader (0x30 ∷ []) (crlf rest) k (omega arith, tt) (omega arith)
          (omega arith) in
      let (r', e', k'') = read_line-crlf 65536 r [] rest k' tt (omega arith) (omega arith) in
      (r', rw (e, read_length) (rw zero_lem (rw e' refl)), k'')

  -- The line behind a chunk.
  pub read_data_eol-lem :
      Holds c.buf_reader (crlf rest)
      → (r : Reader) × (read_data_eol c
          ≡ (ok tt, record c { buf_reader = r; chunked_state = at_length }))
        × Holds r rest
  unfolding read_data_eol
  read_data_eol-lem k =
      let (r, e, k') = read_line-crlf 1024 c.buf_reader [] rest k tt (omega arith) (omega arith) in
      (r, rw (e, read_data_eol) refl, k')

-- Some of a chunk's data.
pub read_data-lem :
    (dest_len : ℕ) (c : ChunkedReader) (d more : Bytes)
    → 0 < dest_len
    → 0 < length d
    → c.cur_length ≡ length d
    → Holds c.buf_reader (d ++ more)
    → (r : Reader) × (bytes : Bytes) × (left : Bytes) × (d ≡ bytes ++ left)
      × (0 < length bytes)
      × (length bytes ≤ dest_len)
      × (read_data dest_len c ≡ (
        ok bytes,
        record {
          buf_reader = r;
          cur_length = length left;
          chunked_state = if length left == 0 then at_data_eol else at_data;
        },
      ))
      × Holds r (left ++ more)
unfolding read_data
read_data-lem dest_len c d more some_room some_data count k =
    let n = min c.cur_length dest_len in
    elim (read-ReadsSome n c.buf_reader (d ++ more) k) [
      | inl (r, none_left, e, k', ending) ↦
          absurd (omega (arith, ap length none_left, length-append d more))
      | inr (r, bytes, rest, e, split, k', most, some_bytes, ending) ↦
          let (left, front, back) =
            split_front bytes rest d more split (omega (arith, most, count)) in
          let size = length-append bytes left in
          let left_len : c.cur_length - length bytes ≡ length left =
            omega (arith, ap length front, size, count) in
          (
            r,
            bytes,
            left,
            front,
            some_bytes (omega arith),
            omega (arith, most),
            rw (e, read_data) (rw left_len refl),
            subst (Holds r) back k',
          )
    ]
