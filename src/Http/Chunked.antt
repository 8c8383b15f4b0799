-- ===== src/Http/Chunked.antt =====
-- The chunked coding of src/http/ChunkedReader.cpp and src/http/ChunkedWriter.cpp.
pub mod Coding
pub mod Steps
pub mod Rounds
pub mod Loop
pub mod Body
pub mod Sent
use cupcake.Base.{
  ℕ, zero, suc, ◌+◌, ◌-◌, Bool, true, false, [], ◌∷◌, ◌++◌, List, Option, none, some, min, ltb,
  ◌==◌, if◌then◌else◌, Bytes, codes, length, take,
}
use cupcake.Http.BufferedReader.{Reader, new_buffer, read, read_line}
use cupcake.Http.Sink.{Sink, sink_write}
use cupcake.Http.Stream.{Reply, ok, err, fault, HttpError, eof, client_error, on_reply}
use cupcake.Strconv.Parse.{parse_uint64}
use cupcake.Strconv.ToStr.{uint32_to_buffer_radix}
use cupcake.StringRef.Compare.{substring}
use cupcake.StringRef.Search.{found, missing, fault, index_of_char}

pub data ChunkedState : Type 0 where
  at_length at_data at_data_eol at_eof : ChunkedState

pub record ChunkedReader : Type 0 where
  pub buf_reader : Reader
  pub cur_length : ℕ
  pub chunked_state : ChunkedState

abbrev pub is_at_eof : ChunkedState → Bool
is_at_eof at_eof = true
is_at_eof s = false

abbrev pub fresh : Reader → ChunkedReader
fresh r = record { buf_reader = r; cur_length = 0; chunked_state = at_length }

-- The chunk extension is taken off. A search from the index 0 has no fault.
unfoldable pub without_extension : Bytes → Bytes
unfolding index_of_char
without_extension line = elim (index_of_char line b';') [
  | found i ↦ substring line 0 i
  | missing ↦ line
  | fault ↦ line
]

-- The loop over the trailing headers. Every line takes a byte at least.
unfoldable pub trailer_rounds : ℕ → Reader → Reply (Unit {0}) × Reader
unfolding read_line
trailer_rounds zero r = (fault, r)
trailer_rounds (suc f) r =
    on_reply (read_line 65536 r)
      (λ line r'. let rest = trailer_rounds f r' in if length line == 0 then (ok tt, r') else rest)
      (λ e r'. (err e, r')) (λ r'. (fault, r'))

-- What follows the number of a chunk: its data, or the trailing headers behind the last one.
unfoldable pub set_length : ℕ → Reader → Reply (Unit {0}) × ChunkedReader
unfolding trailer_rounds
set_length n r =
    let chunk : ChunkedReader = record {
      buf_reader = r;
      cur_length = n;
      chunked_state = at_data;
    } in
    let last : Reply (Unit {0}) × ChunkedReader =
      on_reply (trailer_rounds (suc (r.end_index + length r.source.stream)) r)
        (λ done r'. (ok tt, record chunk { buf_reader = r'; chunked_state = at_eof }))
        (λ e r'. (err e, record chunk { buf_reader = r'; chunked_state = at_length }))
        (λ r'. (fault, chunk)) in
    if n == 0 then last else (ok tt, chunk)

-- What follows a length line.
abbrev pub after_number : Option ℕ → ChunkedReader → Reader → Reply (Unit {0}) × ChunkedReader
after_number none c r = (err client_error, record c { buf_reader = r; cur_length = 0 })
after_number (some n) c r = set_length n r

-- The state `Length`.
unfoldable pub read_length : ChunkedReader → Reply (Unit {0}) × ChunkedReader
unfolding read_line without_extension set_length
read_length c =
    on_reply (read_line 1024 c.buf_reader)
      (λ line r. after_number (parse_uint64 (without_extension line) 16) c r)
      (λ e r. (err e, record c { buf_reader = r })) (λ r. (fault, c))

-- The state `Data`.
unfoldable pub read_data : ℕ → ChunkedReader → Reply Bytes × ChunkedReader
unfolding read
read_data dest_len c =
    on_reply (read (min c.cur_length dest_len) c.buf_reader)
      (λ bytes r.
        let left = c.cur_length - length bytes in
        (
          ok bytes,
          record {
            buf_reader = r;
            cur_length = left;
            chunked_state = if left == 0 then at_data_eol else at_data;
          },
        ))
      (λ e r. (err e, record c { buf_reader = r })) (λ r. (fault, c))

-- The state `DataEol`.
unfoldable pub read_data_eol : ChunkedReader → Reply (Unit {0}) × ChunkedReader
unfolding read_line
read_data_eol c =
    on_reply (read_line 1024 c.buf_reader)
      (λ line r.
        if ltb 0 (length line)
        then (err client_error, record c { buf_reader = r })
        else (ok tt, record c { buf_reader = r; chunked_state = at_length }))
      (λ e r. (err e, record c { buf_reader = r })) (λ r. (fault, c))

-- The three parts of a round of the loop of `read`, each for the state it asks for.
unfoldable pub length_part : ChunkedState → ChunkedReader → Reply (Unit {0}) × ChunkedReader
unfolding read_length
length_part at_length c = read_length c
length_part s c = (ok tt, c)

unfoldable pub data_part : ChunkedState → ℕ → ChunkedReader → Reply Bytes × ChunkedReader
unfolding read_data
data_part at_data dest_len c = read_data dest_len c
data_part s dest_len c = (ok [], c)

unfoldable pub eol_part : ChunkedState → ChunkedReader → Reply (Unit {0}) × ChunkedReader
unfolding read_data_eol
eol_part at_data_eol c = read_data_eol c
eol_part s c = (ok tt, c)

-- The parts of a round behind the length. `next` is the rest of the loop, for the bytes of this round.
unfoldable pub round_body :
    ℕ
    → (Bytes → ChunkedReader → Reply Bytes × ChunkedReader)
    → ChunkedReader
    → Reply Bytes × ChunkedReader
unfolding data_part eol_part
round_body dest_len next c1 =
    on_reply (data_part c1.chunked_state dest_len c1)
      (λ bytes c2.
        on_reply (eol_part c2.chunked_state c2) (λ done c3. next bytes c3) (λ e c3. (err e, c3))
          (λ c3. (fault, c3)))
      (λ e c2. (err e, c2)) (λ c2. (fault, c2))

-- The loop of `read`; `total` are the bytes in the buffer so far. Every round but the first and the
-- last reads a byte at least.
unfoldable pub chunk_rounds : ℕ → ℕ → Bytes → ChunkedReader → Reply Bytes × ChunkedReader
unfolding length_part round_body
chunk_rounds zero dest_len total c = (fault, c)
chunk_rounds (suc f) dest_len total c =
    let at_end : ChunkedReader → Reply Bytes × ChunkedReader =
      λ c1. if length total == 0 then (err eof, c1) else (ok total, c1) in
    let round : Reply Bytes × ChunkedReader =
      on_reply (length_part c.chunked_state c)
        (λ done c1.
          let body =
            round_body dest_len
              (λ bytes c3. chunk_rounds f (dest_len - length bytes) (total ++ bytes) c3) c1 in
          if is_at_eof c1.chunked_state then at_end c1 else body)
        (λ e c1. (err e, c1)) (λ c1. (fault, c1)) in
    if dest_len == 0
    then (ok total, c)
    else if is_at_eof c.chunked_state
    then (ok total, c)
    else round

-- `read`
unfoldable pub read_chunked : ℕ → ChunkedReader → Reply Bytes × ChunkedReader
unfolding chunk_rounds
read_chunked dest_len c =
    let rounds = chunk_rounds (dest_len + 2) dest_len [] c in
    if is_at_eof c.chunked_state then (err eof, c) else rounds

-- A round of the loop of `close`: whether it ends, what was read otherwise, and the rest of the loop.
abbrev pub close_step :
    Bool
    → Reply Bytes × ChunkedReader
    → (ChunkedReader → Reply (Unit {0}) × ChunkedReader)
    → ChunkedReader
    → Reply (Unit {0}) × ChunkedReader
close_step true given rest c = (ok tt, c)
close_step false given rest c =
    on_reply given (λ bytes c'. rest c') (λ e c'. (err e, c')) (λ c'. (fault, c'))

-- The loop of `close`, which reads what is left into 1024 bytes. Every round but the last reads a byte.
unfoldable pub close_rounds : ℕ → ChunkedReader → Reply (Unit {0}) × ChunkedReader
close_rounds zero c = (fault, c)
close_rounds (suc f) c =
    close_step (is_at_eof c.chunked_state) (read_chunked 1024 c) (λ c'. close_rounds f c') c

-- `ChunkedReader::close`
unfoldable pub close_reader : ChunkedReader → Reply (Unit {0}) × ChunkedReader
unfolding close_rounds
close_reader c = close_rounds (c.buf_reader.end_index + length c.buf_reader.source.stream + 2) c

pub record ChunkedWriter : Type 0 where
  pub stream_source : Sink
  pub closed : Bool

-- `write`
unfoldable pub write_chunk : Bytes → ChunkedWriter → Reply (Unit {0}) × ChunkedWriter
write_chunk buffer w =
    let written : Reply (Unit {0}) × ChunkedWriter =
      elim (uint32_to_buffer_radix (length buffer) 16 (new_buffer 32)) [
        | none ↦ (fault, w)
        | some (hex, hex_len) ↦
            on_reply
              (sink_write w.stream_source
                (take hex_len hex ++ (codes "\r\n" ++ (buffer ++ codes "\r\n"))))
              (λ done sink. (ok tt, record w { stream_source = sink }))
              (λ e sink. (err e, record w { stream_source = sink })) (λ sink. (fault, w))
      ] in
    if length buffer == 0 then (ok tt, w) else written

-- `close`
unfoldable pub close_chunked : ChunkedWriter → Reply (Unit {0}) × ChunkedWriter
close_chunked w =
    let sent : Reply (Unit {0}) × ChunkedWriter =
      on_reply (sink_write w.stream_source (codes "0\r\n\r\n"))
        (λ done sink. (ok tt, record { stream_source = sink; closed = true }))
        (λ e sink. (err e, record { stream_source = sink; closed = true })) (λ sink. (fault, w)) in
    if w.closed then (ok tt, w) else sent
