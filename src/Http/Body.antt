-- ===== src/Http/Body.antt =====
-- The bodies of known length and the buffered writes: src/http/ContentLengthReader.cpp,
-- src/http/ContentLengthWriter.cpp, src/http/BufferedWriter.cpp and src/http/NullReader.cpp.
pub mod Counted
pub mod Written
use cupcake.Base.{
  ℕ, ◌+◌, ◌-◌, ◌%◌, Bool, [], ◌∷◌, ◌++◌, min, ltb, leb, ◌==◌, if◌then◌else◌, Bytes, length,
}
use cupcake.Base.Word.{uint32_mod}
use cupcake.Http.BufferedReader.{Reader, read}
use cupcake.Http.Sink.{Sink, sink_write}
use cupcake.Http.Stream.{Reply, ok, err, fault, HttpError, eof, content_length_exceeded, on_reply}

pub record ContentLengthReader : Type 0 where
  pub buf_reader : Reader
  pub content_length : ℕ

-- `read`; the length is converted to `uint32_t` before it is compared.
unfoldable pub read_counted : ℕ → ContentLengthReader → Reply Bytes × ContentLengthReader
unfolding read
read_counted n c =
    let read_len = min (c.content_length % uint32_mod) n in
    let given : Reply Bytes × ContentLengthReader =
      on_reply (read read_len c.buf_reader)
        (λ bytes r.
          (ok bytes, record { buf_reader = r; content_length = c.content_length - length bytes }))
        (λ e r. (err e, record c { buf_reader = r })) (λ r. (fault, c)) in
    if c.content_length == 0 then (err eof, c) else given

pub record ContentLengthWriter : Type 0 where
  pub stream_source : Sink
  pub length_left : ℕ

-- `write`
unfoldable pub write_counted : Bytes → ContentLengthWriter → Reply (Unit {0}) × ContentLengthWriter
write_counted buffer w =
    let written : Reply (Unit {0}) × ContentLengthWriter =
      on_reply (sink_write w.stream_source buffer)
        (λ done sink.
          (ok tt, record { stream_source = sink; length_left = w.length_left - length buffer }))
        (λ e sink. (err e, record w { stream_source = sink })) (λ sink. (fault, w)) in
    if ltb w.length_left (length buffer) then (err content_length_exceeded, w) else written

-- The bytes of the buffer below `index`.
pub record BufferedWriter : Type 0 where
  pub stream_source : Sink
  pub buffered : Bytes
  pub buffer_len : ℕ

-- `write`. The copy goes behind the buffer if the bytes do not fit.
unfoldable pub write_buffered : Bytes → BufferedWriter → Reply (Unit {0}) × BufferedWriter
write_buffered bytes w =
    let copied : Reply (Unit {0}) × BufferedWriter =
      if leb (length w.buffered + length bytes) w.buffer_len
      then (ok tt, record w { buffered = w.buffered ++ bytes })
      else (fault, w) in
    let sent : Reply (Unit {0}) × BufferedWriter =
      on_reply (sink_write w.stream_source (w.buffered ++ bytes))
        (λ done sink. (ok tt, record w { stream_source = sink; buffered = [] }))
        (λ e sink. (err e, record w { stream_source = sink })) (λ sink. (fault, w)) in
    if ltb (length w.buffered) w.buffer_len then copied else sent

-- `flush`
unfoldable pub flush_buffered : BufferedWriter → Reply (Unit {0}) × BufferedWriter
flush_buffered w =
    on_reply (sink_write w.stream_source w.buffered)
      (λ done sink. (ok tt, record w { stream_source = sink; buffered = [] }))
      (λ e sink. (err e, record w { stream_source = sink })) (λ sink. (fault, w))
