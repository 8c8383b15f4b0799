-- ===== src/Http/BufferedReader/Skip.antt =====
-- `discard` and `peekMatch` of src/http/BufferedReader.cpp.
pub mod Discard
use cupcake.Base.{
  Option, none, some, ℕ, zero, suc, ◌+◌, ◌-◌, Bool, true, false, not, [], ◌∷◌, ◌++◌, min, ltb, leb,
  ◌==◌, if◌then◌else◌, Bytes, length, take, drop, bytes_equal,
}
use cupcake.Base.Word.{add_uint32, sub_uint32}
use cupcake.Http.BufferedReader.{
  Reader, buffer_len, new_buffer, checked_double, write_at, between, with_bytes,
}
use cupcake.Http.Stream.{Reply, ok, err, fault, HttpError, eof, Source, source_read, on_reply}

-- The loop of `discard`. `startIndex` is not reset if there is nothing in the buffer.
unfoldable pub discard_rounds : ℕ → ℕ → Reader → Reply (Unit {0}) × Reader
discard_rounds zero n r = (fault, r)
discard_rounds (suc f) n r =
    let available = sub_uint32 r.end_index r.start_index in
    let start = if available == 0 then r.start_index else 0 in
    let behind = if available == 0 then r.end_index else 0 in
    let refilled : Reply (Unit {0}) × Reader =
      on_reply (source_read r.source (buffer_len r))
        (λ bytes source. discard_rounds f (n - available) (record r {
          source = source;
          buffer = write_at r.buffer 0 bytes;
          start_index = start;
          end_index = length bytes;
        }))
        (λ e source. (err e, record r { source = source; start_index = start; end_index = behind }))
        (λ source. (fault, r)) in
    if ltb n available
    then (ok tt, record r { start_index = add_uint32 r.start_index n })
    else refilled

-- `discard`. Every round but the first and the last takes a byte at least off what is left to discard.
unfoldable pub discard : ℕ → Reader → Reply (Unit {0}) × Reader
unfolding discard_rounds
discard n r = discard_rounds (n + 2) n r

-- The loop of `peekMatch`, which looks at `endIndex` alone. Every round reads a byte at least.
unfoldable pub peek_rounds : ℕ → Bytes → ℕ → Reader → Reply Bool × Reader
peek_rounds zero expected check_index r = (fault, r)
peek_rounds (suc f) expected check_index r =
    let more : Reply Bool × Reader =
      on_reply (source_read r.source (buffer_len r - r.end_index))
        (λ bytes source.
          let amount = min (length bytes) (length expected - check_index) in
          let same = bytes_equal (take amount bytes) (take amount (drop check_index expected)) in
          let r' = with_bytes r bytes source in
          let rest = peek_rounds f expected (check_index + amount) r' in
          if length bytes == 0 then (err eof, r') else if same then rest else (ok false, r'))
        (λ e source. (err e, record r { source = source })) (λ source. (fault, r)) in
    if ltb r.end_index (length expected) then more else (ok true, r)

-- The room that `peekMatch` makes: a larger buffer, or the bytes moved to its front. A move of the bytes
-- up to an end before the start leaves the buffer.
unfoldable pub peek_room : ℕ → Reader → Option Reader
unfolding checked_double
peek_room n r =
    let grown : Reader =
      if ltb (buffer_len r) n
      then record r { buffer = r.buffer ++ new_buffer (checked_double n - buffer_len r) }
      else r in
    let available = sub_uint32 grown.end_index grown.start_index in
    let moved : Reader = record grown {
      buffer = write_at grown.buffer 0 (between grown.buffer grown.start_index grown.end_index);
      start_index = 0;
      end_index = available;
    } in
    if ltb (sub_uint32 (buffer_len grown) grown.start_index) n
    then (if ltb grown.end_index grown.start_index then none else some moved)
    else some grown

-- The test of the bytes that are there, and the loop.
unfoldable pub peek_from : Bytes → Option Reader → Reader → Reply Bool × Reader
unfolding peek_rounds
peek_from expected none r = (fault, r)
peek_from expected (some m) r =
    let amount = min (sub_uint32 m.end_index m.start_index) (length expected) in
    let same = bytes_equal (take amount (drop m.start_index m.buffer)) (take amount expected) in
    let rest = peek_rounds (suc (length expected)) expected amount m in
    if same then rest else (ok false, m)

unfoldable pub peek_match : Bytes → Reader → Reply Bool × Reader
unfolding peek_room peek_from
peek_match expected r = peek_from expected (peek_room (length expected) r) r
