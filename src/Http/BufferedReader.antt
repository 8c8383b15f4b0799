-- ===== src/Http/BufferedReader.antt =====
-- src/http/BufferedReader.cpp. The buffer is the list of its `bufferLen` bytes; those behind
-- `endIndex` are whatever was there before, and 0 in a new buffer.
pub mod Layout
pub mod Read
pub mod Line
pub mod Skip
use cupcake.Base.{
  ℕ, zero, suc, ◌+◌, ◌-◌, ◌*◌, Bool, true, false, not, ◌&&◌, [], ◌∷◌, ◌++◌, Option, none, some, min,
  ltb, leb, ◌==◌, if◌then◌else◌, Bytes, length, take, drop, get_or, bytes_equal,
}
use cupcake.Base.Word.{add_uint32, sub_uint32}
use cupcake.Http.Stream.{
  Reply, ok, err, fault, HttpError, eof, line_too_long, Source, source_read, on_reply,
}

pub record Reader : Type 0 where
  pub source : Source
  pub buffer : Bytes
  pub start_index : ℕ
  pub end_index : ℕ

-- `bufferLen`
abbrev pub buffer_len : Reader → ℕ
buffer_len r = length r.buffer

abbrev pub new_buffer : ℕ → Bytes
new_buffer zero = []
new_buffer (suc n) = 0 ∷ new_buffer n

-- `init`
unfoldable pub init : Source → ℕ → Reader
init source size = record {
  source = source;
  buffer = new_buffer size;
  start_index = 0;
  end_index = 0;
}

unfoldable pub checked_double : ℕ → ℕ
checked_double val = if leb 0x80000000 val then 4294967295 else val * 2

-- `memcpy(buffer.get() + at, bytes, ...)`
abbrev pub write_at : Bytes → ℕ → Bytes → Bytes
write_at buffer at bytes = take at buffer ++ (bytes ++ drop (at + length bytes) buffer)

-- The bytes between two indices.
abbrev pub between : Bytes → ℕ → ℕ → Bytes
between buffer start end_index = take (end_index - start) (drop start buffer)

-- `read`: the bytes that it leaves in `destBuffer`. A copy that leaves the buffer is a fault.
unfoldable pub read : ℕ → Reader → Reply Bytes × Reader
read dest_len r =
    let available = sub_uint32 r.end_index r.start_index in
    let copy_len = min available dest_len in
    let copied : Reply Bytes × Reader =
      if leb (r.start_index + copy_len) (buffer_len r)
      then (
        ok (take copy_len (drop r.start_index r.buffer)),
        record r { start_index = r.start_index + copy_len },
      )
      else (fault, r) in
    let emptied : Source → Reader =
      λ source. record r { source = source; start_index = 0; end_index = 0 } in
    let received : Reply Bytes × Reader =
      on_reply (source_read r.source (dest_len + buffer_len r))
        (λ bytes source.
          if ltb dest_len (length bytes)
          then (
            ok (take dest_len bytes),
            record r {
              source = source;
              buffer = write_at r.buffer 0 (drop dest_len bytes);
              start_index = 0;
              end_index = length bytes - dest_len;
            },
          )
          else (ok bytes, emptied source))
        (λ e source. (err e, emptied source)) (λ source. (fault, emptied source)) in
    if not (available == 0) then copied else received

-- `readFixedLength`: every round takes a byte at least. The bytes are those of `destBuffer`.
unfoldable pub read_rounds : ℕ → ℕ → Bytes → Reader → Reply Bytes × Reader
unfolding read
read_rounds zero dest_len dest r = if dest_len == 0 then (ok dest, r) else (fault, r)
read_rounds (suc f) dest_len dest r =
    let next : Reply Bytes × Reader =
      on_reply (read dest_len r)
        (λ bytes r'.
          let more = read_rounds f (dest_len - length bytes) (dest ++ bytes) r' in
          if length bytes == 0 then (err eof, r') else more)
        (λ e r'. (err e, r')) (λ r'. (fault, r')) in
    if dest_len == 0 then (ok dest, r) else next

unfoldable pub read_fixed_length : ℕ → Reader → Reply Bytes × Reader
unfolding read_rounds
read_fixed_length dest_len r = read_rounds dest_len dest_len [] r

-- The first newline from an index on.
unfoldable pub find_newline : Bytes → ℕ → Option ℕ
find_newline [] i = none
find_newline (c ∷ cs) i = let rest = find_newline cs (i + 1) in if c == 0x0a then some i else rest

-- `StringRef(buffer.get() + start, len)`. A view that goes past the buffer is a fault.
unfoldable pub view : Bytes → ℕ → ℕ → Reply Bytes
view buffer start len =
    if leb (start + len) (length buffer) then ok (take len (drop start buffer)) else fault

-- What `readLine` gives for a newline at index `i`.
unfoldable pub line_at : ℕ → Reader → Reply Bytes × Reader
unfolding view
line_at i r =
    let after_cr = not (i == 0) && get_or r.buffer (i - 1) 0 == 0x0d in
    let line_end = if after_cr then i - 1 else i in
    (
      view r.buffer r.start_index (sub_uint32 line_end r.start_index),
      record r { start_index = i + 1 },
    )

-- Room for more data: the old data goes, or the buffer grows, to at most `maxLength + 2` bytes. A move
-- of the bytes up to an end before the start, and a copy to a buffer that is smaller, are faults.
unfoldable pub make_room : ℕ → Reader → Reply Reader
unfolding checked_double
make_room max_length r =
    let kept = between r.buffer r.start_index r.end_index in
    let moved : Reader = record r {
      buffer = write_at r.buffer 0 kept;
      start_index = 0;
      end_index = r.end_index - r.start_index;
    } in
    let new_len = min (checked_double (buffer_len r)) (add_uint32 max_length 2) in
    let grown : Reader = record r {
      buffer = take new_len r.buffer ++ new_buffer (new_len - buffer_len r);
    } in
    if not (r.start_index == 0)
    then (if ltb r.end_index r.start_index then fault else ok moved)
    else if not (r.end_index == buffer_len r)
    then ok r
    else if leb max_length (buffer_len r)
    then err line_too_long
    else if ltb new_len (buffer_len r)
    then fault
    else ok grown

-- What `readLine` gives at the end of the stream.
unfoldable pub last_line : Reader → Reply Bytes × Reader
last_line r = if r.start_index == r.end_index then (err eof, r) else (
  ok (between r.buffer r.start_index r.end_index),
  record r { start_index = 0; end_index = 0 },
)

-- `bytesRead` bytes behind `endIndex`.
abbrev pub with_bytes : Reader → Bytes → Source → Reader
with_bytes r bytes source = record r {
  source = source;
  buffer = write_at r.buffer r.end_index bytes;
  end_index = r.end_index + length bytes;
}

abbrev pub is_eof : HttpError → Bool
is_eof eof = true
is_eof e = false

-- The loop of `readLine`. The fuel counts the rounds; every round but the last reads a byte at least.
-- `searched` counts the bytes from `startIndex` to `searchIndex`.
unfoldable pub line_rounds : ℕ → ℕ → ℕ → Reader → Reply Bytes × Reader
unfolding find_newline line_at make_room last_line
line_rounds zero max_length searched r = (fault, r)
line_rounds (suc f) max_length searched r =
    let search_index = r.start_index + searched in
    elim (find_newline (between r.buffer search_index r.end_index) search_index) [
      | some i ↦ line_at i r
      | none ↦ elim (make_room max_length r) [
        | err e ↦ (err e, r)
        | fault ↦ (fault, r)
        | ok r1 ↦
            on_reply (source_read r1.source (buffer_len r1 - r1.end_index))
              (λ bytes source.
                line_rounds f max_length (r1.end_index - r1.start_index)
                  (with_bytes r1 bytes source))
              (λ e source.
                let r2 : Reader = record r1 { source = source } in
                if is_eof e then last_line r2 else (err e, r2))
              (λ source. (fault, r1))
      ]
    ]

unfoldable pub read_line : ℕ → Reader → Reply Bytes × Reader
unfolding line_rounds
read_line max_length r = line_rounds (suc (length r.source.stream)) max_length 0 r
