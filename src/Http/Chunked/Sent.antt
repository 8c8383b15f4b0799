-- ===== src/Http/Chunked/Sent.antt =====
-- What `ChunkedWriter` sends, and `ChunkedReader` over it.
use mathlib.Core.Path.{subst}
use mathlib.Core.List.{append_assoc}
use cupcake.Base.{
  ℕ, ◌≤◌, ◌<◌, ◌≡◌, ◌∙◌, refl, sym, ap, inl, false, [], ◌∷◌, ◌++◌, List, some, arith, ◌==◌, Bytes,
  codes, length, take, drop, take_all, take-length-append,
}
use cupcake.Base.Word.{uint32_mod}
use cupcake.Http.BufferedReader.Layout.{Holds, init-Holds, length-new_buffer}
use cupcake.Http.BufferedReader.{init, new_buffer}
use cupcake.Http.Chunked.Loop.{IsBody}
use cupcake.Http.Chunked.Body.{ReadsBody, read_chunked-ReadsBody}
use cupcake.Http.Chunked.Coding.{crlf, hex, coded, joined, IsChunks, length-hex}
use cupcake.Http.Chunked.{ChunkedWriter, fresh, read_chunked, write_chunk, close_chunked}
use cupcake.Http.Stream.{Reply, ok, err, fault, HttpError, Source, on_reply}
use cupcake.Strconv.ToStr.Fits.{uint32_to_buffer_radix_lem}
use cupcake.Strconv.ToStr.{uint32_to_buffer_radix}

-- A writer over a peer that has got `sent` and takes all that comes.
abbrev pub writer : Bytes → ChunkedWriter
writer sent = record { stream_source = record { sent = sent; outcomes = [] }; closed = false }

-- Some writes and then `close`.
unfoldable pub write_all : List Bytes → ChunkedWriter → Reply (Unit {0}) × ChunkedWriter
unfolding write_chunk close_chunked
write_all [] w = close_chunked w
write_all (b ∷ bs) w =
    on_reply (write_chunk b w) (λ done w'. write_all bs w') (λ e w'. (err e, w'))
      (λ w'. (fault, w'))

-- Buffers whose length is a `uint32_t`.
abbrev pub AreBuffers : List Bytes → Type 0
AreBuffers [] = Unit {0}
AreBuffers (b ∷ bs) = (length b < uint32_mod) × AreBuffers bs

-- The chunks that writes become: an empty write sends none.
chunks_of : List Bytes → List Bytes
chunks_of [] = []
chunks_of ([] ∷ bs) = chunks_of bs
chunks_of ((x ∷ b) ∷ bs) = (x ∷ b) ∷ chunks_of bs

chunks_of-IsChunks : (bs : List Bytes) → AreBuffers bs → IsChunks (chunks_of bs)
unfolding chunks_of
chunks_of-IsChunks [] h = tt
chunks_of-IsChunks ([] ∷ bs) h = chunks_of-IsChunks bs h.1
chunks_of-IsChunks ((x ∷ b) ∷ bs) h = (omega arith, h.0, chunks_of-IsChunks bs h.1)

joined-chunks_of : (bs : List Bytes) → joined (chunks_of bs) ≡ joined bs
unfolding chunks_of
joined-chunks_of [] = refl
joined-chunks_of ([] ∷ bs) = joined-chunks_of bs
joined-chunks_of ((x ∷ b) ∷ bs) = ap (◌++◌ (x ∷ b)) (joined-chunks_of bs)

coded-append : (cs : List Bytes) (rest : Bytes) → coded cs [] ++ rest ≡ coded cs rest
coded-append [] rest = refl
coded-append (d ∷ ds) rest =
    append_assoc (hex (length d)) (crlf (d ++ crlf (coded ds []))) rest
    ∙ ap (λ xs. hex (length d) ++ crlf xs)
        (append_assoc d (crlf (coded ds [])) rest ∙ ap (λ xs. d ++ crlf xs) (coded-append ds rest))

hex_sent :
    (n : ℕ)
    → n < uint32_mod
    → (buffer : Bytes) × (uint32_to_buffer_radix n 16 (new_buffer 32)
        ≡ some (buffer, length (hex n)))
      × (take (length (hex n)) buffer ≡ hex n)
hex_sent n small =
    let room : length (hex n) ≤ length (new_buffer 32) =
      omega (arith, length-hex n small, length-new_buffer 32) in
    (
      take (length (new_buffer 32)) (hex n) ++ drop (length (hex n)) (new_buffer 32),
      uint32_to_buffer_radix_lem n 16 small (omega arith) (omega arith) (new_buffer 32),
      ap (λ s. take (length (hex n)) (s ++ drop (length (hex n)) (new_buffer 32)))
            (take_all (length (new_buffer 32)) (hex n) room)
          ∙ take-length-append (hex n) (drop (length (hex n)) (new_buffer 32)),
    )

-- A chunk as it is sent.
abbrev sent_chunk : Bytes → Bytes
sent_chunk b = hex (length b) ++ (codes "\r\n" ++ (b ++ codes "\r\n"))

write_chunk-lem :
    (b sent : Bytes)
    → 0 < length b
    → length b < uint32_mod
    → write_chunk b (writer sent) ≡ (ok tt, writer (sent ++ sent_chunk b))
unfolding write_chunk
write_chunk-lem b sent pos small =
    let (buffer, e, front) = hex_sent (length b) small in
    let some_bytes : (length b == 0) ≡ false = ground arith in
    rw some_bytes (
      rw (e, write_chunk)
        (ap (λ h. (ok tt, writer (sent ++ (h ++ (codes "\r\n" ++ (b ++ codes "\r\n")))))) front))

sent_chunk-coded : (b : Bytes) (cs : List Bytes) → sent_chunk b ++ coded cs [] ≡ coded (b ∷ cs) []
sent_chunk-coded b cs =
    append_assoc (hex (length b)) (codes "\r\n" ++ (b ++ codes "\r\n")) (coded cs [])
    ∙ ap (λ xs. hex (length b) ++ crlf xs) (append_assoc b (codes "\r\n") (coded cs []))

-- What is sent by writes and `close`, behind what was sent before.
write_all-lem :
    (bs : List Bytes) (sent : Bytes)
    → AreBuffers bs
    → (w : ChunkedWriter) × (write_all bs (writer sent) ≡ (ok tt, w))
      × (w.stream_source.sent ≡ sent ++ coded (chunks_of bs) [])
unfolding write_all close_chunked chunks_of
write_all-lem [] sent h = (_, refl, refl)
write_all-lem ([] ∷ bs) sent h = write_all-lem bs sent h.1
write_all-lem ((x ∷ b) ∷ bs) sent h =
    let (w, e, all) = write_all-lem bs (sent ++ sent_chunk (x ∷ b)) h.1 in
    let e' = write_chunk-lem (x ∷ b) sent (omega arith) h.0 in
    (
      w,
      ap (λ r. on_reply r (λ done w'. write_all bs w') (λ e w'. (err e, w')) (λ w'. (fault, w'))) e'
          ∙ e,
      all
          ∙ append_assoc sent (sent_chunk (x ∷ b)) (coded (chunks_of bs) [])
          ∙ ap (◌++◌ sent) (sent_chunk-coded (x ∷ b) (chunks_of bs)),
    )

-- For any writes of buffers to a peer that takes them all, and then `close`: the writer reports no
-- error, and a reader over what was sent and any bytes behind it, which come in pieces of any size to a
-- buffer of one byte or more, gives in a `read` for one byte or more that many bytes of the joined
-- buffers, or all, or `Eof` if they are all empty. It then stands in the same body behind these bytes.
pub write_all-read_chunked :
    (bs : List Bytes) (rest : Bytes) (arrivals : List ℕ) (ending : HttpError) (size n : ℕ)
    → AreBuffers bs
    → 0 < size
    → size < uint32_mod
    → 0 < n
    → (w : ChunkedWriter) × (write_all bs (writer []) ≡ (ok tt, w))
      × ReadsBody n (joined bs) rest (
          read_chunked n (
            fresh (
              init
                (record {
                  stream = w.stream_source.sent ++ rest;
                  arrivals = arrivals;
                  ending = ending;
                })
                size)))
write_all-read_chunked bs rest arrivals ending size n buffers room small pos =
    let (w, e, all) = write_all-lem bs [] buffers in
    let source : Source = record {
      stream = w.stream_source.sent ++ rest;
      arrivals = arrivals;
      ending = ending;
    } in
    let stream = ap (λ xs. xs ++ rest) all ∙ coded-append (chunks_of bs) rest in
    let held = subst (Holds (init source size)) stream (init-Holds source size room small) in
    let body : IsBody (fresh (init source size)) (joined bs) rest =
      inl (
        chunks_of bs,
        chunks_of-IsChunks bs buffers,
        inl (refl, held, sym (joined-chunks_of bs)),
      ) in
    (w, e, read_chunked-ReadsBody n (fresh (init source size)) (joined bs) rest pos body)
