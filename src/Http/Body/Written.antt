-- ===== src/Http/Body/Written.antt =====
-- What the peer gets of the writes.
use mathlib.Core.List.{append-nil}
use cupcake.Base.{
  ℕ, ◌+◌, ◌≤◌, ◌≡◌, refl, ap, ◌⊎◌, inl, inr, Bool-cases, true, [], ◌++◌, arith, ltb, leb, Bytes,
  length,
}
use cupcake.Http.Body.{BufferedWriter, write_buffered, flush_buffered}
use cupcake.Http.Stream.{ok}

-- For a peer that takes all that comes, and bytes that fit in the buffer behind what it holds, or that
-- find it full: `write` succeeds and then `flush` too, and the peer has got what it had before, the bytes
-- held and the new ones, in this order, and the buffer is empty.
pub write_buffered-flush_buffered :
    (bytes sent buffered : Bytes) (buffer_len : ℕ)
    → ((length buffered + length bytes ≤ buffer_len) ⊎ (buffer_len ≤ length buffered))
    → (w : BufferedWriter) × (write_buffered bytes (record {
      stream_source = record { sent = sent; outcomes = [] };
      buffered = buffered;
      buffer_len = buffer_len;
    })
        ≡ (ok tt, w))
      × (flush_buffered w ≡ (
        ok tt,
        record {
          stream_source = record { sent = sent ++ (buffered ++ bytes); outcomes = [] };
          buffered = [];
          buffer_len = buffer_len;
        },
      ))
unfolding write_buffered flush_buffered
write_buffered-flush_buffered bytes sent buffered buffer_len room =
    elim (Bool-cases (ltb (length buffered) buffer_len)) [
      | inl free ↦
          let fits : leb (length buffered + length bytes) buffer_len ≡ true =
            ground (arith, room) in
          rw free (rw fits (_, refl, refl))
      | inr full ↦ rw full (
        _,
        refl,
        ap
            (λ s. (
              ok tt,
              record {
                stream_source = record { sent = s; outcomes = [] };
                buffered = [];
                buffer_len = buffer_len;
              },
            ))
            (append-nil (sent ++ (buffered ++ bytes))),
      )
    ]
