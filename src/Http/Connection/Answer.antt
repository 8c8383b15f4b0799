-- ===== src/Http/Connection/Answer.antt =====
-- `sendStatus` of src/http/HttpConnection.cpp.
use mathlib.Core.List.{append_assoc, append-nil}
use cupcake.Base.{
  suc, zero, ◌+◌, refl, List, Option, true, ltb, set, length-append, length-drop, ℕ, ◌≤◌, ◌<◌, ◌≡◌,
  ◌∙◌, ap, [], ◌∷◌, ◌++◌, none, some, arith, if◌then◌else◌, Bytes, codes, length, take, drop,
  take_all,
}
use cupcake.Base.Word.{uint32_mod}
use cupcake.Http.BufferedReader.Layout.{length-new_buffer}
use cupcake.Http.BufferedReader.{new_buffer}
use cupcake.Http.Connection.Special.{is_http1_0}
use cupcake.Http.Request.{HttpVersion, http1_0, http1_1}
use cupcake.Http.Sink.{Sink, sink_write}
use cupcake.Http.Stream.{Reply, ok, fault}
use cupcake.Strconv.Decimal.Digits.{decimal_length_le}
use cupcake.Strconv.Text.{text}
use cupcake.Strconv.ToStr.Fits.{uint32_to_buffer-PrintsFront}
use cupcake.Strconv.ToStr.{uint32_to_buffer}

abbrev pub version_text : HttpVersion → Bytes
version_text v = if is_http1_0 v then codes "HTTP/1.0 " else codes "HTTP/1.1 "

-- `codeBuffer`: the code, and a space stored behind it. The result is the array, whose places that are
-- not written are 0 here, and the length of the code.
unfoldable pub code_buffer : ℕ → Option (Bytes × ℕ)
code_buffer code = elim (uint32_to_buffer code (new_buffer 12)) [
  | none ↦ none
  | some (buffer, code_bytes) ↦
      if ltb code_bytes (length buffer) then some (set buffer code_bytes 0x20, code_bytes) else none
]

-- The bytes of the first buffers of an array, one behind the other.
abbrev pub gathered : ℕ → List Bytes → Bytes
gathered zero bufs = []
gathered (suc n) [] = []
gathered (suc n) (b ∷ bufs) = b ++ gathered n bufs

-- `ioBufs`
abbrev pub io_bufs : HttpVersion → Bytes → ℕ → Bytes → List Bytes
io_bufs version buffer code_bytes reason =
    version_text version ∷ take (code_bytes + 1) buffer ∷ reason ∷ codes "\r\n\r\n" ∷ []

unfoldable pub send_status : HttpVersion → ℕ → Bytes → Sink → Reply (Unit {0}) × Sink
unfolding code_buffer
send_status version code reason sink = elim (code_buffer code) [
  | none ↦ (fault, sink)
  | some (buffer, code_bytes) ↦
      sink_write sink (gathered 3 (io_bufs version buffer code_bytes reason))
]

-- A space stored behind a text at the front of a buffer.
space_behind :
    (t rest : Bytes) (x : ℕ)
    → take (length t + 1) (set (t ++ x ∷ rest) (length t) 0x20) ≡ t ++ 0x20 ∷ []
space_behind [] rest x = refl
space_behind (c ∷ t) rest x =
    let e : suc (length t) + 1 ≡ suc (length t + 1) = omega arith in
    rw e (ap (◌∷◌ c) (space_behind t rest x))

code_buffer-lem :
    (code : ℕ)
    → code < uint32_mod
    → (buffer : Bytes) × (code_buffer code ≡ some (buffer, length (text 10 code)))
      × (take (length (text 10 code) + 1) buffer ≡ text 10 code ++ 0x20 ∷ [])
unfolding code_buffer
code_buffer-lem code small = room_for (drop (length t) (new_buffer 12)) refl
  where
    t : Bytes
    t = text 10 code

    short : length t ≤ 10
    short = decimal_length_le 9 code (omega (arith, small))

    printed :
        uint32_to_buffer code (new_buffer 12)
        ≡ some (t ++ drop (length t) (new_buffer 12), length t)
    printed =
        uint32_to_buffer-PrintsFront code small (new_buffer 12)
        ∙ ap (λ s. some (s ++ drop (length t) (new_buffer 12), length t))
            (take_all (length (new_buffer 12)) t (omega (arith, short, length-new_buffer 12)))

    room_for :
        (free : Bytes)
        → drop (length t) (new_buffer 12) ≡ free
        → (buffer : Bytes) × (code_buffer code ≡ some (buffer, length t))
          × (take (length t + 1) buffer ≡ t ++ 0x20 ∷ [])
    room_for [] e = absurd (
        omega (
          arith,
          short,
          length-new_buffer 12,
          length-drop {A = ℕ} (length t) (new_buffer 12),
          ap length e,
        ))
    room_for (x ∷ rest) e =
        let inside : ltb (length t) (length (t ++ x ∷ rest)) ≡ true =
          ground (arith, length-append t (x ∷ rest)) in
        (
          set (t ++ x ∷ rest) (length t) 0x20,
          rw (printed, code_buffer) (rw e (rw inside refl)),
          space_behind t rest x,
        )

sent_status :
    (version : HttpVersion) (code : ℕ) (reason sent : Bytes)
    → code < uint32_mod
    → send_status version code reason (record { sent = sent; outcomes = [] }) ≡ (
      ok tt,
      record {
        sent = sent ++ (version_text version ++ ((text 10 code ++ 0x20 ∷ []) ++ (reason ++ [])));
        outcomes = [];
      },
    )
unfolding send_status
sent_status version code reason sent small =
    let (buffer, e, front) = code_buffer-lem code small in
    rw (e, send_status)
      (ap
        (λ s. (
          ok tt,
          record { sent = sent ++ (version_text version ++ (s ++ (reason ++ []))); outcomes = [] },
        ))
        front)

-- A call to a peer that has got `sent` leaves it with this behind.
abbrev pub Sends : Bytes → Bytes → Reply (Unit {0}) × Sink → Type 0
Sends sent bytes result = result ≡ (ok tt, record { sent = sent ++ bytes; outcomes = [] })

sent_status-Sends :
    (version : HttpVersion) (code : ℕ) (reason sent : Bytes)
    → code < uint32_mod
    → Sends sent
        (version_text version ++ (text 10 code ++ (codes " " ++ reason)))
        (send_status version code reason (record { sent = sent; outcomes = [] }))
sent_status-Sends version code reason sent small =
    sent_status version code reason sent small
    ∙ ap (λ s. (ok tt, record { sent = sent ++ (version_text version ++ s); outcomes = [] }))
        (append_assoc (text 10 code) (0x20 ∷ []) (reason ++ [])
          ∙ ap (λ s. text 10 code ++ 0x20 ∷ s) (append-nil reason))

-- To a peer that takes what comes, `sendStatus` sends for every code and reason the bytes "HTTP/1.0 " for
-- a request of version 1.0 and "HTTP/1.1 " for one of version 1.1, the code in decimal, a space and the
-- reason, and nothing behind it: neither the end of this line nor the empty line that ends the header.
pub send_status-text :
    (code : ℕ) (reason sent : Bytes)
    → code < uint32_mod
    → Sends sent
        (codes "HTTP/1.0 " ++ (text 10 code ++ (codes " " ++ reason)))
        (send_status http1_0 code reason (record { sent = sent; outcomes = [] }))
      × Sends sent
          (codes "HTTP/1.1 " ++ (text 10 code ++ (codes " " ++ reason)))
          (send_status http1_1 code reason (record { sent = sent; outcomes = [] }))
send_status-text code reason sent small = (
  sent_status-Sends http1_0 code reason sent small,
  sent_status-Sends http1_1 code reason sent small,
)
