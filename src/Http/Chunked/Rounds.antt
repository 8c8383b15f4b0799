-- ===== src/Http/Chunked/Rounds.antt =====
-- The rounds of the loop, by the state they start in.
use cupcake.Base.{
  ℕ, suc, ◌-◌, ◌<◌, ◌≡◌, ◌∙◌, ap, refl, false, ◌++◌, arith, ◌==◌, if◌then◌else◌, Bytes, length,
}
use cupcake.Http.Chunked.{
  ChunkedReader, ChunkedState, at_length, at_data, at_data_eol, at_eof, is_at_eof, length_part,
  data_part, eol_part, round_body, read_length, read_data, read_data_eol, chunk_rounds,
  read_chunked, close_step, close_rounds,
}
use cupcake.Http.Stream.{Reply, ok, err, eof}

data_part_at :
    (n : ℕ) (c : ChunkedReader) (s : ChunkedState) → s ≡ at_data → data_part s n c ≡ read_data n c
unfolding data_part
data_part_at n c s e = rw e refl

eol_part_in_data : (c : ChunkedReader) (s : ChunkedState) → s ≡ at_data → eol_part s c ≡ (ok tt, c)
unfolding eol_part
eol_part_in_data c s e = rw e refl

eol_part_at :
    (c : ChunkedReader) (s : ChunkedState) → s ≡ at_data_eol → eol_part s c ≡ read_data_eol c
unfolding eol_part
eol_part_at c s e = rw e refl

length_part_in_data :
    (c : ChunkedReader) (s : ChunkedState) → s ≡ at_data → length_part s c ≡ (ok tt, c)
unfolding length_part
length_part_in_data c s e = rw e refl

length_part_at :
    (c : ChunkedReader) (s : ChunkedState) → s ≡ at_length → length_part s c ≡ read_length c
unfolding length_part
length_part_at c s e = rw e refl

is_at_eof_lem : (s t : ChunkedState) → s ≡ t → is_at_eof s ≡ is_at_eof t
is_at_eof_lem s t e = ap is_at_eof e

module _ (n : ℕ) (next : Bytes → ChunkedReader → Reply Bytes × ChunkedReader) (c c2 : ChunkedReader)
    (bytes : Bytes) (state : c.chunked_state ≡ at_data)
    (read : read_data n c ≡ (ok bytes, c2)) where
  data_part-lem : data_part c.chunked_state n c ≡ (ok bytes, c2)
  data_part-lem = data_part_at n c c.chunked_state state ∙ read

  pub round_body-data : c2.chunked_state ≡ at_data → round_body n next c ≡ next bytes c2
  unfolding round_body
  round_body-data state2 =
      rw (data_part-lem, round_body)
        (rw (eol_part_in_data c2 c2.chunked_state state2, round_body) refl)

  pub round_body-eol :
      (c3 : ChunkedReader)
      → c2.chunked_state ≡ at_data_eol
      → read_data_eol c2 ≡ (ok tt, c3)
      → round_body n next c ≡ next bytes c3
  unfolding round_body
  round_body-eol c3 state2 end_read =
      rw (data_part-lem, round_body)
        (rw (eol_part_at c2 c2.chunked_state state2 ∙ end_read, round_body) refl)

module _ (f n : ℕ) (pos : 0 < n) (total : Bytes) (c : ChunkedReader) where
  abbrev pub loop : Bytes → ChunkedReader → Reply Bytes × ChunkedReader
  loop bytes c3 = chunk_rounds f (n - length bytes) (total ++ bytes) c3

  some_left : (n == 0) ≡ false
  some_left = ground arith

  pub chunk_rounds-data :
      c.chunked_state ≡ at_data → chunk_rounds (suc f) n total c ≡ round_body n loop c
  unfolding chunk_rounds
  chunk_rounds-data state = rw some_left (
      rw (is_at_eof_lem c.chunked_state at_data state) (
        rw (length_part_in_data c c.chunked_state state, chunk_rounds)
          (rw (is_at_eof_lem c.chunked_state at_data state) refl)))

  module _ (c1 : ChunkedReader) (state : c.chunked_state ≡ at_length)
      (read : read_length c ≡ (ok tt, c1)) where
    pub chunk_rounds-length :
        c1.chunked_state ≡ at_data → chunk_rounds (suc f) n total c ≡ round_body n loop c1
    unfolding chunk_rounds
    chunk_rounds-length state1 = rw some_left (
        rw (is_at_eof_lem c.chunked_state at_length state) (
          rw (length_part_at c c.chunked_state state ∙ read, chunk_rounds)
            (rw (is_at_eof_lem c1.chunked_state at_data state1) refl)))

    pub chunk_rounds-last :
        c1.chunked_state ≡ at_eof
        → chunk_rounds (suc f) n total c
          ≡ (if length total == 0 then (err eof, c1) else (ok total, c1))
    unfolding chunk_rounds
    chunk_rounds-last state1 = rw some_left (
        rw (is_at_eof_lem c.chunked_state at_length state) (
          rw (length_part_at c c.chunked_state state ∙ read, chunk_rounds)
            (rw (is_at_eof_lem c1.chunked_state at_eof state1) refl)))

pub close_rounds-end :
    (f : ℕ) (c c' : ChunkedReader)
    → is_at_eof c.chunked_state ≡ false
    → read_chunked 1024 c ≡ (err eof, c')
    → close_rounds (suc f) c ≡ (err eof, c')
unfolding close_rounds
close_rounds-end f c c' state e =
    ap (λ b. close_step b (read_chunked 1024 c) (λ x. close_rounds f x) c) state
    ∙ ap (λ given. close_step false given (λ x. close_rounds f x) c) e
