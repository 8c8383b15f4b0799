-- ===== src/Http/Chunked/Loop.antt =====
-- The loop of `ChunkedReader::read` against the body that it is yet to give.
use mathlib.Core.Path.{subst}
use mathlib.Core.List.{append_assoc, append-nil}
use cupcake.Base.{
  ℕ, zero, suc, ◌+◌, ◌-◌, ◌≤◌, ◌<◌, ◌≡◌, ◌∙◌, refl, sym, ap, ◌⊎◌, inl, inr, Bool-cases, [], ◌∷◌,
  ◌++◌, List, arith, ◌==◌, if◌then◌else◌, Bytes, length, length-append, take, drop, split_behind,
  nil_of_length,
}
use cupcake.Http.BufferedReader.Layout.{Holds}
use cupcake.Http.Chunked.Coding.{crlf, coded, joined, IsChunks}
use cupcake.Http.Chunked.Rounds.{
  round_body-data, round_body-eol, chunk_rounds-data, chunk_rounds-length, chunk_rounds-last,
}
use cupcake.Http.Chunked.Steps.{
  read_length-chunk, read_length-last, read_data_eol-lem, read_data-lem,
}
use cupcake.Http.Chunked.{
  ChunkedReader, at_length, at_data, at_data_eol, at_eof, round_body, chunk_rounds,
}
use cupcake.Http.Stream.{Reply, ok, err, eof}

-- In a chunk's data.
abbrev pub InData : ChunkedReader → List Bytes → Bytes → Bytes → Type 0
InData c cs content rest =
    (d : Bytes) × (c.chunked_state ≡ at_data)
    × (0 < length d)
    × (c.cur_length ≡ length d)
    × Holds c.buf_reader (d ++ crlf (coded cs rest))
    × (content ≡ d ++ joined cs)

-- Before a chunk's length.
abbrev pub BeforeLength : ChunkedReader → List Bytes → Bytes → Bytes → Type 0
BeforeLength c cs content rest =
    (c.chunked_state ≡ at_length) × Holds c.buf_reader (coded cs rest) × (content ≡ joined cs)

-- The end of the body is not read yet.
abbrev pub IsLive : ChunkedReader → Bytes → Bytes → Type 0
IsLive c content rest =
    (cs : List Bytes) × IsChunks cs × (BeforeLength c cs content rest ⊎ InData c cs content rest)

-- The body that the reader is yet to give, and the bytes of the stream behind it.
abbrev pub IsBody : ChunkedReader → Bytes → Bytes → Type 0
IsBody c content rest =
    IsLive c content rest ⊎ ((c.chunked_state ≡ at_eof) × (content ≡ []) × Holds c.buf_reader rest)

-- A round in a chunk's data.
module _ (rest : Bytes) where
  round_body-lem :
      (n : ℕ) (c : ChunkedReader) (cs : List Bytes) (content : Bytes)
      → 0 < n
      → IsChunks cs
      → InData c cs content rest
      → (bytes : Bytes) × (c3 : ChunkedReader) × (content' : Bytes) × ((next : Bytes
            → ChunkedReader
            → Reply Bytes × ChunkedReader)
          → round_body n next c ≡ next bytes c3)
        × (0 < length bytes)
        × (length bytes ≤ n)
        × (content ≡ bytes ++ content')
        × IsLive c3 content' rest
  round_body-lem n c cs content pos good (d, state, some_data, count, k, whole) =
      let (r, bytes, left, front, some_bytes, most, e, k') =
        read_data-lem n c d (crlf (coded cs rest)) pos some_data count k in
      let split = whole ∙ ap (λ xs. xs ++ joined cs) front ∙ append_assoc bytes left (joined cs) in
      elim (Bool-cases (length left == 0)) [
        | inl done ↦
            let none_left = nil_of_length left (ground arith) in
            let c2 : ChunkedReader = record {
              buf_reader = r;
              cur_length = length left;
              chunked_state = at_data_eol;
            } in
            let e2 =
              e
              ∙ ap
                  (λ b. (
                    ok bytes,
                    record {
                      buf_reader = r;
                      cur_length = length left;
                      chunked_state = if b then at_data_eol else at_data;
                    },
                  ))
                  done in
            let (r', e', k'') =
              read_data_eol-lem c2 (coded cs rest)
                (subst (λ xs. Holds r (xs ++ crlf (coded cs rest))) none_left k') in
            (
              bytes,
              record c2 { buf_reader = r'; chunked_state = at_length },
              joined cs,
              (λ next.
                  round_body-eol n next c c2 bytes state e2
                    (record c2 { buf_reader = r'; chunked_state = at_length }) refl e'),
              some_bytes,
              most,
              split ∙ ap (λ xs. bytes ++ (xs ++ joined cs)) none_left,
              (cs, good, inl (refl, k'', refl)),
            )
        | inr more ↦
            let e2 =
              e
              ∙ ap
                  (λ b. (
                    ok bytes,
                    record {
                      buf_reader = r;
                      cur_length = length left;
                      chunked_state = if b then at_data_eol else at_data;
                    },
                  ))
                  more in
            (
              bytes,
              record { buf_reader = r; cur_length = length left; chunked_state = at_data },
              left ++ joined cs,
              (λ next.
                  round_body-data n next c
                    (record { buf_reader = r; cur_length = length left; chunked_state = at_data })
                    bytes state e2 refl),
              some_bytes,
              most,
              split,
              (cs, good, inr (left, refl, ground arith, refl, k', refl)),
            )
      ]

-- What the loop gives: `n` bytes of the body, or all that are left; and at its end the error `Eof`, if
-- bytes are asked for and none were read before.
abbrev pub GivesBody : ℕ → Bytes → Bytes → Bytes → Reply Bytes × ChunkedReader → Type 0
GivesBody n total content rest result =
    (c' : ChunkedReader) × IsBody c' (drop n content) rest
    × (((content ≡ []) × (total ≡ []) × (0 < n) × (result ≡ (err eof, c')))
        ⊎ (((n ≡ 0) ⊎ (0 < length total + length content))
            × (result ≡ (ok (total ++ take n content), c'))))

pub drop-nil : (n : ℕ) → drop {A = ℕ} n [] ≡ []
drop-nil zero = refl
drop-nil (suc n) = refl

take-nil : (n : ℕ) → take {A = ℕ} n [] ≡ []
take-nil zero = refl
take-nil (suc n) = refl

module _ (rest : Bytes) where
  data_round :
      (f n : ℕ) (total : Bytes) (c : ChunkedReader) (cs : List Bytes) (content : Bytes)
      → ((m : ℕ) (total' : Bytes) (c' : ChunkedReader) (content' : Bytes)
          → m < f
          → IsLive c' content' rest
          → GivesBody m total' content' rest (chunk_rounds f m total' c'))
      → 0 < n
      → n < suc f
      → IsChunks cs
      → InData c cs content rest
      → GivesBody n total content rest
          (round_body n (λ bytes c3. chunk_rounds f (n - length bytes) (total ++ bytes) c3) c)
  data_round f n total c cs content ih pos enough good inside =
      let (bytes, c3, content', e, some_bytes, most, split, live) =
        round_body-lem rest n c cs content pos good inside in
      let left = n - length bytes in
      let (c', body, outcome) =
        ih left (total ++ bytes) c3 content' (omega (arith, enough, some_bytes)) live in
      let (taken, dropped) = split_behind bytes content' n left (omega (arith, most)) in
      let size = length-append total bytes in
      let size' = ap length split ∙ length-append bytes content' in
      (
        c',
        subst (λ xs. IsBody c' xs rest) (sym (ap (drop n) split ∙ dropped)) body,
        elim outcome [
          | inl (none_left, none_yet, some_left, e') ↦
              absurd (omega (arith, ap length none_yet, size, some_bytes))
          | inr (some, e') ↦ inr (
            inr (omega (arith, size', some_bytes)),
            e (λ bytes c3. chunk_rounds f (n - length bytes) (total ++ bytes) c3)
                ∙ e'
                ∙ ap (λ xs. (ok xs, c'))
                    (append_assoc total bytes (take left content')
                      ∙ ap (◌++◌ total) (sym (ap (take n) split ∙ taken))),
          )
        ],
      )

  last_round :
      (f n : ℕ) (total : Bytes) (c : ChunkedReader) (content : Bytes)
      → 0 < n
      → c.chunked_state ≡ at_length
      → Holds c.buf_reader (coded [] rest)
      → content ≡ []
      → GivesBody n total content rest (chunk_rounds (suc f) n total c)
  last_round f n total c content pos state k none_left =
      let (r, e, k') = read_length-last c rest k in
      let c1 : ChunkedReader = record { buf_reader = r; cur_length = 0; chunked_state = at_eof } in
      let nothing : drop n content ≡ [] = ap (drop n) none_left ∙ drop-nil n in
      let end_round = chunk_rounds-last f n pos total c c1 state e refl in
      (
        c1,
        inr (refl, nothing, k'),
        elim (Bool-cases (length total == 0)) [
          | inl none_yet ↦ inl (
            none_left,
            nil_of_length total (ground arith),
            pos,
            end_round ∙ ap (λ b. if b then (err eof, c1) else (ok total, c1)) none_yet,
          )
          | inr some_yet ↦ inr (
            inr (ground arith),
            end_round
                ∙ ap (λ b. if b then (err eof, c1) else (ok total, c1)) some_yet
                ∙ ap (λ xs. (ok xs, c1))
                    (sym (append-nil total)
                      ∙ ap (◌++◌ total) (sym (ap (take n) none_left ∙ take-nil n))),
          )
        ],
      )

  pub chunk_rounds-GivesBody :
      (f n : ℕ) (total : Bytes) (c : ChunkedReader) (content : Bytes)
      → n < f
      → IsLive c content rest
      → GivesBody n total content rest (chunk_rounds f n total c)
  unfolding chunk_rounds
  chunk_rounds-GivesBody zero n total c content enough live = absurd (omega arith)
  chunk_rounds-GivesBody (suc f) zero total c content enough live =
      (c, inl live, inr (inl refl, ap (λ xs. (ok xs, c)) (sym (append-nil total))))
  chunk_rounds-GivesBody (suc f) (suc n) total c content enough (cs, good, inr inside) =
      let round =
        data_round f (suc n) total c cs content (chunk_rounds-GivesBody f) (omega arith) enough good
          inside in
      subst (GivesBody (suc n) total content rest)
        (sym (chunk_rounds-data f (suc n) (omega arith) total c inside.1)) round
  chunk_rounds-GivesBody (suc f) (suc n) total c content enough ([], good, inl (state, k, whole)) =
      last_round f (suc n) total c content (omega arith) state k whole
  chunk_rounds-GivesBody (suc f) (suc n) total c content enough
        (d ∷ cs, good, inl (state, k, whole)) =
      let (r, e, k') = read_length-chunk c (d ++ crlf (coded cs rest)) (length d) good.0 good.1 k in
      let c1 : ChunkedReader = record {
        buf_reader = r;
        cur_length = length d;
        chunked_state = at_data;
      } in
      let round =
        data_round f (suc n) total c1 cs content (chunk_rounds-GivesBody f) (omega arith) enough
          good.2 (d, refl, good.0, refl, k', whole) in
      subst (GivesBody (suc n) total content rest)
        (sym (chunk_rounds-length f (suc n) (omega arith) total c c1 state e refl)) round
