-- ===== src/Http/Body/Counted.antt =====
-- `ContentLengthReader::read` against the bytes of the body.
use native.Mathlib.Nat.{mod-eq_of_lt}
use mathlib.Core.Path.{subst}
use cupcake.Base.{
  split_front, nonzero, ℕ, ◌-◌, ◌%◌, ◌≤◌, ◌<◌, ◌≡◌, ◌∙◌, refl, sym, ap, inl, inr, [], ◌++◌, arith,
  min, Bytes, length, length-append, nil_of_length,
}
use cupcake.Base.Word.{uint32_mod}
use cupcake.Http.Body.{ContentLengthReader, read_counted}
use cupcake.Http.BufferedReader.Layout.{Holds}
use cupcake.Http.BufferedReader.Read.{read-ReadsSome}
use cupcake.Http.Stream.{Reply, ok}

-- The body and what follows it, of which some of the first bytes are given.
abbrev pub ReadsCounted : ℕ → Bytes → Bytes → Reply Bytes × ContentLengthReader → Type 0
ReadsCounted n content rest result =
    (c' : ContentLengthReader) × (bytes : Bytes) × (left : Bytes) × (result ≡ (ok bytes, c'))
    × (content ≡ bytes ++ left)
    × (length bytes ≤ n)
    × (0 < n → 0 < length bytes)
    × (c'.content_length ≡ length left)
    × Holds c'.buf_reader (left ++ rest)

-- For a reader whose counted length is that of the body yet to come, above 0 and below 2^32: `read` gives
-- some of the first bytes of the body, at most as many as asked for and one at least if any were, never
-- one of the bytes behind the body, and counts down so that the same holds of what is left.
pub read_counted-ReadsCounted :
    (n : ℕ) (c : ContentLengthReader) (content rest : Bytes)
    → 0 < length content
    → length content < uint32_mod
    → c.content_length ≡ length content
    → Holds c.buf_reader (content ++ rest)
    → ReadsCounted n content rest (read_counted n c)
unfolding read_counted
read_counted-ReadsCounted n c content rest pos small count k =
    let whole : c.content_length % uint32_mod ≡ c.content_length =
      mod-eq_of_lt (omega (arith, small, count)) in
    let more = nonzero c.content_length (omega (arith, pos, count)) in
    let len = min c.content_length n in
    elim (read-ReadsSome len c.buf_reader (content ++ rest) k) [
      | inl (r, none_left, e, k', ending) ↦
          absurd (omega (arith, ap length none_left, length-append content rest, pos))
      | inr (r, bytes, after, e, split, k', most, some_bytes, ending) ↦
          let (left, front, back) =
            split_front bytes after content rest split (omega (arith, most, count)) in
          let size = ap length front ∙ length-append bytes left in
          (
            record { buf_reader = r; content_length = c.content_length - length bytes },
            bytes,
            left,
            rw more (rw whole (rw (e, read_counted) refl)),
            front,
            omega (arith, most),
            λ asked. some_bytes (omega (arith, asked, pos, count)),
            omega (arith, size, count),
            subst (Holds r) back k',
          )
    ]

-- If the length is above 0 and a multiple of 2^32, and bytes are yet to come: `read` succeeds with no byte
-- and leaves the length and these bytes as they were, however many bytes are asked for.
pub read_counted-stuck :
    (n : ℕ) (c : ContentLengthReader) (contents : Bytes)
    → 0 < c.content_length
    → c.content_length % uint32_mod ≡ 0
    → 0 < length contents
    → Holds c.buf_reader contents
    → (c' : ContentLengthReader) × (read_counted n c ≡ (ok [], c'))
      × (c'.content_length ≡ c.content_length)
      × Holds c'.buf_reader contents
unfolding read_counted
read_counted-stuck n c contents pos multiple some_contents k =
    let more = nonzero c.content_length pos in
    let none_asked : min 0 n ≡ 0 = omega arith in
    elim (read-ReadsSome 0 c.buf_reader contents k) [
      | inl (r, none_left, e, k', ending) ↦
          absurd (omega (arith, ap length none_left, some_contents))
      | inr (r, bytes, after, e, split, k', most, some_bytes, ending) ↦
          let nothing = nil_of_length bytes (omega (arith, most)) in
          let e' = e ∙ ap (λ b. (ok b, r)) nothing in
          let same : contents ≡ after = split ∙ ap (λ b. b ++ after) nothing in
          let left : c.content_length - 0 ≡ c.content_length = omega arith in
          (
            record { buf_reader = r; content_length = c.content_length - 0 },
            rw more (rw multiple (rw none_asked (rw (e', read_counted) refl))),
            left,
            subst (Holds r) (sym same) k',
          )
    ]
