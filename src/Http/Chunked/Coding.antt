-- ===== src/Http/Chunked/Coding.antt =====
-- The texts of the chunked coding: hexadecimal lengths, lines and chunks.
use mathlib.Core.List.{append_assoc}
use cupcake.Base.{
  ℕ, ◌+◌, ◌-◌, ◌*◌, ◌≤◌, ◌<◌, ◌≡◌, ◌∙◌, refl, ap, inl, inr, Option-cases, false, [], ◌∷◌, ◌++◌,
  List, none, some, arith, ltb, Bytes, Lacks, Lacks-append, length, get_or, length-append,
  take-length-append,
}
use cupcake.Base.Word.{uint32_mod}
use cupcake.Http.BufferedReader.Layout.{Holds}
use cupcake.Http.BufferedReader.Line.Finds.{read_line-ReadsLine}
use cupcake.Http.BufferedReader.Line.View.{without_cr, get_or-behind}
use cupcake.Http.BufferedReader.{Reader, read_line}
use cupcake.Http.Chunked.{without_extension}
use cupcake.Http.Stream.{ok}
use cupcake.Strconv.Digit.{digit_value, char_value}
use cupcake.Strconv.Numeral.{numeral}
use cupcake.Strconv.Parse.{parse_uint64}
use cupcake.Strconv.Print.Fill.{length-digits_text}
use cupcake.Strconv.Text.{numeral-text}
use cupcake.Strconv.ToStr.Fits.{uint_text}
use cupcake.Strconv.ToStr.RoundTrip.{uint_text-text, parse_uint64-uint_text}
use cupcake.StringRef.Search.{missing, find_char, index_of_char, index_of_char_from}

abbrev pub crlf : Bytes → Bytes
crlf rest = 0x0d ∷ 0x0a ∷ rest

-- The length of a chunk as it is sent.
abbrev pub hex : ℕ → Bytes
hex n = uint_text 16 n

-- Chunks, the end of the body, and what follows it.
abbrev pub coded : List Bytes → Bytes → Bytes
coded [] rest = 0x30 ∷ crlf (crlf rest)
coded (d ∷ ds) rest = hex (length d) ++ crlf (d ++ crlf (coded ds rest))

-- The body that chunks make.
abbrev pub joined : List Bytes → Bytes
joined [] = []
joined (d ∷ ds) = d ++ joined ds

-- No chunk is empty, and the length of each is a `uint32_t`.
abbrev pub IsChunks : List Bytes → Type 0
IsChunks [] = Unit {0}
IsChunks (d ∷ ds) = (0 < length d) × (length d < uint32_mod) × IsChunks ds

Lacks-of_numeral :
    (c radix acc v : ℕ) (s : Bytes)
    → digit_value radix c ≡ none
    → numeral radix acc s ≡ some v
    → Lacks c s
Lacks-of_numeral c radix acc v [] h e = tt
Lacks-of_numeral c radix acc v (x ∷ s) h e = elim (Option-cases (digit_value radix x)) [
  | inl n ↦ ground arith
  | inr (d, n) ↦ (
    (λ same. ground (arith, ap (digit_value radix) same)),
    Lacks-of_numeral c radix (acc * radix + d) v s h (ground arith),
  )
]

module _ (n : ℕ) (pos : 0 < n) where
  hex-Lacks : (c : ℕ) → digit_value 16 c ≡ none → Lacks c (hex n)
  hex-Lacks c h = Lacks-of_numeral c 16 0 n (hex n) h (
      ap (numeral 16 0)
        (uint_text-text 16 (omega arith) (omega arith) n (λ z. absurd (omega (arith, z))))
      ∙ numeral-text 16 (omega arith) (omega arith) n)

  pub hex-Lacks-newline : Lacks 0x0a (hex n)
  unfolding digit_value char_value
  hex-Lacks-newline = hex-Lacks 0x0a refl

  pub hex-Lacks-semicolon : Lacks b';' (hex n)
  unfolding digit_value char_value
  hex-Lacks-semicolon = hex-Lacks b';' refl

  pub parse-hex : n < uint32_mod → parse_uint64 (hex n) 16 ≡ some n
  parse-hex small =
      parse_uint64-uint_text n 16 (omega arith) (omega arith) (omega arith)
        (λ z. absurd (omega (arith, z)))

pub length-hex : (n : ℕ) → n < uint32_mod → length (hex n) ≤ 32
length-hex n small = length-digits_text 16 32 n (omega arith) (omega arith)

find_char-missing : (c : ℕ) (s : Bytes) (i : ℕ) → Lacks c s → find_char c s i ≡ missing
unfolding find_char
find_char-missing c [] i h = refl
find_char-missing c (x ∷ s) i h = ground (arith, find_char-missing c s (i + 1) h.1, h.0)

index_of_char-missing : (c : ℕ) (s : Bytes) → Lacks c s → index_of_char s c ≡ missing
unfolding index_of_char index_of_char_from
index_of_char-missing c s h =
    let inside : ltb (length s) 0 ≡ false = ground arith in rw inside (find_char-missing c s 0 h)

pub without_extension-plain : (line : Bytes) → Lacks b';' line → without_extension line ≡ line
unfolding without_extension
without_extension-plain line h = rw (index_of_char-missing b';' line h, without_extension) refl

without_cr-append : (l : Bytes) → without_cr (l ++ 0x0d ∷ []) ≡ l
without_cr-append l =
    let size : length (l ++ 0x0d ∷ []) - 1 ≡ length l =
      omega (arith, length-append l (0x0d ∷ [])) in
    let place : length l ≡ length l + 0 = omega arith in
    let last : get_or (l ++ 0x0d ∷ []) (length l) 0 ≡ 0x0d =
      ap (λ k. get_or (l ++ 0x0d ∷ []) k 0) place ∙ get_or-behind l (0x0d ∷ []) 0 in
    rw size (rw last (take-length-append l (0x0d ∷ [])))

-- A line that ends in a carriage return and a newline.
pub read_line-crlf :
    (max_length : ℕ) (r : Reader) (l rest : Bytes)
    → Holds r (l ++ crlf rest)
    → Lacks 0x0a l
    → length l + 1 < max_length
    → max_length + 2 < uint32_mod
    → (r' : Reader) × (read_line max_length r ≡ (ok l, r')) × Holds r' rest
read_line-crlf max_length r l rest k plain short small =
    let size = length-append l (0x0d ∷ []) in
    let cr : Lacks 0x0a (0x0d ∷ []) = (omega arith, tt) in
    let (r', e, k', ending) =
      read_line-ReadsLine max_length r (l ++ 0x0d ∷ []) rest
        (rw (append_assoc l (0x0d ∷ []) (0x0a ∷ rest)) k) (Lacks-append 0x0a l (0x0d ∷ []) plain cr)
        (omega (arith, size)) small (inl (omega (arith, size))) in
    (r', e ∙ ap (λ x. (ok x, r')) (without_cr-append l), k')
