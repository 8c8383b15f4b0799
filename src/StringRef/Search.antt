-- ===== src/StringRef/Search.antt =====
-- The searches of src/text/StringRef.cpp. `char` is signed, as it is with the compilers that the
-- program is built with.
pub mod First
pub mod Naive
pub mod Skip
pub mod Horspool
pub mod IndexOf
use cupcake.Base.Word.{uint32_mod}
use cupcake.Base.{
  get_elem?, ℕ, zero, suc, ◌+◌, ◌-◌, Bool, true, false, ◌&&◌, [], ◌∷◌, Option, none, some, ltb, leb,
  ◌==◌, if◌then◌else◌, Bytes, length, drop, get_or,
}

-- What a search gives: an index, -1, or behaviour that C++ leaves undefined, a failed `assert` or,
-- in the model, the end of the fuel.
pub data Search : Type 0 where
  found : ℕ → Search
  missing : Search
  fault : Search

-- `startsWith`, by `memcmp` of the first bytes.
unfoldable pub starts_with : Bytes → Bytes → Bool
starts_with hay [] = true
starts_with [] (n ∷ ns) = false
starts_with (h ∷ hs) (n ∷ ns) = h == n && starts_with hs ns

-- `memchr`, from the index at which the text stands.
unfoldable pub find_char : ℕ → Bytes → ℕ → Search
find_char c [] i = missing
find_char c (x ∷ xs) i = let rest = find_char c xs (i + 1) in if x == c then found i else rest

-- `indexOf(char, size_t)`
unfoldable pub index_of_char_from : Bytes → ℕ → ℕ → Search
unfolding find_char
index_of_char_from text c start =
    if ltb (length text) start then fault else find_char c (drop start text) start

-- `indexOf(char)`
unfoldable pub index_of_char : Bytes → ℕ → Search
unfolding index_of_char_from
index_of_char text c = index_of_char_from text c 0

-- The search by brute force: every index that leaves room for `needle`. `rest` is the text from the
-- index `i`.
unfoldable pub brute_force : Bytes → Bytes → ℕ → Search
unfolding starts_with
brute_force needle [] i = missing
brute_force needle (c ∷ rest) i =
    let later = brute_force needle rest (i + 1) in
    let here = if starts_with (c ∷ rest) needle then found i else later in
    if leb (length needle) (length (c ∷ rest)) then here else missing

-- `badCharSkip[(unsigned)strRefData[i]] = endIndex - i` for every `i` below `endIndex`. A byte from
-- 128 is a negative `char`, and its place is far behind the array. The list is `strRefData` from `i`.
unfoldable pub bad_char_skip : ℕ → ℕ → Bytes → (ℕ → ℕ) → Option (ℕ → ℕ)
bad_char_skip end_index i [] skip = some skip
bad_char_skip end_index i (c ∷ []) skip = some skip
bad_char_skip end_index i (c ∷ d ∷ rest) skip =
    let more =
      bad_char_skip end_index (i + 1) (d ∷ rest) (λ x. if x == c then end_index - i else skip x) in
    if ltb c 128 then more else none

-- The table of skips. `i` is a `uint32_t`, so for a needle of more than 2^32 bytes the loop does not end.
unfoldable pub skip_table : Bytes → Option (ℕ → ℕ)
unfolding bad_char_skip
skip_table needle =
    let table = bad_char_skip (length needle - 1) 0 needle (λ x. length needle) in
    if leb uint32_mod (length needle - 1) then none else table

-- `searchPtr[scan] == strRef.strData[scan]`; none where one of them has no such byte.
abbrev pub same_at : Option ℕ → Option ℕ → Option Bool
same_at none o = none
same_at (some x) none = none
same_at (some x) (some y) = some (x == y)

-- The rest of a comparison, which ends at the first bytes that differ.
abbrev pub and_then : Option Bool → Option Bool → Option Bool
and_then none rest = none
and_then (some true) rest = rest
and_then (some false) rest = some false

-- The inner loop: a comparison from index `scan` down to 0.
unfoldable pub matches_back : ℕ → Bytes → Bytes → Option Bool
matches_back zero needle rest = same_at (get_elem? rest 0) (get_elem? needle 0)
matches_back (suc scan) needle rest =
    and_then (same_at (get_elem? rest (suc scan)) (get_elem? needle (suc scan)))
      (matches_back scan needle rest)

-- What follows a comparison: the index, or the rest of the search.
abbrev pub after_match : Option Bool → ℕ → Search → Search
after_match none i later = fault
after_match (some true) i later = found i
after_match (some false) i later = later

abbrev pub after_byte : Option ℕ → (ℕ → Search) → Search
after_byte none later = fault
after_byte (some c) later = later c

-- The outer loop. `rest` is the text from `searchPtr` on, `i` its index. The fuel counts the rounds.
unfoldable pub horspool : ℕ → (ℕ → ℕ) → Bytes → Bytes → ℕ → Search
unfolding matches_back
horspool zero skip needle rest i = fault
horspool (suc f) skip needle rest i =
    let later =
      after_byte (get_elem? rest (length needle - 1))
        (λ c. horspool f skip needle (drop (skip c) rest) (i + skip c)) in
    let here = after_match (matches_back (length needle - 1) needle rest) i later in
    if leb (length needle) (length rest) then here else missing

-- `indexOf(StringRef, size_t)`
unfoldable pub index_of_from : Bytes → Bytes → ℕ → Search
unfolding brute_force skip_table horspool
index_of_from text needle start =
    let area = drop start text in
    let by_skips : Search = elim (skip_table needle) [
      | none ↦ fault
      | some skip ↦ horspool (suc (length area)) skip needle area start
    ] in
    if ltb (length text) start
    then fault
    else if length needle == 0
    then found 0
    else if ltb (length text - start) (length needle)
    then missing
    else if ltb (length text - start) 256
    then brute_force needle area start
    else by_skips

-- `indexOf(StringRef)`
unfoldable pub index_of : Bytes → Bytes → Search
unfolding index_of_from
index_of text needle = index_of_from text needle 0
