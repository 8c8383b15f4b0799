-- ===== src/StringRef/Backward.antt =====
-- The searches from the end, `lastIndexOf`, of src/text/StringRef.cpp.
pub mod IsLast
pub mod Stuck
use cupcake.Base.Word.{uint32_mod}
use cupcake.Base.{
  get_elem?, ℕ, zero, suc, ◌+◌, ◌-◌, Bool, true, false, [], ◌∷◌, Option, none, some, ltb, leb, ◌==◌,
  if◌then◌else◌, Bytes, length, drop, take, reverse, get_or,
}
use cupcake.StringRef.Search.{Search, found, missing, fault, starts_with}

-- `memrchr` of the first `count` bytes, from the last one down.
unfoldable pub find_char_back : ℕ → Bytes → ℕ → Search
find_char_back c text zero = missing
find_char_back c text (suc count) =
    let rest = find_char_back c text count in if get_or text count 0 == c then found count else rest

-- `lastIndexOf(char, size_t)`
unfoldable pub last_index_of_char_from : Bytes → ℕ → ℕ → Search
unfolding find_char_back
last_index_of_char_from text c end_index =
    if ltb (length text) end_index then fault else find_char_back c text end_index

-- `lastIndexOf(char)`, which searches before the index 0.
unfoldable pub last_index_of_char : Bytes → ℕ → Search
unfolding last_index_of_char_from
last_index_of_char text c = last_index_of_char_from text c 0

-- The search by brute force, from an index down to 0.
unfoldable pub brute_force_back : Bytes → Bytes → ℕ → Search
unfolding starts_with
brute_force_back needle text zero = if starts_with text needle then found 0 else missing
brute_force_back needle text (suc i) =
    let rest = brute_force_back needle text i in
    if starts_with (drop (suc i) text) needle then found (suc i) else rest

-- `skip[(unsigned)strRefData[i]] = strRefLast - (strRefLast - i)` for every `i`. The list is
-- `strRefData` from `i`.
unfoldable pub back_skip : ℕ → Bytes → (ℕ → ℕ) → Option (ℕ → ℕ)
back_skip i [] skip = some skip
back_skip i (c ∷ rest) skip =
    let more = back_skip (i + 1) rest (λ x. if x == c then i else skip x) in
    if ltb c 128 then more else none

-- The table of skips. `i` is a `uint32_t`, so for a needle of 2^32 bytes or more the loop does not end.
unfoldable pub back_table : Bytes → Option (ℕ → ℕ)
unfolding back_skip
back_table needle =
    let table = back_skip 0 needle (λ x. length needle) in
    if leb uint32_mod (length needle) then none else table

-- What a round of the search ends with: the result, or the next index.
pub data BackRound : Type 0 where
  done : Search → BackRound
  go_on : ℕ → BackRound

-- The skip by the byte at index `p`. `skip` has 255 places.
abbrev pub move_back : Option ℕ → (ℕ → ℕ) → ℕ → BackRound
move_back none skip p = done fault
move_back (some c) skip p =
    if leb 255 c then done fault else if ltb p (skip c) then done missing else go_on (p - skip c)

-- A round of the loop over `searchPtr`, which stands at index `p`.
unfoldable pub back_round : (ℕ → ℕ) → Bytes → Bytes → ℕ → BackRound
unfolding starts_with
back_round skip needle text p =
    let next = move_back (get_elem? text p) skip p in
    if starts_with (drop p text) needle then done (found p) else next

abbrev pub after_round : BackRound → (ℕ → Search) → Search
after_round (done r) rest = r
after_round (go_on p) rest = rest p

-- The loop over `searchPtr`. The fuel counts the rounds.
unfoldable pub horspool_back : ℕ → (ℕ → ℕ) → Bytes → Bytes → ℕ → Search
unfolding back_round
horspool_back zero skip needle text p = fault
horspool_back (suc f) skip needle text p =
    after_round (back_round skip needle text p) (λ p'. horspool_back f skip needle text p')

-- `lastIndexOf(StringRef, size_t)`. A search that goes on moves down each round, so it would take no
-- more rounds than this.
unfoldable pub last_index_of_from : Bytes → Bytes → ℕ → Search
unfolding brute_force_back back_table horspool_back
last_index_of_from text needle end_index =
    let p = end_index - length needle in
    let by_skips : Search = elim (back_table needle) [
      | none ↦ fault
      | some skip ↦ horspool_back (suc (suc p)) skip needle text p
    ] in
    if ltb (length text) end_index
    then fault
    else if length needle == 0
    then found 0
    else if ltb end_index (length needle)
    then missing
    else if ltb p 256
    then brute_force_back needle text p
    else by_skips

-- `lastIndexOf(StringRef)`
unfoldable pub last_index_of : Bytes → Bytes → Search
unfolding last_index_of_from
last_index_of text needle = last_index_of_from text needle (length text)
