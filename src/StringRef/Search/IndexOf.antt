-- ===== src/StringRef/Search/IndexOf.antt =====
-- `indexOf` gives the first match, by either of its ways.
use cupcake.Base.Word.{uint32_mod}
use cupcake.Base.{
  leb, some, ℕ, suc, ◌-◌, ◌≤◌, ◌<◌, ◌≡◌, false, inl, inr, Bool-cases, arith, ltb, ◌==◌, Bytes,
  length, drop, length-drop,
}
use cupcake.StringRef.Search.{skip_table, index_of_from}
use cupcake.StringRef.Search.First.{IsFirst, short-no_match}
use cupcake.StringRef.Search.Horspool.{horspool-IsFirst}
use cupcake.StringRef.Search.Naive.{brute_force-IsFirst}
use cupcake.StringRef.Search.Skip.{AllAscii, bad_char_skip-IsSkip}

-- For every text, start within it and needle of 1 to 2^32 bytes, none of them from 128: `indexOf`
-- gives the index of the first place from the start on at which the needle stands, and -1 exactly
-- if there is none. The search by brute force in short texts and the search by skips in long ones
-- agree in this, both end, and neither leaves the text.
pub index_of_from-IsFirst :
    (text needle : Bytes) (start : ℕ)
    → start ≤ length text
    → 0 < length needle
    → length needle ≤ uint32_mod
    → AllAscii needle
    → IsFirst needle (drop start text) start (index_of_from text needle start)
unfolding index_of_from skip_table
index_of_from-IsFirst text needle start within pos short_needle ascii =
    let area = drop start text in
    let len = length-drop {A = ℕ} start text in
    let inside : ltb (length text) start ≡ false = ground arith in
    let some_needle : (length needle == 0) ≡ false = ground arith in
    let last : length needle ≡ suc (length needle - 1) = omega arith in
    let (skip, made, good) =
      bad_char_skip-IsSkip (length needle - 1) 0 needle (λ x. length needle) ascii (omega arith)
        (λ x. omega (arith, pos)) in
    let counted : leb uint32_mod (length needle - 1) ≡ false = ground (arith, short_needle) in
    let table : skip_table needle ≡ some skip = rw (counted, skip_table) made in
    rw inside (
      rw some_needle elim (Bool-cases (ltb (length text - start) (length needle))) [
        | inl short ↦ rw short (λ k.
            short-no_match (drop k area) needle (ground (arith, len, length-drop {A = ℕ} k area)))
        | inr room ↦ rw room elim (Bool-cases (ltb (length text - start) 256)) [
          | inl small ↦ rw small (brute_force-IsFirst needle area start pos)
          | inr large ↦ rw large (
              rw (table, index_of_from)
                (horspool-IsFirst (suc (length area)) (length needle - 1) skip needle area start
                  (omega arith) last good))
        ]
      ])
