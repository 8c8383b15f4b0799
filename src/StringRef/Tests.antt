-- ===== src/StringRef/Tests.antt =====
-- Runs of the functions of src/text/StringRef.cpp, and their theorems at inputs.
use cupcake.Base.{
  ℕ, zero, suc, ◌-◌, ◌+◌, ◌≡◌, ◌↔◌, refl, some, true, false, [], ◌∷◌, ◌++◌, arith, Bytes, codes,
  length, drop,
}
use cupcake.StringRef.Backward.IsLast.{IsLast, last_index_of_from-IsLast}
use cupcake.StringRef.Backward.Stuck.{last_index_of_from-endless}
use cupcake.StringRef.Backward.{
  back_table, go_on, back_round, horspool_back, last_index_of_char, last_index_of,
  last_index_of_from,
}
use cupcake.StringRef.Compare.{
  SameLetters, same, equals, eng_equals_ignore_case, eng_compare_ignore_case, starts_with_char,
  ends_with_char, ends_with, eng_equals_ignore_case_iff, eng_compare_ignore_case_iff,
}
use cupcake.StringRef.Search.IndexOf.{index_of_from-IsFirst}
use cupcake.StringRef.Search.First.{IsFirst}
use cupcake.StringRef.Search.{found, missing, fault, starts_with, index_of, index_of_from}

abbrev zeros : ℕ → Bytes
zeros zero = []
zeros (suc n) = 0 ∷ zeros n

-- An area of 258 bytes, which `indexOf` searches by skips.
abbrev long_text : Bytes
long_text = zeros 256 ++ codes "ac"

index_of_from-IsFirst_example :
    IsFirst (codes "ac") (drop 0 long_text) 0 (index_of_from long_text (codes "ac") 0)
index_of_from-IsFirst_example =
    index_of_from-IsFirst long_text (codes "ac") 0 (omega arith) (omega arith) (omega arith)
      (omega arith, (omega arith, tt))

last_index_of_from-IsLast_example :
    IsLast
      (codes "ab")
      (codes "abcabc")
      (5 - 2)
      (last_index_of_from (codes "abcabc") (codes "ab") 5)
last_index_of_from-IsLast_example =
    last_index_of_from-IsLast (codes "abcabc") (codes "ab") 5 (omega arith) (omega arith)
      (omega arith) (omega arith)

misses : starts_with (drop 256 long_text) (codes "ab") ≡ false
unfolding starts_with
misses = refl

last_index_of_from-endless_example :
    (skip : ℕ → ℕ) × (back_table (codes "ab") ≡ some skip)
    × (last_index_of_from long_text (codes "ab") (256 + length (codes "ab"))
        ≡ horspool_back (suc (suc 256)) skip (codes "ab") long_text 256)
    × (back_round skip (codes "ab") long_text 256 ≡ go_on 256)
    × (horspool_back 1000 skip (codes "ab") long_text 256 ≡ fault)
last_index_of_from-endless_example =
    last_index_of_from-endless 1000 b'a' (codes "b") long_text 256 (omega arith, (omega arith, tt))
      (omega arith) (omega arith, tt) (omega arith) (omega arith) refl misses

eng_equals_ignore_case_iff_example :
    (eng_equals_ignore_case (codes "Close") (codes "close") ≡ true)
    ↔ SameLetters (codes "Close") (codes "close")
eng_equals_ignore_case_iff_example = eng_equals_ignore_case_iff (codes "Close") (codes "close")

eng_compare_ignore_case_iff_example :
    (eng_compare_ignore_case (codes "A") (codes "a") ≡ same) ↔ (codes "A" ≡ codes "a")
eng_compare_ignore_case_iff_example =
    eng_compare_ignore_case_iff (codes "A") (codes "a") (omega arith, tt) (omega arith, tt)

-- `lastIndexOf` of a byte finds nothing, also where there is one.
last_index_of_char_run : last_index_of_char (codes "a/b") b'/' ≡ missing
unfolding last_index_of_char
last_index_of_char_run = refl

index_of_run : index_of (codes "a/b/c") (codes "/") ≡ found 1
unfolding index_of
index_of_run = refl

last_index_of_run : last_index_of (codes "a/b/c") (codes "/") ≡ found 3
unfolding last_index_of
last_index_of_run = refl

parts_run :
    (equals (codes "ab") (codes "ab") ≡ true)
    × (starts_with_char (codes "ab") b'a' ≡ true)
    × (ends_with_char (codes "ab") b'b' ≡ true)
    × (ends_with (codes "abc") (codes "bc") ≡ true)
unfolding equals starts_with_char ends_with_char ends_with
parts_run = (refl, refl, refl, refl)
