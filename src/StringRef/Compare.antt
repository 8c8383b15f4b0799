-- ===== src/StringRef/Compare.antt =====
-- The comparisons and the parts of src/text/StringRef.cpp.
use cupcake.Base.{
  ◌<◌, sym, ◌⊎◌, ==_iff, AllBytes, ℕ, suc, ◌+◌, ◌-◌, ◌%◌, ◌≡◌, ◌↔◌, refl, ap, Bool, true, false,
  ◌&&◌, inl, inr, Bool-cases, [], ◌∷◌, ◌++◌, arith, ltb, leb, ◌==◌, if◌then◌else◌, Bytes, length,
  length-append, bytes_equal, take, drop, take-length-append, get_or,
}

-- The sign of a comparison.
pub data Sign : Type 0 where
  less : Sign
  same : Sign
  greater : Sign

-- `memcmp` of texts of one length; bytes are compared as unsigned.
unfoldable pub memcmp : Bytes → Bytes → Sign
memcmp [] b = same
memcmp (x ∷ a) [] = same
memcmp (x ∷ a) (y ∷ b) =
    let rest = memcmp a b in if ltb x y then less else if ltb y x then greater else rest

abbrev or_else : Sign → Sign → Sign
or_else same s = s
or_else s t = s

unfoldable pub compare_text : Bytes → Bytes → Sign
unfolding memcmp
compare_text a b =
    if length a == length b
    then memcmp a b
    else if ltb (length a) (length b)
    then or_else (memcmp a (take (length a) b)) greater
    else or_else (memcmp (take (length b) a) b) less

unfoldable pub equals : Bytes → Bytes → Bool
unfolding bytes_equal
equals a b = if length a == length b then bytes_equal a b else false

-- `if (a >= 'a' && a <= 'z') a -= 'a' - 'A'`
abbrev pub fold_case : ℕ → ℕ
fold_case c = if leb b'a' c && leb c b'z' then c - 32 else c

folded_equal : Bytes → Bytes → Bool
folded_equal [] [] = true
folded_equal (x ∷ a) (y ∷ b) = fold_case x == fold_case y && folded_equal a b
folded_equal _ _ = false

unfoldable pub eng_equals_ignore_case : Bytes → Bytes → Bool
unfolding folded_equal
eng_equals_ignore_case a b = if length a == length b then folded_equal a b else false

-- The test `a >= 'a' || a <= 'z'` holds of every `char`, so the subtraction is always made, on a
-- signed byte. Two signed bytes are in the order of these numbers.
abbrev lowered : ℕ → ℕ
lowered c = ((c + 256 - 32) % 256 + 128) % 256

unfoldable pub eng_compare_ignore_case : Bytes → Bytes → Sign
eng_compare_ignore_case [] [] = same
eng_compare_ignore_case [] (y ∷ b) = less
eng_compare_ignore_case (x ∷ a) [] = greater
eng_compare_ignore_case (x ∷ a) (y ∷ b) =
    let rest = eng_compare_ignore_case a b in
    if lowered x == lowered y then rest else if ltb (lowered x) (lowered y) then less else greater

unfoldable pub starts_with_char : Bytes → ℕ → Bool
starts_with_char [] c = false
starts_with_char (x ∷ xs) c = x == c

unfoldable pub ends_with_char : Bytes → ℕ → Bool
ends_with_char text c = ltb 0 (length text) && get_or text (length text - 1) 0 == c

unfoldable pub ends_with : Bytes → Bytes → Bool
unfolding bytes_equal
ends_with text tail =
    if ltb (length text) (length tail)
    then false
    else bytes_equal (drop (length text - length tail) text) tail

-- `substring(startIndex, endIndex)`, for indices in order within the text.
abbrev pub substring : Bytes → ℕ → ℕ → Bytes
substring text start end_index = take (end_index - start) (drop start text)

-- A letter of the English alphabet as a lower and an upper case letter, by its place in the alphabet.
abbrev pub AreCases : ℕ → ℕ → Type 0
AreCases lower upper = (k : ℕ) × (k < 26) × (lower ≡ b'a' + k) × (upper ≡ b'A' + k)

-- The same byte, or the two cases of one letter.
abbrev pub SameLetter : ℕ → ℕ → Type 0
SameLetter x y = (x ≡ y) ⊎ (AreCases x y ⊎ AreCases y x)

-- Texts of one length, the same letter by letter.
abbrev pub SameLetters : Bytes → Bytes → Type 0
SameLetters [] [] = Unit {0}
SameLetters [] (y ∷ b) = ⊥
SameLetters (x ∷ a) [] = ⊥
SameLetters (x ∷ a) (y ∷ b) = SameLetter x y × SameLetters a b

fold_case-SameLetter : (x y : ℕ) → ((fold_case x == fold_case y) ≡ true) → SameLetter x y
fold_case-SameLetter x y h = elim (Bool-cases (x == y)) [
  | inl equal ↦ inl ((==_iff x y).0 equal)
  | inr other ↦ elim (Bool-cases (leb b'a' x && leb x b'z')) [
    | inl lower ↦ inr (inl (x - b'a', ground arith, ground arith, ground arith))
    | inr upper ↦ inr (inr (y - b'a', ground arith, ground arith, ground arith))
  ]
]

AreCases-fold_case : (x y : ℕ) → AreCases x y → fold_case x ≡ fold_case y
AreCases-fold_case x y (k, small, e, e') = ground arith

SameLetter-fold_case : (x y : ℕ) → SameLetter x y → (fold_case x == fold_case y) ≡ true
SameLetter-fold_case x y (inl equal) = (==_iff _ _).1 (ap fold_case equal)
SameLetter-fold_case x y (inr (inl cases)) = (==_iff _ _).1 (AreCases-fold_case x y cases)
SameLetter-fold_case x y (inr (inr cases)) = (==_iff _ _).1 (sym (AreCases-fold_case y x cases))

both_true : (a b : Bool) → (a && b) ≡ true → (a ≡ true) × (b ≡ true)
both_true true b h = (refl, h)
both_true false b h = cc

folded_equal-SameLetters : (a b : Bytes) → (folded_equal a b ≡ true) ↔ SameLetters a b
unfolding folded_equal
folded_equal-SameLetters [] [] = ((λ h. tt), (λ h. refl))
folded_equal-SameLetters [] (y ∷ b) = ((λ h. cc), (λ h. absurd h))
folded_equal-SameLetters (x ∷ a) [] = ((λ h. cc), (λ h. absurd h))
folded_equal-SameLetters (x ∷ a) (y ∷ b) =
    let (forth, back) = folded_equal-SameLetters a b in
    (
      λ h.
          let (here, rest) = both_true (fold_case x == fold_case y) (folded_equal a b) h in
          (fold_case-SameLetter x y here, forth rest),
      λ h. rw (SameLetter-fold_case x y h.0) (back h.1),
    )

SameLetters-length : (a b : Bytes) → SameLetters a b → length a ≡ length b
SameLetters-length [] [] h = refl
SameLetters-length [] (y ∷ b) h = absurd h
SameLetters-length (x ∷ a) [] h = absurd h
SameLetters-length (x ∷ a) (y ∷ b) h = ap suc (SameLetters-length a b h.1)

-- `engEqualsIgnoreCase` is true exactly of texts of one length in which every two bytes at one place are
-- the same, or the lower and the upper case of one of the 26 letters of the English alphabet.
pub eng_equals_ignore_case_iff :
    (a b : Bytes) → (eng_equals_ignore_case a b ≡ true) ↔ SameLetters a b
unfolding eng_equals_ignore_case
eng_equals_ignore_case_iff a b = elim (Bool-cases (length a == length b)) [
  | inl one_length ↦ rw one_length (folded_equal-SameLetters a b)
  | inr other ↦ rw other ((λ h. cc), (λ h. absurd (ground (arith, SameLetters-length a b h))))
]

memcmp_self : (a : Bytes) → memcmp a a ≡ same
unfolding memcmp
memcmp_self [] = refl
memcmp_self (x ∷ a) = ground (arith, memcmp_self a)

-- A text that goes on behind another comes before it in the order of `compare`.
pub compare_text-append :
    (a : Bytes) (c : ℕ) (cs : Bytes)
    → (compare_text (a ++ c ∷ cs) a ≡ less) × (compare_text a (a ++ c ∷ cs) ≡ greater)
unfolding compare_text
compare_text-append a c cs =
    let len = length-append a (c ∷ cs) in
    let front = take-length-append a (c ∷ cs) in
    let e1 : (length (a ++ c ∷ cs) == length a) ≡ false = ground (arith, len) in
    let e2 : (length a == length (a ++ c ∷ cs)) ≡ false = ground (arith, len) in
    let e3 : ltb (length (a ++ c ∷ cs)) (length a) ≡ false = ground (arith, len) in
    let e4 : ltb (length a) (length (a ++ c ∷ cs)) ≡ true = ground (arith, len) in
    (rw (e1, e3, front, memcmp_self a) refl, rw (e2, e4, front, memcmp_self a) refl)

-- `engCompareIgnoreCase` gives 0 exactly for texts that are the same byte by byte: it ignores no case.
pub eng_compare_ignore_case_iff :
    (a b : Bytes) → AllBytes a → AllBytes b → (eng_compare_ignore_case a b ≡ same) ↔ (a ≡ b)
unfolding eng_compare_ignore_case
eng_compare_ignore_case_iff [] [] h k = ground arith
eng_compare_ignore_case_iff [] (y ∷ b) h k = ground arith
eng_compare_ignore_case_iff (x ∷ a) [] h k = ground arith
eng_compare_ignore_case_iff (x ∷ a) (y ∷ b) h k =
    ground (arith, eng_compare_ignore_case_iff a b h.1 k.1, h.0, k.0)
