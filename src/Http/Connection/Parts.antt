-- ===== src/Http/Connection/Parts.antt =====
-- Searches in texts of parts, and the parts taken out again.
use cupcake.Base.{
  ℕ, suc, ◌+◌, ◌-◌, ◌≡◌, ◌∙◌, refl, ap, true, false, [], ◌∷◌, ◌++◌, arith, ltb, ◌==◌, Bytes, Lacks,
  length, take, drop, get_or, length-append, take-length-append, take_all,
}
use cupcake.Http.BufferedReader.Line.View.{get_or-behind}
use cupcake.StringRef.Compare.{substring, ends_with_char}
use cupcake.StringRef.Search.{found, find_char, index_of_char, index_of_char_from}

find_char-append :
    (c : ℕ) (l rest : Bytes) (i : ℕ)
    → Lacks c l
    → find_char c (l ++ c ∷ rest) i ≡ found (i + length l)
unfolding find_char
find_char-append c [] rest i h = ground arith
find_char-append c (x ∷ l) rest i h = ground (arith, find_char-append c l rest (i + 1) h.1, h.0)

pub index_of_char-append :
    (c : ℕ) (l rest : Bytes) → Lacks c l → index_of_char (l ++ c ∷ rest) c ≡ found (length l)
unfolding index_of_char index_of_char_from
index_of_char-append c l rest h =
    let inside : ltb (length (l ++ c ∷ rest)) 0 ≡ false = ground arith in
    rw inside (find_char-append c l rest 0 h ∙ ap found (omega arith))

pub drop_behind : (l rest : Bytes) (c : ℕ) → drop (length l + 1) (l ++ c ∷ rest) ≡ rest
drop_behind [] rest c = refl
drop_behind (x ∷ l) rest c =
    let e : suc (length l) + 1 ≡ suc (length l + 1) = omega arith in rw e (drop_behind l rest c)

pub index_of_char_from-append :
    (c d : ℕ) (front l rest : Bytes)
    → Lacks c l
    → index_of_char_from (front ++ d ∷ (l ++ c ∷ rest)) c (length front + 1)
      ≡ found (length front + 1 + length l)
unfolding index_of_char_from
index_of_char_from-append c d front l rest h =
    let inside : ltb (length (front ++ d ∷ (l ++ c ∷ rest))) (length front + 1) ≡ false =
      ground (arith, length-append front (d ∷ (l ++ c ∷ rest))) in
    let area = drop_behind front (l ++ c ∷ rest) d in
    rw inside (rw area (find_char-append c l rest (length front + 1) h))

pub substring_front : (l rest : Bytes) → substring (l ++ rest) 0 (length l) ≡ l
substring_front l rest =
    let e : length l - 0 ≡ length l = omega arith in rw e (take-length-append l rest)

pub substring_back :
    (l rest : Bytes) (c : ℕ)
    → substring (l ++ c ∷ rest) (length l + 1) (length (l ++ c ∷ rest)) ≡ rest
substring_back l rest c =
    let e : length (l ++ c ∷ rest) - (length l + 1) ≡ length rest =
      omega (arith, length-append l (c ∷ rest)) in
    rw e
      (ap (take (length rest)) (drop_behind l rest c) ∙ take_all (length rest) rest (omega arith))

pub ends_with_char-snoc : (xs : Bytes) (x c : ℕ) → ends_with_char (xs ++ x ∷ []) c ≡ (x == c)
unfolding ends_with_char
ends_with_char-snoc xs x c =
    let size = length-append xs (x ∷ []) in
    let some_byte : ltb 0 (length (xs ++ x ∷ [])) ≡ true = ground (arith, size) in
    let place : length (xs ++ x ∷ []) - 1 ≡ length xs + 0 = omega (arith, size) in
    rw some_byte (
      ap (λ k. get_or (xs ++ x ∷ []) k 0 == c) place
      ∙ ap (λ b. b == c) (get_or-behind xs (x ∷ []) 0))

pub butlast : (xs : Bytes) (x : ℕ) → substring (xs ++ x ∷ []) 0 (length (xs ++ x ∷ []) - 1) ≡ xs
butlast xs x =
    let e : length (xs ++ x ∷ []) - 1 ≡ length xs = omega (arith, length-append xs (x ∷ [])) in
    rw e (substring_front xs (x ∷ []))

pub snoc : (x : ℕ) (xs : Bytes) → (front : Bytes) × (y : ℕ) × (x ∷ xs ≡ front ++ y ∷ [])
snoc x [] = ([], x, refl)
snoc x (y ∷ ys) = let (front, z, e) = snoc y ys in (x ∷ front, z, ap (◌∷◌ x) e)
