-- ===== src/StringRef/Search/First.antt =====
-- What a search for the first match has to give.
use cupcake.Base.{
  ℕ, zero, suc, ◌+◌, ◌≤◌, ◌<◌, ◌≡◌, refl, true, false, [], ◌∷◌, List, arith, Bytes, length, drop,
  get_elem?,
}
use cupcake.StringRef.Search.{Search, found, missing, fault, starts_with}

-- No match below `count` in the text.
abbrev pub NoMatch : Bytes → Bytes → ℕ → Type 0
NoMatch needle rest count = (k : ℕ) → k < count → starts_with (drop k rest) needle ≡ false

-- The result for a text that stands at index `i`: the first match, or none where there is none.
abbrev pub IsFirst : Bytes → Bytes → ℕ → Search → Type 0
IsFirst needle rest i (found j) =
    (d : ℕ) × (j ≡ i + d) × (starts_with (drop d rest) needle ≡ true) × NoMatch needle rest d
IsFirst needle rest i missing = (k : ℕ) → starts_with (drop k rest) needle ≡ false
IsFirst needle rest i fault = ⊥

pub starts_with-get_elem? :
    (rest needle : Bytes) (j : ℕ)
    → starts_with rest needle ≡ true
    → j < length needle
    → get_elem? rest j ≡ get_elem? needle j
unfolding starts_with
starts_with-get_elem? rest [] j h lt = absurd (omega arith)
starts_with-get_elem? [] (n ∷ ns) j h lt = cc
starts_with-get_elem? (r ∷ rs) (n ∷ ns) zero h lt = ground arith
starts_with-get_elem? (r ∷ rs) (n ∷ ns) (suc j) h lt = ground (arith, starts_with-get_elem? rs ns j)

pub length-le_of_starts_with :
    (rest needle : Bytes) → starts_with rest needle ≡ true → length needle ≤ length rest
unfolding starts_with
length-le_of_starts_with rest [] h = omega arith
length-le_of_starts_with [] (n ∷ ns) h = cc
length-le_of_starts_with (r ∷ rs) (n ∷ ns) h = ground (arith, length-le_of_starts_with rs ns)

pub short-no_match :
    (rest needle : Bytes) → length rest < length needle → starts_with rest needle ≡ false
unfolding starts_with
short-no_match rest [] h = absurd (omega arith)
short-no_match [] (n ∷ ns) h = refl
short-no_match (r ∷ rs) (n ∷ ns) h = ground (arith, short-no_match rs ns)

pub get_elem?-drop {ℓ} :
    {A : Type ℓ} (k j : ℕ) (xs : List A) → get_elem? (drop k xs) j ≡ get_elem? xs (k + j)
get_elem?-drop zero j xs = let e : 0 + j ≡ j = omega arith in rw e refl
get_elem?-drop (suc k) j [] = refl
get_elem?-drop (suc k) j (x ∷ xs) =
    let e : suc k + j ≡ suc (k + j) = omega arith in rw e (get_elem?-drop k j xs)
