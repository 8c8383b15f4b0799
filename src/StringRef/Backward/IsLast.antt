-- ===== src/StringRef/Backward/IsLast.antt =====
-- `lastIndexOf` in a short area gives the last match.
use cupcake.Base.{
  ℕ, zero, suc, ◌-◌, ◌≤◌, ◌<◌, ◌≡◌, true, false, inl, inr, Bool-cases, arith, ltb, ◌==◌, Bytes,
  length, drop,
}
use cupcake.StringRef.Backward.{brute_force_back, last_index_of_from}
use cupcake.StringRef.Search.{Search, found, missing, fault, starts_with}

-- The last match at an index up to `last`, or none where there is none.
abbrev pub IsLast : Bytes → Bytes → ℕ → Search → Type 0
IsLast needle text last (found j) =
    (j ≤ last)
    × (starts_with (drop j text) needle ≡ true)
    × ((k : ℕ) → j < k → k ≤ last → starts_with (drop k text) needle ≡ false)
IsLast needle text last missing = (k : ℕ) → k ≤ last → starts_with (drop k text) needle ≡ false
IsLast needle text last fault = ⊥

later-IsLast :
    (needle text : Bytes) (i : ℕ) (r : Search)
    → starts_with (drop (suc i) text) needle ≡ false
    → IsLast needle text i r
    → IsLast needle text (suc i) r
later-IsLast needle text i (found j) miss (le, here, above) = (
  omega (arith, le),
  here,
  λ k lo hi. elim (Bool-cases (k == suc i)) [
    | inl last ↦ let e : k ≡ suc i = ground arith in rw e miss
    | inr lower ↦ above k lo (ground arith)
  ],
)
later-IsLast needle text i missing miss none_lower = λ k hi. elim (Bool-cases (k == suc i)) [
  | inl last ↦ let e : k ≡ suc i = ground arith in rw e miss
  | inr lower ↦ none_lower k (ground arith)
]
later-IsLast needle text i fault miss h = h

brute_force_back-IsLast :
    (needle text : Bytes) (i : ℕ) → IsLast needle text i (brute_force_back needle text i)
unfolding brute_force_back
brute_force_back-IsLast needle text zero = elim (Bool-cases (starts_with text needle)) [
  | inl here ↦ rw here (omega arith, here, λ k lo hi. absurd (omega (arith, lo, hi)))
  | inr miss ↦ rw miss (λ k hi. let e : k ≡ 0 = omega (arith, hi) in rw e miss)
]
brute_force_back-IsLast needle text (suc i) =
    elim (Bool-cases (starts_with (drop (suc i) text) needle)) [
      | inl here ↦ rw here (omega arith, here, λ k lo hi. absurd (omega (arith, lo, hi)))
      | inr miss ↦
          rw miss (later-IsLast needle text i _ miss (brute_force_back-IsLast needle text i))
    ]

-- For every text, end within it and needle that is not empty and fits before the end at an index
-- below 256: `lastIndexOf` gives the last index at which the needle stands before the end, and -1
-- exactly if there is none.
pub last_index_of_from-IsLast :
    (text needle : Bytes) (end_index : ℕ)
    → end_index ≤ length text
    → 0 < length needle
    → length needle ≤ end_index
    → end_index - length needle < 256
    → IsLast needle text (end_index - length needle) (last_index_of_from text needle end_index)
unfolding last_index_of_from
last_index_of_from-IsLast text needle end_index within pos fits small =
    let e1 : ltb (length text) end_index ≡ false = ground arith in
    let e2 : (length needle == 0) ≡ false = ground arith in
    let e3 : ltb end_index (length needle) ≡ false = ground arith in
    let e4 : ltb (end_index - length needle) 256 ≡ true = ground arith in
    rw e1 (rw e2 (rw e3 (rw e4 (brute_force_back-IsLast needle text (end_index - length needle)))))
