-- ===== src/StringRef/Search/Naive.antt =====
-- The search by brute force finds the first match.
use cupcake.Base.{
  ℕ, zero, suc, ◌+◌, ◌<◌, ◌≡◌, false, inl, inr, Bool-cases, [], ◌∷◌, arith, leb, Bytes, length,
  drop, length-drop,
}
use cupcake.StringRef.Search.{Search, found, missing, fault, starts_with, brute_force}
use cupcake.StringRef.Search.First.{IsFirst, short-no_match}

-- A miss at the first index leaves what is found behind it.
later-IsFirst :
    (needle rest : Bytes) (c i : ℕ) (r : Search)
    → starts_with (c ∷ rest) needle ≡ false
    → IsFirst needle rest (i + 1) r
    → IsFirst needle (c ∷ rest) i r
later-IsFirst needle rest c i (found j) miss (d, e, here, before) = (
  suc d,
  omega (arith, e),
  here,
  λ k. elim k as (λ k. k < suc d → starts_with (drop k (c ∷ rest)) needle ≡ false) [
    | zero ↦ λ h. miss
    | suc k ↦ λ h. before k (omega (arith, h))
  ],
)
later-IsFirst needle rest c i missing miss none_later = λ k.
    elim k as (λ k. starts_with (drop k (c ∷ rest)) needle ≡ false) [
      | zero ↦ miss
      | suc k ↦ none_later k
    ]
later-IsFirst needle rest c i fault miss h = h

pub brute_force-IsFirst :
    (needle rest : Bytes) (i : ℕ)
    → 0 < length needle
    → IsFirst needle rest i (brute_force needle rest i)
unfolding brute_force
brute_force-IsFirst needle [] i pos =
    λ k. short-no_match (drop k []) needle (omega (arith, length-drop {A = ℕ} k []))
brute_force-IsFirst needle (c ∷ rest) i pos =
    elim (Bool-cases (leb (length needle) (length (c ∷ rest)))) [
      | inl room ↦ rw room elim (Bool-cases (starts_with (c ∷ rest) needle)) [
        | inl here ↦ rw here (0, omega arith, here, λ k h. absurd (omega (arith, h)))
        | inr miss ↦
            rw miss
              (later-IsFirst needle rest c i _ miss (brute_force-IsFirst needle rest (i + 1) pos))
      ]
      | inr short ↦ rw short (λ k.
          short-no_match (drop k (c ∷ rest)) needle (ground (arith, length-drop k (c ∷ rest))))
    ]
