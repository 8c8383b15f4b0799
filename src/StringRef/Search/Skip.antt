-- ===== src/StringRef/Search/Skip.antt =====
-- The table of skips: how far the search may move on by the byte under the end of `needle`.
use cupcake.Base.{
  ℕ, zero, suc, ◌+◌, ◌-◌, ◌≤◌, ◌<◌, ◌≡◌, refl, true, [], ◌∷◌, some, arith, ltb, ◌==◌, if◌then◌else◌,
  Bytes, length, get_elem?,
}
use cupcake.StringRef.Search.{bad_char_skip}

-- Bytes that are not negative as a signed `char`.
abbrev pub AllAscii : Bytes → Type 0
AllAscii [] = Unit {0}
AllAscii (c ∷ cs) = (c < 128) × AllAscii cs

-- The finished table is no larger than the one it was made from, has no 0, and at the byte of every
-- index but the last it skips no further than from that index to the last.
abbrev pub IsSkip : ℕ → ℕ → Bytes → (ℕ → ℕ) → (ℕ → ℕ) → Type 0
IsSkip end_index i cs skip made =
    (x : ℕ)
    → (made x ≤ skip x)
      × (0 < made x)
      × ((k : ℕ) → suc k < length cs → get_elem? cs k ≡ some x → made x ≤ end_index - (i + k))

abbrev set_skip : ℕ → ℕ → ℕ → (ℕ → ℕ) → ℕ → ℕ
set_skip end_index i c skip x = if x == c then end_index - i else skip x

IsSkip-step :
    (end_index i c d : ℕ) (rest : Bytes) (skip made : ℕ → ℕ)
    → ((x : ℕ) → end_index - i < skip x)
    → IsSkip end_index (i + 1) (d ∷ rest) (set_skip end_index i c skip) made
    → IsSkip end_index i (c ∷ d ∷ rest) skip made
IsSkip-step end_index i c d rest skip made above h x = (
  ground (arith, above x, (h x).0),
  (h x).1,
  λ k.
      elim k
        as (λ k.
          suc k < length (c ∷ d ∷ rest)
          → get_elem? (c ∷ d ∷ rest) k ≡ some x
          → made x ≤ end_index - (i + k)) [
            | zero ↦ λ lt e. ground (arith, (h x).0)
            | suc k ↦ λ lt e. omega (arith, (h x).2 k (omega (arith, lt)) e)
          ],
)

pub bad_char_skip-IsSkip :
    (end_index i : ℕ) (cs : Bytes) (skip : ℕ → ℕ)
    → AllAscii cs
    → end_index + 1 ≡ i + length cs
    → ((x : ℕ) → end_index - i < skip x)
    → (made : ℕ → ℕ) × (bad_char_skip end_index i cs skip ≡ some made)
      × IsSkip end_index i cs skip made
unfolding bad_char_skip
bad_char_skip-IsSkip end_index i [] skip h len above =
    (skip, refl, λ x. (omega arith, omega (arith, above x), λ k lt. absurd (omega (arith, lt))))
bad_char_skip-IsSkip end_index i (c ∷ []) skip h len above =
    (skip, refl, λ x. (omega arith, omega (arith, above x), λ k lt. absurd (omega (arith, lt))))
bad_char_skip-IsSkip end_index i (c ∷ d ∷ rest) skip h len above =
    let (made, e, good) =
      bad_char_skip-IsSkip end_index (i + 1) (d ∷ rest) (set_skip end_index i c skip) h.1
        (omega (arith, len)) (λ x. ground (arith, above x, len)) in
    let ascii : ltb c 128 ≡ true = ground (arith, h.0) in
    (made, rw ascii e, IsSkip-step end_index i c d rest skip made above good)
