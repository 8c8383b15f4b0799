-- ===== src/Strconv/Numeral.antt =====
-- The number that a text denotes in a radix, with no bound: what the parsers are compared with.
use cupcake.Base.{
  ℕ, ◌+◌, ◌*◌, ◌/◌, ◌≤◌, ◌<◌, ◌≡◌, Bool, ◌&&◌, inl, inr, [], ◌∷◌, Option, none, some, arith, leb,
  if◌then◌else◌, Option-cases, Bytes,
}
use native.Mathlib.Nat.{le_trans}
use cupcake.Strconv.Digit.{digit_value}

-- The digits of the text behind those already read into `acc`; `none` at a byte that is no digit.
abbrev pub numeral : ℕ → ℕ → Bytes → Option ℕ
numeral radix acc [] = some acc
numeral radix acc (c ∷ cs) = elim (digit_value radix c) [
  | none ↦ none
  | some d ↦ numeral radix (acc * radix + d) cs
]

abbrev pub at_most : ℕ → Option ℕ → Option ℕ
at_most max none = none
at_most max (some v) = if leb v max then some v else none

-- The radices that every parser takes.
abbrev pub is_radix : ℕ → Bool
is_radix radix = leb 2 radix && leb radix 16

-- A text that is not empty, in a radix that is taken, and its number if it is at most `max`.
abbrev pub bounded_numeral : ℕ → ℕ → Bytes → Option ℕ
bounded_numeral max radix [] = none
bounded_numeral max radix (c ∷ cs) =
    if is_radix radix then at_most max (numeral radix 0 (c ∷ cs)) else none

pub numeral-ge :
    (radix acc : ℕ) (s : Bytes) {v : ℕ} → 1 ≤ radix → numeral radix acc s ≡ some v → acc ≤ v
numeral-ge radix acc [] h e = ground arith
numeral-ge radix acc (c ∷ cs) {v} h e = elim (Option-cases (digit_value radix c)) [
  | inl n ↦ ground arith
  | inr (d, n) ↦
      le_trans (le-mul-add acc radix d h) (numeral-ge radix (acc * radix + d) cs h (ground arith))
]
  where
    le-mul-add : (a r d : ℕ) → 1 ≤ r → a ≤ a * r + d
    le-mul-add a r d k = grind arith

-- Past the bound no further digit brings the number back.
pub at_most-numeral :
    (max radix acc : ℕ) (s : Bytes)
    → 1 ≤ radix
    → max < acc
    → at_most max (numeral radix acc s) ≡ none
at_most-numeral max radix acc s h over = elim (Option-cases (numeral radix acc s)) [
  | inl n ↦ rw n
  | inr (v, n) ↦ rw n (ground (arith, numeral-ge radix acc s h n))
]

pub mul-le_of_le-div : (max radix n : ℕ) → n ≤ max / radix → n * radix ≤ max
mul-le_of_le-div max radix n h = grind arith

pub lt-mul_of_div-lt : (max radix n : ℕ) → 1 ≤ radix → max / radix < n → max < n * radix
lt-mul_of_div-lt max radix n h k = grind arith

pub zero-mul-add : (radix d : ℕ) → 0 * radix + d ≡ d
zero-mul-add radix d = omega arith
