-- ===== src/Strconv/Text.antt =====
-- The text of a number in a radix, most significant digit first: what the printers are compared
-- with. `numeral` reads it back.
use native.Mathlib.Nat.{mod-eq_of_lt, mod-lt, div-add-mod'}
use cupcake.Base.{
  ℕ, zero, suc, ◌+◌, ◌*◌, ◌/◌, ◌%◌, ◌≤◌, ◌<◌, ◌≡◌, refl, inl, inr, [], ◌∷◌, ◌++◌, some, arith, ltb,
  if◌then◌else◌, Option-cases, ◌>>=◌, Bytes,
}
use cupcake.Base.Int.{ℤ, pos, negsuc}
use cupcake.Strconv.Digit.{digit_value, value_as_char, digit_value-value_as_char}
use cupcake.Strconv.Numeral.{numeral, zero-mul-add}

-- The fuel is above the number.
unfoldable pub text_from : ℕ → ℕ → ℕ → Bytes
text_from zero radix v = []
text_from (suc f) radix v =
    let high = text_from f radix (v / radix) in
    (if ltb v radix then [] else high) ++ value_as_char (v % radix) ∷ []

unfoldable pub text : ℕ → ℕ → Bytes
unfolding text_from
text radix v = text_from (suc v) radix v

-- The text of an integer.
abbrev pub signed_text : ℕ → ℤ → Bytes
signed_text radix (pos n) = text radix n
signed_text radix (negsuc n) = b'-' ∷ text radix (suc n)

-- `lo` is `INT32_MIN` or `INT64_MIN` negated.
abbrev pub InRange : ℕ → ℤ → Type 0
InRange lo (pos n) = n < lo
InRange lo (negsuc n) = n < lo

pub numeral-append :
    (radix acc : ℕ) (xs ys : Bytes)
    → numeral radix acc (xs ++ ys) ≡ (numeral radix acc xs >>= λ a. numeral radix a ys)
numeral-append radix acc [] ys = refl
numeral-append radix acc (x ∷ xs) ys = elim (Option-cases (digit_value radix x)) [
  | inl n ↦ ground arith
  | inr (d, n) ↦ ground (arith, numeral-append radix (acc * radix + d) xs ys)
]

module _ (radix : ℕ) (two : 2 ≤ radix) where
  div-lt : (v f : ℕ) → v < suc f → radix ≤ v → v / radix < f
  div-lt v f h k = grind arith

  text_from_fuel : (f g v : ℕ) → v < f → v < g → text_from f radix v ≡ text_from g radix v
  unfolding text_from
  text_from_fuel zero g v h k = absurd (omega arith)
  text_from_fuel (suc f) zero v h k = absurd (omega arith)
  text_from_fuel (suc f) (suc g) v h k =
      ground (arith, div-lt v f h, div-lt v g k, text_from_fuel f g (v / radix))

  pub text_small : (v : ℕ) → v < radix → text radix v ≡ value_as_char v ∷ []
  unfolding text text_from
  text_small v h = ground (arith, mod-eq_of_lt h)

  pub text_step :
      (v : ℕ) → radix ≤ v → text radix v ≡ text radix (v / radix) ++ value_as_char (v % radix) ∷ []
  unfolding text
  text_step v h =
      unfold text_from in ground (arith, div-lt v v, text_from_fuel v (suc (v / radix)) (v / radix))

module _ (radix : ℕ) (two : 2 ≤ radix) (sixteen : radix ≤ 16) where
  numeral-text_from : (f v : ℕ) → v < f → numeral radix 0 (text_from f radix v) ≡ some v
  unfolding text_from
  numeral-text_from zero v h = elim h [ ]
  numeral-text_from (suc f) v h =
      let last : v % radix < radix = mod-lt v (omega arith) in
      ground (
        arith,
        div-lt radix two v f h,
        div-add-mod' v radix,
        mod-eq_of_lt {n = v} {m = radix},
        zero-mul-add radix v,
        numeral-text_from f (v / radix),
        digit_value-value_as_char radix (v % radix) last,
        numeral-append radix 0 (text_from f radix (v / radix)) (value_as_char (v % radix) ∷ []),
      )

  -- What is printed reads back as the number.
  pub numeral-text : (v : ℕ) → numeral radix 0 (text radix v) ≡ some v
  unfolding text
  numeral-text v = numeral-text_from (suc v) v (omega arith)
