-- ===== src/Strconv/Print/Fill.antt =====
-- The two loops of the printers for any radix.
use mathlib.Core.List.{append_assoc, reverse-cons, map-append}
use native.Mathlib.Nat.{pow-suc, mod-eq_of_lt, div-eq_of_lt}
use cupcake.Base.{
  ℕ, zero, suc, ◌/◌, ◌%◌, ◌^◌, ◌≤◌, ◌<◌, ◌≡◌, refl, sym, ap, inl, inr, [], ◌∷◌, ◌++◌, some, reverse,
  map, arith, ltb, Bool-cases, Bytes, length, drop, length-append, Option-cases, length-map,
  length-reverse,
}
use cupcake.Strconv.Buffer.{store-length-append}
use cupcake.Strconv.Digit.{value_as_char}
use cupcake.Strconv.Text.{text, text_small, text_step}
use cupcake.Strconv.Print.{collect, fill}

-- Zero has no digits here.
abbrev pub digits_text : ℕ → ℕ → Bytes
digits_text radix zero = []
digits_text radix (suc n) = text radix (suc n)

div-lt_pow : (v room radix : ℕ) → 2 ≤ radix → v < 2 ^ suc room → v / radix < 2 ^ room
div-lt_pow v room radix two h = grind (arith, pow-suc 2 room)

module _ (radix : ℕ) (two : 2 ≤ radix) where
  digits_text_pos : (v : ℕ) → 0 < v → digits_text radix v ≡ text radix v
  digits_text_pos zero h = elim h [ ]
  digits_text_pos (suc n) h = refl

  div_pos : (v : ℕ) → radix ≤ v → 0 < v / radix
  div_pos v h = grind arith

  digits_text_step :
      (n : ℕ)
      → digits_text radix (suc n / radix) ++ value_as_char (suc n % radix) ∷ [] ≡ text radix (suc n)
  digits_text_step n = elim (Bool-cases (ltb (suc n) radix)) [
    | inl small ↦ rw (div-eq_of_lt {n = suc n} {m = radix} (ground arith)) (
        rw (mod-eq_of_lt {n = suc n} {m = radix} (ground arith))
          (sym (text_small radix two (suc n) (ground arith))))
    | inr large ↦
        rw (digits_text_pos (suc n / radix) (div_pos (suc n) (ground arith)))
          (sym (text_step radix two (suc n) (ground arith)))
  ]

  pub collect_text :
      (room v : ℕ)
      → v < 2 ^ room
      → (vs : Bytes) × (collect room radix v ≡ some vs)
        × (map value_as_char (reverse vs) ≡ digits_text radix v)
  unfolding collect
  collect_text zero zero h = ([], refl, refl)
  collect_text (suc room) zero h = ([], refl, refl)
  collect_text zero (suc n) h = absurd (omega arith)
  collect_text (suc room) (suc n) h =
      let (vs, e, t) = collect_text room (suc n / radix) (div-lt_pow (suc n) room radix two h) in
      (
        (suc n % radix) ∷ vs,
        rw e,
        rw (reverse-cons (suc n % radix) vs, map-append) (rw t (digits_text_step n)),
      )

pub fill-append :
    (ds pre rest : Bytes)
    → length ds ≤ length rest
    → fill ds (length pre) (pre ++ rest)
      ≡ some (pre ++ (map value_as_char ds ++ drop (length ds) rest))
unfolding fill
fill-append [] pre rest h = refl
fill-append (d ∷ ds) pre [] h = absurd (omega arith)
fill-append (d ∷ ds) pre (y ∷ rest) h =
    let c = value_as_char d in
    ground (
      arith,
      store-length-append pre rest y c,
      length-append pre (c ∷ []),
      append_assoc pre (c ∷ []) rest,
      append_assoc pre (c ∷ []) (map value_as_char ds ++ drop (length ds) rest),
      fill-append ds (pre ++ c ∷ []) rest,
    )

length-collect : (room radix v : ℕ) {vs : Bytes} → collect room radix v ≡ some vs → length vs ≤ room
unfolding collect
length-collect room radix zero e = ground arith
length-collect zero radix (suc n) e = cc
length-collect (suc room) radix (suc n) e =
    elim (Option-cases (collect room radix (suc n / radix))) [
      | inl failed ↦ ground arith
      | inr (vs, found) ↦ ground (arith, length-collect room radix (suc n / radix) found)
    ]

pub length-digits_text :
    (radix room v : ℕ) → 2 ≤ radix → v < 2 ^ room → length (digits_text radix v) ≤ room
length-digits_text radix room v two h =
    let (vs, e, t) = collect_text radix two room v h in
    omega (
      arith,
      length-collect room radix v e,
      ap length t,
      length-map value_as_char (reverse vs),
      length-reverse vs,
    )

pub length-text :
    (radix room v : ℕ) → 2 ≤ radix → v < 2 ^ room → 0 < v → length (text radix v) ≤ room
length-text radix room zero two h pos = elim pos [ ]
length-text radix room (suc n) two h pos = length-digits_text radix room (suc n) two h
