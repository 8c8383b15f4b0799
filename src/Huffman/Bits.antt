-- ===== src/Huffman/Bits.antt =====
-- Texts as lists of bits, the highest bit of a byte first.
use native.Mathlib.Nat.{div-div-eq-div-mul, mul_assoc, mod-lt, one-le-pow}
use native.Mathlib.Omega.{pow_step}
use mathlib.Core.List.{append_assoc, append-nil}
use cupcake.Base.{
  ℕ, zero, suc, ◌+◌, ◌*◌, ◌/◌, ◌%◌, ◌^◌, ◌<◌, ◌≡◌, refl, sym, ap, ◌∙◌, [], ◌∷◌, ◌++◌, arith, Bytes,
}

-- The `n` low bits of a number.
unfoldable pub bits : ℕ → ℕ → Bytes
bits zero v = []
bits (suc n) v = bits n (v / 2) ++ v % 2 ∷ []

-- The bits of a text.
unfoldable pub byte_bits : Bytes → Bytes
byte_bits [] = []
byte_bits (b ∷ bs) = bits 8 b ++ byte_bits bs

pub byte_bits-append : (xs ys : Bytes) → byte_bits (xs ++ ys) ≡ byte_bits xs ++ byte_bits ys
unfolding byte_bits
byte_bits-append [] ys = refl
byte_bits-append (x ∷ xs) ys =
    ap (◌++◌ (bits 8 x)) (byte_bits-append xs ys)
    ∙ sym (append_assoc (bits 8 x) (byte_bits xs) (byte_bits ys))

div_pow_suc : (v n : ℕ) → v / 2 ^ suc n ≡ v / 2 / 2 ^ n
div_pow_suc v n = ap (◌/◌ v) (pow_step 2 n) ∙ sym (div-div-eq-div-mul v 2 (2 ^ n))

pub bits-split : (a n v : ℕ) → bits (a + n) v ≡ bits a (v / 2 ^ n) ++ bits n v
unfolding bits
bits-split a zero v =
    let e : v / 2 ^ 0 ≡ v = omega arith in
    let e' : a + 0 ≡ a = omega arith in rw (e, e') (sym (append-nil (bits a v)))
bits-split a (suc n) v =
    let e : a + suc n ≡ suc (a + n) = omega arith in
    rw e (
      ap (λ s. s ++ v % 2 ∷ [])
        (bits-split a n (v / 2) ∙ ap (λ x. bits a x ++ bits n (v / 2)) (sym (div_pow_suc v n)))
      ∙ append_assoc (bits a (v / 2 ^ suc n)) (bits n (v / 2)) (v % 2 ∷ []))

pub bits-above : (n v q : ℕ) → bits n (v + 2 ^ n * q) ≡ bits n v
unfolding bits
bits-above zero v q = refl
bits-above (suc n) v q =
    let e : 2 ^ suc n * q ≡ 2 * (2 ^ n * q) =
      ap (λ x. x * q) (pow_step 2 n) ∙ mul_assoc 2 (2 ^ n) q in
    let half : (v + 2 ^ suc n * q) / 2 ≡ v / 2 + 2 ^ n * q = omega (arith, e) in
    let low : (v + 2 ^ suc n * q) % 2 ≡ v % 2 = omega (arith, e) in
    rw (half, low) (ap (λ s. s ++ v % 2 ∷ []) (bits-above n (v / 2) q))

pub div_pow_lt : (r k v : ℕ) → v < 2 ^ (r + k) → v / 2 ^ k < 2 ^ r
div_pow_lt r zero v h = let e' : r + 0 ≡ r = omega arith in let h' = rw e' at h in omega (arith, h')
div_pow_lt r (suc k) v h =
    let e : r + suc k ≡ suc (r + k) = omega arith in
    let h' = rw e at h in
    rw (div_pow_suc v k) (div_pow_lt r k (v / 2) (omega (arith, h', pow_step 2 (r + k))))

pub mod_pow_lt : (v n : ℕ) → v % 2 ^ n < 2 ^ n
mod_pow_lt v n = mod-lt v (one-le-pow n 2 (omega arith))
