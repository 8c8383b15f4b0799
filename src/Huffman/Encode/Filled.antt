-- ===== src/Huffman/Encode/Filled.antt =====
-- The bytes that `encode` fills, bit by bit.
use Prim.Native.Nat.{bit_or}
use native.Mathlib.Nat.{mod-eq_of_lt, mod-add-div, mul_assoc, mul_comm, add-mul}
use cupcake.Base.{
  ==_iff, bytes_equal_iff, ℕ, zero, suc, ◌+◌, ◌-◌, ◌*◌, ◌/◌, ◌%◌, ◌^◌, ◌≤◌, ◌<◌, ◌≡◌, refl, sym, ap,
  ◌∙◌, ◌⊎◌, inl, inr, Bool, true, false, ◌&&◌, [], ◌∷◌, ◌++◌, ltb, arith, ◌==◌, Bytes, all_below,
  all_below_sound, bytes_equal,
}
use cupcake.Base.Word.{uint32_mod}
use cupcake.Huffman.Bits.{bits, bits-above}

pub both : (a b : Bool) → (a && b) ≡ true → (a ≡ true) × (b ≡ true)
both true b h = (refl, h)
both false b h = cc

below_and : (a b : ℕ) (t : Bool) → (ltb a b && t) ≡ true → (a < b) × (t ≡ true)
below_and a b t h = let (small, rest) = both (ltb a b) t h in (ground (arith, small), rest)

-- Filling the `r` bits left of a byte `high` with the number `m`.
fills : ℕ → ℕ → ℕ → Bool
unfolding bits
fills r m high = bytes_equal (bits 8 (bit_or (high * 2 ^ r) m)) (bits (8 - r) high ++ bits r m)

fills_table : all_below 9 (λ r. all_below (2 ^ r) (λ m. all_below (2 ^ (8 - r)) (fills r m))) ≡ true
unfolding all_below fills bits bytes_equal
fills_table = refl

pub bits-filled :
    (r m high : ℕ)
    → r < 9
    → m < 2 ^ r
    → high < 2 ^ (8 - r)
    → bits 8 (bit_or (high * 2 ^ r) m) ≡ bits (8 - r) high ++ bits r m
unfolding fills
bits-filled r m high hr hm hh = (bytes_equal_iff _ _).0 (
    all_below_sound _ (fills r m) high
      (all_below_sound _ (λ m. all_below (2 ^ (8 - r)) (fills r m)) m
        (all_below_sound 9 (λ r. all_below (2 ^ r) (λ m. all_below (2 ^ (8 - r)) (fills r m))) r
          fills_table hr)
        hm)
      hh)

-- Putting the `n` bits of `u` behind the bits of `high` in a byte, so that `k` bits are left.
fits : ℕ → ℕ → ℕ → ℕ → Bool
unfolding bits
fits k n u high =
    (bit_or (high * 2 ^ (n + k)) (u * 2 ^ k) == (high * 2 ^ n + u) * 2 ^ k && ltb (u * 2 ^ k) 256)
    && (ltb (high * 2 ^ n + u) (2 ^ (8 - k))
        && bytes_equal (bits (8 - k) (high * 2 ^ n + u)) (bits (8 - (n + k)) high ++ bits n u))

abbrev fits_all : ℕ → ℕ → Bool
fits_all k n = all_below (2 ^ n) (λ u. all_below (2 ^ (8 - (n + k))) (fits k n u))

fits_table : all_below 9 (λ k. all_below (9 - k) (fits_all k)) ≡ true
unfolding all_below fits bits bytes_equal
fits_table = refl

-- What putting the `n` low bits of a number into a byte with `r` bits left gives.
pub record Put (r n u high : ℕ) : Type 0 where
  pub or_is_sum : bit_or (high * 2 ^ r) (u * 2 ^ (r - n)) ≡ (high * 2 ^ n + u) * 2 ^ (r - n)
  pub in_byte : u * 2 ^ (r - n) < 256
  pub high_small : high * 2 ^ n + u < 2 ^ (8 - (r - n))
  pub put_behind : bits (8 - (r - n)) (high * 2 ^ n + u) ≡ bits (8 - r) high ++ bits n u

put_table :
    (k n u high : ℕ) → n + k < 9 → u < 2 ^ n → high < 2 ^ (8 - (n + k)) → fits k n u high ≡ true
put_table k n u high hk hu hh =
    let room =
      all_below_sound 9 (λ k. all_below (9 - k) (fits_all k)) k fits_table (omega (arith, hk)) in
    let all = all_below_sound (9 - k) (fits_all k) n room (omega (arith, hk)) in
    all_below_sound _ (fits k n u) high
      (all_below_sound _ (λ u. all_below (2 ^ (8 - (n + k))) (fits k n u)) u all hu) hh

pub bits-Put : (r n u high : ℕ) → n ≤ r → r < 9 → u < 2 ^ n → high < 2 ^ (8 - r) → Put r n u high
unfolding fits
bits-Put r n u high le hr hu hh =
    let e : n + (r - n) ≡ r = omega (arith, le) in
    let good = put_table (r - n) n u high (omega (arith, e, hr)) hu (rw e hh) in
    let (first, second) = both _ _ good in
    let (same, small) = both _ _ first in
    let (high_small, put) = below_and (high * 2 ^ n + u) (2 ^ (8 - (r - n))) _ second in
    let sum : bit_or (high * 2 ^ (n + (r - n))) (u * 2 ^ (r - n))
        ≡ (high * 2 ^ n + u) * 2 ^ (r - n) =
      (==_iff _ _).0 same in
    let behind : bits (8 - (r - n)) (high * 2 ^ n + u) ≡ bits (8 - (n + (r - n))) high ++ bits n u =
      (bytes_equal_iff _ _).0 put in
    record {
      or_is_sum = rw e at sum;
      in_byte = ground (arith, small);
      high_small = high_small;
      put_behind = rw e at behind;
    }

-- The bits of a number depend on its low bits alone.
pub bits-mod : (n v : ℕ) → bits n (v % 2 ^ n) ≡ bits n v
bits-mod n v = sym (bits-above n (v % 2 ^ n) (v / 2 ^ n)) ∙ ap (bits n) (mod-add-div v (2 ^ n))

splits : ℕ → Bool
splits r = 2 ^ r * 2 ^ (8 - r) == 256

splits_table : all_below 9 splits ≡ true
unfolding all_below splits
splits_table = refl

pub bits-byte : (r v : ℕ) → r < 9 → bits r (v % 256) ≡ bits r v
unfolding splits
bits-byte r v h =
    let e = (==_iff _ _).0 (all_below_sound 9 splits r splits_table h) in
    let e' : v % 256 + 2 ^ r * (2 ^ (8 - r) * (v / 256)) ≡ v =
      ap (λ x. v % 256 + x)
        (sym (mul_assoc (2 ^ r) (2 ^ (8 - r)) (v / 256)) ∙ ap (λ x. x * (v / 256)) e)
      ∙ mod-add-div v 256 in
    sym (bits-above r (v % 256) (2 ^ (8 - r) * (v / 256))) ∙ ap (bits r) e'

-- The bits of a number that are shifted into a byte, all others cut off.
pub shifted :
    (r n v : ℕ)
    → n ≤ r
    → r < 9
    → (v < 2 ^ n) ⊎ (r ≡ 8)
    → v % 2 ^ n * 2 ^ (r - n) < 256
    → v * 2 ^ (r - n) % uint32_mod % 256 ≡ v % 2 ^ n * 2 ^ (r - n)
unfolding splits
shifted r n v le hr (inl small) h =
    let e : v % 2 ^ n ≡ v = mod-eq_of_lt small in let h' = rw e at h in rw e (omega (arith, h'))
shifted r n v le hr (inr full) h =
    let e = (==_iff _ _).0 (all_below_sound 9 splits n splits_table (omega (arith, le, hr))) in
    let same : r - n ≡ 8 - n = ap (λ r. r - n) full in
    let high : 2 ^ n * (v / 2 ^ n) * 2 ^ (r - n) ≡ 256 * (v / 2 ^ n) = rw same (
      ap (λ x. x * 2 ^ (8 - n)) (mul_comm (2 ^ n) (v / 2 ^ n))
      ∙ mul_assoc (v / 2 ^ n) (2 ^ n) (2 ^ (8 - n))
      ∙ ap (λ x. v / 2 ^ n * x) e
      ∙ mul_comm (v / 2 ^ n) 256) in
    let parts =
      add-mul (v % 2 ^ n) (2 ^ n * (v / 2 ^ n)) (2 ^ (r - n))
      ∙ ap (λ x. v % 2 ^ n * 2 ^ (r - n) + x) high in
    let whole = ap (λ x. x * 2 ^ (r - n)) (mod-add-div v (2 ^ n)) in omega (arith, h, parts, whole)

-- The bits of the EOS symbol that fill up a byte.
abbrev eos : ℕ → ℕ
eos r = 0x3fffffff / 2 ^ (30 - r) % 256

-- Bits that are all set.
unfoldable pub ones : ℕ → Bytes
ones zero = []
ones (suc n) = 1 ∷ ones n

eos_table : all_below 9 (λ r. ltb (eos r) (2 ^ r) && bytes_equal (bits r (eos r)) (ones r)) ≡ true
unfolding all_below bits ones bytes_equal
eos_table = refl

pub bits-eos : (r : ℕ) → r < 9 → (eos r < 2 ^ r) × (bits r (eos r) ≡ ones r)
bits-eos r h =
    let good =
      all_below_sound 9 (λ r. ltb (eos r) (2 ^ r) && bytes_equal (bits r (eos r)) (ones r)) r
        eos_table h in
    let (small, same) = below_and (eos r) (2 ^ r) _ good in (small, (bytes_equal_iff _ _).0 same)
