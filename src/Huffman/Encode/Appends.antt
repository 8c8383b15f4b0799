-- ===== src/Huffman/Encode/Appends.antt =====
-- The loop over the bits of a code in `encode` puts them behind the bits that are there.
use Prim.Native.Nat.{bit_or}
use mathlib.Core.List.{append_assoc, append-nil}
use cupcake.Base.{
  Bool-cases, ℕ, zero, suc, ◌+◌, ◌-◌, ◌*◌, ◌/◌, ◌%◌, ◌^◌, ◌≤◌, ◌<◌, ◌≡◌, refl, sym, ap, ◌∙◌, ◌⊎◌,
  inl, inr, [], ◌∷◌, ◌++◌, Option, some, ltb, arith, ◌==◌, Bytes,
}
use cupcake.Base.Word.{uint32_mod}
use cupcake.Huffman.Bits.{bits, bits-split, byte_bits, byte_bits-append, div_pow_lt, mod_pow_lt}
use cupcake.Huffman.Encode.Filled.{bits-filled, bits-Put, shifted, bits-mod, bits-byte}
use cupcake.Huffman.Encode.{Writer, encode_bits}

-- A text, and a byte with `r` bits to fill behind the bits of `high`.
abbrev pub state : Bytes → ℕ → ℕ → Writer
state d r high = record { dest = d; rembits = r; cur_byte = high * 2 ^ r }

-- The bits that have been written.
abbrev pub written : Bytes → ℕ → ℕ → Bytes
written d r high = byte_bits d ++ bits (8 - r) high

-- Writing ended, with these bits behind those that were there.
pub record Appends (d : Bytes) (r high : ℕ) (bs : Bytes) (result : Option Writer) : Type 0 where
  pub dest' : Bytes
  pub rembits' : ℕ
  pub high' : ℕ
  pub some_room : 0 < rembits'
  pub whole : rembits' < 9
  pub small : high' < 2 ^ (8 - rembits')
  pub ended : result ≡ some (state dest' rembits' high')
  pub behind : written dest' rembits' high' ≡ written d r high ++ bs

put-Appends :
    (d : Bytes) (r n v high : ℕ)
    → n < r
    → r < 9
    → high < 2 ^ (8 - r)
    → (v < 2 ^ n) ⊎ (r ≡ 8)
    → Appends d r high (bits n v) (
        some (record {
          dest = d;
          rembits = r - n;
          cur_byte = bit_or (high * 2 ^ r) (v * 2 ^ (r - n) % uint32_mod % 256);
        }))
put-Appends d r n v high less hr hh bound =
    let le : n ≤ r = omega (arith, less) in
    let p = bits-Put r n (v % 2 ^ n) high le hr (mod_pow_lt v n) hh in
    record {
      dest' = d;
      rembits' = r - n;
      high' = high * 2 ^ n + v % 2 ^ n;
      some_room = omega (arith, less);
      whole = omega (arith, hr);
      small = p.high_small;
      ended =
          ap (λ x. some (record { dest = d; rembits = r - n; cur_byte = x }))
            (ap (bit_or (high * 2 ^ r)) (shifted r n v le hr bound p.in_byte) ∙ p.or_is_sum);
      behind =
          ap (◌++◌ (byte_bits d)) (p.put_behind ∙ ap (◌++◌ (bits (8 - r) high)) (bits-mod n v))
          ∙ sym (append_assoc (byte_bits d) (bits (8 - r) high) (bits n v));
    }

-- The byte that the last `r` bits fill.
pushed : ℕ → ℕ → ℕ → ℕ → ℕ
pushed r n v high = bit_or (high * 2 ^ r) (v / 2 ^ (n - r) % 256)

pushed_fits : (r n v : ℕ) → r ≤ n → (v < 2 ^ n) ⊎ (r ≡ 8) → v / 2 ^ (n - r) % 256 < 2 ^ r
pushed_fits r n v le (inl small) =
    let e : r + (n - r) ≡ n = omega (arith, le) in
    let h = div_pow_lt r (n - r) v (rw e small) in omega (arith, h)
pushed_fits r n v le (inr full) = rw full omega arith

written-pushed :
    (d : Bytes) (r n v high : ℕ)
    → r ≤ n
    → r < 9
    → high < 2 ^ (8 - r)
    → (v < 2 ^ n) ⊎ (r ≡ 8)
    → byte_bits (d ++ pushed r n v high ∷ []) ≡ written d r high ++ bits r (v / 2 ^ (n - r))
unfolding byte_bits pushed
written-pushed d r n v high le hr hh bound =
    byte_bits-append d (pushed r n v high ∷ [])
    ∙ ap (◌++◌ (byte_bits d)) (
        append-nil (bits 8 (pushed r n v high))
        ∙ bits-filled r (v / 2 ^ (n - r) % 256) high hr (pushed_fits r n v le bound) hh
        ∙ ap (◌++◌ (bits (8 - r) high)) (bits-byte r (v / 2 ^ (n - r)) hr))
    ∙ sym (append_assoc (byte_bits d) (bits (8 - r) high) (bits r (v / 2 ^ (n - r))))

-- The byte is full, and `n - r` bits of the number are left.
bits_left :
    (d : Bytes) (r n v high : ℕ)
    → r ≤ n
    → r < 9
    → high < 2 ^ (8 - r)
    → (v < 2 ^ n) ⊎ (r ≡ 8)
    → byte_bits (d ++ pushed r n v high ∷ []) ++ bits (n - r) v ≡ written d r high ++ bits n v
bits_left d r n v high le hr hh bound =
    let e : r + (n - r) ≡ n = omega (arith, le) in
    let parts = rw e at (bits-split r (n - r) v) in
    ap (λ s. s ++ bits (n - r) v) (written-pushed d r n v high le hr hh bound)
    ∙ append_assoc (written d r high) (bits r (v / 2 ^ (n - r))) (bits (n - r) v)
    ∙ ap (◌++◌ (written d r high)) (sym parts)

one_round :
    (f n v : ℕ) (d : Bytes) (r high : ℕ)
    → 0 < r
    → r < 9
    → high < 2 ^ (8 - r)
    → (v < 2 ^ n) ⊎ (r ≡ 8)
    → (r < n
        → Appends
            (d ++ pushed r n v high ∷ [])
            8
            0
            (bits (n - r) v)
            (encode_bits f (n - r) v (state (d ++ pushed r n v high ∷ []) 8 0)))
    → Appends d r high (bits n v) (encode_bits (suc f) n v (state d r high))
unfolding encode_bits bits pushed
one_round f n v d r high room hr hh bound more = elim (Bool-cases (ltb n r)) [
  | inl less ↦ rw less (put-Appends d r n v high (ground (arith, less)) hr hh bound)
  | inr full ↦
      let le : r ≤ n = ground (arith, full) in
      let left = bits_left d r n v high le hr hh bound in
      rw full elim (Bool-cases (n - r == 0)) [
        | inl exact ↦
            let none_left : n - r ≡ 0 = ground (arith, exact) in
            rw exact record {
              dest' = d ++ pushed r n v high ∷ [];
              rembits' = 8;
              high' = 0;
              some_room = omega arith;
              whole = omega arith;
              small = omega arith;
              ended = refl;
              behind =
                  ap (λ k. byte_bits (d ++ pushed r n v high ∷ []) ++ bits k v) (sym none_left)
                  ∙ left;
            }
        | inr over ↦
            let rest = more (ground (arith, le, over)) in
            rw over record {
              dest' = rest.dest';
              rembits' = rest.rembits';
              high' = rest.high';
              some_room = rest.some_room;
              whole = rest.whole;
              small = rest.small;
              ended = rest.ended;
              behind =
                  rest.behind
                  ∙ ap (λ s. s ++ bits (n - r) v)
                      (append-nil (byte_bits (d ++ pushed r n v high ∷ [])))
                  ∙ left;
            }
      ]
]

pub encode_bits-Appends :
    (f n v : ℕ) (d : Bytes) (r high : ℕ)
    → 0 < r
    → r < 9
    → high < 2 ^ (8 - r)
    → (v < 2 ^ n) ⊎ (r ≡ 8)
    → n ≤ r + 8 * f
    → Appends d r high (bits n v) (encode_bits (suc f) n v (state d r high))
encode_bits-Appends zero n v d r high room hr hh bound fuel =
    one_round zero n v d r high room hr hh bound (λ over. absurd (omega (arith, fuel)))
encode_bits-Appends (suc f) n v d r high room hr hh bound fuel =
    one_round (suc f) n v d r high room hr hh bound λ over.
      encode_bits-Appends f (n - r) v (d ++ pushed r n v high ∷ []) 8 0 (omega arith) (omega arith)
        (omega arith) (inr refl) (omega (arith, fuel))
