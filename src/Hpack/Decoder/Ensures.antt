-- ===== src/Hpack/Decoder/Ensures.antt =====
-- Postconditions of the decoder's calls, which exclude a fault, and the states between its reads.
use mathlib.Core.Path.{subst, sym}
use cupcake.Base.{ℕ, zero, suc, ◌≤◌, ◌<◌, ◌≡◌, [], ◌∷◌, Bytes, length, drop}
use cupcake.Hpack.Reader.{Result, ok, refused, fault, dangling, Decoder, M, ◌>>=◌, read_number}
use cupcake.Hpack.Table.{Table}

-- No fault, and this of the value and the state that come out, if any do.
abbrev pub Ensures : {A : Type 0} → (A → Decoder → Type 0) → Result (A × Decoder) → Type 0
Ensures Q (ok (a, d)) = Q a d
Ensures Q refused = Unit
Ensures Q fault = ⊥
Ensures Q dangling = Unit

pub bind-Ensures :
    {A B : Type 0} (P : A → Decoder → Type 0) (Q : B → Decoder → Type 0) (m : M A) (f : A → M B)
    (d : Decoder)
    → Ensures P (m d)
    → ((a : A) (d' : Decoder) → P a d' → Ensures Q (f a d'))
    → Ensures Q ((m >>= f) d)
bind-Ensures {A} {B} P Q m f d = go (m d)
  where
    go :
        (r : Result (A × Decoder))
        → Ensures P r
        → ((a : A) (d' : Decoder) → P a d' → Ensures Q (f a d'))
        → Ensures Q (elim r [
          | ok (a, d') ↦ f a d'
          | refused ↦ refused
          | fault ↦ fault
          | dangling ↦ dangling
        ])
    go (ok (a, d')) p k = k a d' p
    go refused p k = tt
    go fault p k = p
    go dangling p k = tt

-- No number that is read from these bytes, at any place, overflows 32 bits: none comes out below
-- its prefix.
abbrev pub NoWrap : Bytes → Type 0
NoWrap [] = Unit
NoWrap (c ∷ cs) =
    ((d d' : Decoder) (prefix v : ℕ)
      → d.data_left ≡ c ∷ cs
      → prefix < 128
      → read_number prefix d ≡ ok (v, d')
      → prefix ≤ v)
    × NoWrap cs

pub NoWrap-drop : (n : ℕ) (cs : Bytes) → NoWrap cs → NoWrap (drop n cs)
NoWrap-drop zero cs h = h
NoWrap-drop (suc n) [] h = tt
NoWrap-drop (suc n) (c ∷ cs) h = NoWrap-drop n cs h.1

-- A state that has a current byte and this table, with at most n bytes left.
pub record Reading (n : ℕ) (t : Table) (d : Decoder) : Type 0 where
  pub same_table : d.table ≡ t
  pub calm : NoWrap d.data_left
  pub left : length d.data_left ≤ n
  pub some_left : 0 < length d.data_left

pub weaken :
    {A : Type 0} (P Q : A → Decoder → Type 0) (r : Result (A × Decoder))
    → Ensures P r
    → ((a : A) (d' : Decoder) → P a d' → Q a d')
    → Ensures Q r
weaken P Q (ok (a, d')) p k = k a d' p
weaken P Q refused p k = tt
weaken P Q fault p k = p
weaken P Q dangling p k = tt

pub Ensures-ok :
    {A : Type 0} (Q : A → Decoder → Type 0) (r : Result (A × Decoder)) {a : A} {d : Decoder}
    → r ≡ ok (a, d)
    → Q a d
    → Ensures Q r
Ensures-ok Q r e q = subst (Ensures Q) (sym e) q
