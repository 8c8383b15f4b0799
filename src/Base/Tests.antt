-- ===== src/Base/Tests.antt =====
-- Boolean tests on the native numbers, the conditional, and the bind of optional values.
use Prim.Native.Nat.{ℕ, zero, suc, ◌≤◌, ◌<◌, compare, Ordering}
use mathlib.Core.Path.{◌≡◌, refl}
use mathlib.Core.Logic.{◌≢◌, ◌↔◌, ◌⊎◌, inl, inr}
use mathlib.Core.Bool.{Bool, true, false, ◌&&◌}
use mathlib.Core.List.{List, [], ◌∷◌, ◌++◌}
use mathlib.Core.Option.{Option, none, some}
use native.Mathlib.Omega.{arith}

abbrev pub ltb : ℕ → ℕ → Bool
ltb a b = elim (compare a b) [ Ordering.lt ↦ true | _ ↦ false ]

abbrev pub leb : ℕ → ℕ → Bool
leb a b = elim (compare a b) [ Ordering.gt ↦ false | _ ↦ true ]

infix 50 ◌==◌
abbrev pub ◌==◌ : ℕ → ℕ → Bool
a == b = elim (compare a b) [ Ordering.eq ↦ true | _ ↦ false ]

infix 1 if◌then◌else◌
abbrev pub if◌then◌else◌ {ℓ} : {A : Type ℓ} → Bool → A → A → A
if true then x else y = x
if false then x else y = y

pub leb→le : (a b : ℕ) → leb a b ≡ true → a ≤ b
leb→le a b h = ground arith

pub le→leb : (a b : ℕ) → a ≤ b → leb a b ≡ true
le→leb a b h = ground arith

pub lt→ltb : (a b : ℕ) → a < b → ltb a b ≡ true
lt→ltb a b h = ground arith

pub ==_iff : (a b : ℕ) → ((a == b) ≡ true) ↔ (a ≡ b)
==_iff a b = ground arith

pub nonzero : (n : ℕ) → 0 < n → (n == 0) ≡ false
nonzero n pos = ground arith

-- To split on a computed value and keep the equation.
pub Bool-cases : (b : Bool) → (b ≡ true) ⊎ (b ≡ false)
Bool-cases true = inl refl
Bool-cases false = inr refl

pub Option-cases {ℓ} : {A : Type ℓ} (o : Option A) → (o ≡ none) ⊎ ((a : A) × (o ≡ some a))
Option-cases none = inl refl
Option-cases (some a) = inr (a, refl)

infixl 5 ◌>>=◌
abbrev pub ◌>>=◌ {ℓ κ} : {A : Type ℓ} {B : Type κ} → Option A → (A → Option B) → Option B
none >>= f = none
some a >>= f = f a

-- Text and buffers are lists of byte values.
abbrev pub Bytes : Type 0
Bytes = List ℕ

-- A byte that does not occur.
abbrev pub Lacks : ℕ → Bytes → Type 0
Lacks c [] = Unit {0}
Lacks c (x ∷ xs) = (c ≢ x) × Lacks c xs

pub Lacks-append : (c : ℕ) (xs ys : Bytes) → Lacks c xs → Lacks c ys → Lacks c (xs ++ ys)
Lacks-append c [] ys h k = k
Lacks-append c (x ∷ xs) ys h k = (h.0, Lacks-append c xs ys h.1 k)

-- Bytes, and not larger numbers.
abbrev pub AllBytes : Bytes → Type 0
AllBytes [] = Unit {0}
AllBytes (c ∷ cs) = (c < 256) × AllBytes cs

-- A test of every number under a bound, which evaluates.
unfoldable pub all_below : ℕ → (ℕ → Bool) → Bool
all_below zero test = true
all_below (suc bound) test = all_below bound test && test bound

pub all_below_sound :
    (bound : ℕ) (test : ℕ → Bool) (n : ℕ) → all_below bound test ≡ true → n < bound → test n ≡ true
unfolding all_below
all_below_sound zero test n passed small = absurd (omega arith)
all_below_sound (suc bound) test n passed small = ground (arith, all_below_sound bound test n)

-- Whether two texts have the same bytes.
unfoldable pub bytes_equal : Bytes → Bytes → Bool
bytes_equal [] [] = true
bytes_equal (x ∷ xs) (y ∷ ys) = x == y && bytes_equal xs ys
bytes_equal _ _ = false

pub bytes_equal_iff : (xs ys : Bytes) → (bytes_equal xs ys ≡ true) ↔ (xs ≡ ys)
unfolding bytes_equal
bytes_equal_iff (x ∷ xs) (y ∷ ys) = ground (arith, bytes_equal_iff xs ys)
bytes_equal_iff _ _ = ground arith
