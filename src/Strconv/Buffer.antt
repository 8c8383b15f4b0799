-- ===== src/Strconv/Buffer.antt =====
-- Writes into a `char` buffer. A write behind its end, which C++ leaves undefined, is `none`.
use mathlib.Core.Path.{subst}
use cupcake.Base.{
  ==_iff, ◌==◌, ◌≢◌, ℕ, ◌+◌, ◌≤◌, ◌≡◌, refl, ap, inl, inr, [], ◌∷◌, ◌++◌, Option, none, some, arith,
  ltb, leb, if◌then◌else◌, Bool-cases, Bytes, length, drop, set, length-append, le→leb,
}

-- `buffer[i] = c`
unfoldable pub store : Bytes → ℕ → ℕ → Option Bytes
store buffer i c = if ltb i (length buffer) then some (set buffer i c) else none

-- Writes at the front of a buffer and returns the buffer and the number of bytes written.
abbrev pub Printer : Type 0
Printer = Bytes → Option (Bytes × ℕ)

-- `memcpy(buffer, str, strlen(str)); return strlen(str);`
unfoldable pub copy_text : Bytes → Printer
copy_text str buffer =
    if leb (length str) (length buffer)
    then some (str ++ drop (length str) buffer, length str)
    else none

-- `buffer[0] = '-'; return print(buffer + 1) + 1;`
unfoldable pub minus_then : Printer → Printer
minus_then print [] = none
minus_then print (c ∷ rest) = elim (print rest) [
  | none ↦ none
  | some (written, n) ↦ some (b'-' ∷ written, n + 1)
]

-- The printer writes this text, given room for it, and leaves the rest of the buffer alone.
abbrev pub Prints : Printer → Bytes → Type 0
Prints print t =
    (buffer : Bytes)
    → length t ≤ length buffer
    → print buffer ≡ some (t ++ drop (length t) buffer, length t)

pub copy_text-Prints : (str : Bytes) → Prints (copy_text str) str
unfolding copy_text
copy_text-Prints str buffer h = ground (arith, le→leb _ _ h)

pub minus_then-Prints :
    (print : Printer) (t : Bytes) → Prints print t → Prints (minus_then print) (b'-' ∷ t)
unfolding minus_then
minus_then-Prints print t p [] h = absurd (omega arith)
minus_then-Prints print t p (c ∷ rest) h = ground (arith, p rest)

set-length-append :
    (pre rest : Bytes) (x y : ℕ) → set (pre ++ y ∷ rest) (length pre) x ≡ pre ++ x ∷ rest
set-length-append [] rest x y = refl
set-length-append (p ∷ pre) rest x y = ap (◌∷◌ p) (set-length-append pre rest x y)

pub store-length-append :
    (pre rest : Bytes) (y x : ℕ) → store (pre ++ y ∷ rest) (length pre) x ≡ some (pre ++ x ∷ rest)
unfolding store
store-length-append pre rest y x =
    ground (arith, length-append pre (y ∷ rest), set-length-append pre rest x y)

Prints-of_eq : (print : Printer) {t t' : Bytes} → t ≡ t' → Prints print t → Prints print t'
Prints-of_eq print e p = subst (Prints print) e p

-- How the signed printers print a negative number.
pub negative-Prints :
    (n max : ℕ) (least : Bytes) (print : Printer) (t : Bytes)
    → (n ≡ max → least ≡ b'-' ∷ t)
    → (n ≢ max → Prints print t)
    → Prints (if n == max then copy_text least else minus_then print) (b'-' ∷ t)
negative-Prints n max least print t looked_up printed = elim (Bool-cases (n == max)) [
  | inl same ↦
      rw same (
        Prints-of_eq (copy_text least) (looked_up ((==_iff n max).0 same)) (copy_text-Prints least))
  | inr other ↦ rw other (minus_then-Prints print t (printed (ground arith)))
]
