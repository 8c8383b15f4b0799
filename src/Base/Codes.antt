-- ===== src/Base/Codes.antt =====
-- The bytes of an ASCII literal.
use Prim.Native.Char.{code}
use Prim.Native.String.{String}
use mathlib.Core.List.{[], ◌∷◌, List}
use Prim.Native.Nat.{ℕ}

abbrev pub codes : String → List ℕ
codes String.[] = []
codes (String.◌∷◌ c s) = code c ∷ codes s
