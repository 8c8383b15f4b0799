-- ===== src/Hpack/Table/History.antt =====
-- Sequences of `resize` and `add`.
use cupcake.Base.{
  ℕ, ◌+◌, ◌<◌, ◌≡◌, refl, [], ◌∷◌, List, Option, none, some, arith, ◌>>=◌, Bytes, length,
}
use cupcake.Hpack.Table.{Table, empty, init, resize, add}
use cupcake.Hpack.Table.Evict.{
  IsValid, holding, newest, holding-IsValid, total-newest-le, resize-newest, add-keeps_max,
}

-- A change of the table: what the decoder does to it.
pub data Change : Type 0 where
  resizes : ℕ → Change
  adds : Bytes → Bytes → Change

abbrev pub IsSmall : Change → Type 0
IsSmall (resizes n) = n < 9223372036854775808
IsSmall (adds name value) = length name + length value + 32 < 9223372036854775808

pub change : Table → Change → Option Table
change t (resizes n) = resize t n
change t (adds name value) = do (t', fits) ← add t name value; some t'

-- Every change of a valid table ends, with a valid table.
pub change-IsValid :
    (t : Table) (c : Change)
    → IsValid t
    → IsSmall c
    → (t' : Table) × (change t c ≡ some t') × IsValid t'
unfolding change
change-IsValid t (resizes n) v h = (
  holding n (newest n t.dynamic_table),
  resize-newest t n v,
  holding-IsValid n _ (total-newest-le n t.dynamic_table) h,
)
change-IsValid t (adds name value) v h =
    let (t', fits, e, v', same) = add-keeps_max t name value v h in (t', ground arith, v')

pub changes : Table → List Change → Option Table
changes t [] = some t
changes t (c ∷ cs) = elim (change t c) [ none ↦ none | some t' ↦ changes t' cs ]

abbrev pub AllSmall : List Change → Type 0
AllSmall [] = Unit {0}
AllSmall (c ∷ cs) = IsSmall c × AllSmall cs

changes-IsValid :
    (t : Table) (cs : List Change)
    → IsValid t
    → AllSmall cs
    → (t' : Table) × (changes t cs ≡ some t') × IsValid t'
unfolding changes
changes-IsValid t [] v h = (t, refl, v)
changes-IsValid t (c ∷ cs) v h =
    let (t', e, v') = change-IsValid t c v h.0 in
    let (t'', e', v'') = changes-IsValid t' cs v' h.1 in (t'', ground arith, v'')

-- A table that starts empty, with a maximum below 2^63, goes through every sequence of `resize` to
-- less than 2^63 and `add` of entries below 2^63 bytes without dropping an entry of an empty deque, and
-- its recorded size is the size of its entries and within its maximum then.
pub changes-init-IsValid :
    (initial : ℕ) (cs : List Change)
    → initial < 9223372036854775808
    → AllSmall cs
    → (t : Table) × (changes (init empty initial) cs ≡ some t) × IsValid t
changes-init-IsValid initial cs h k =
    changes-IsValid (init empty initial) cs
      (unfold init empty in holding-IsValid initial [] (omega arith) h) k
