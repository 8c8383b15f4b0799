-- ===== src/StringRef/Backward/Stuck.antt =====
-- A search from the end of a long text that never moves.
use cupcake.Base.{
  ap, leb, get_elem?, ℕ, zero, suc, ◌+◌, ◌-◌, ◌≤◌, ◌<◌, ◌≡◌, ◌∙◌, Lacks, refl, true, false, [], ◌∷◌,
  some, arith, ltb, ◌==◌, if◌then◌else◌, Bytes, length, drop,
}
use cupcake.StringRef.Backward.{
  back_skip, back_table, go_on, back_round, after_round, horspool_back, last_index_of_from,
}
use cupcake.Base.Word.{uint32_mod}
use cupcake.StringRef.Search.{fault, starts_with}
use cupcake.StringRef.Search.Skip.{AllAscii}

-- A byte that is not in the rest keeps its skip.
back_skip-Lacks :
    (c i : ℕ) (cs : Bytes) (skip : ℕ → ℕ)
    → AllAscii cs
    → Lacks c cs
    → (made : ℕ → ℕ) × (back_skip i cs skip ≡ some made) × (made c ≡ skip c)
unfolding back_skip
back_skip-Lacks c i [] skip h l = (skip, refl, refl)
back_skip-Lacks c i (x ∷ xs) skip h l =
    let (made, e, keeps) =
      back_skip-Lacks c (i + 1) xs (λ y. if y == x then i else skip y) h.1 l.1 in
    let ascii : ltb x 128 ≡ true = ground (arith, h.0) in
    (made, rw ascii e, ground (arith, keeps, l.0))

-- The same round again and again.
horspool_back-stuck :
    (f : ℕ) (skip : ℕ → ℕ) (needle text : Bytes) (p : ℕ)
    → back_round skip needle text p ≡ go_on p
    → horspool_back f skip needle text p ≡ fault
unfolding horspool_back
horspool_back-stuck zero skip needle text p h = refl
horspool_back-stuck (suc f) skip needle text p h =
    ap (λ r. after_round r (λ p'. horspool_back f skip needle text p')) h
    ∙ horspool_back-stuck f skip needle text p h

back_round-stays :
    (skip : ℕ → ℕ) (c : ℕ) (needle text : Bytes) (p : ℕ)
    → get_elem? text p ≡ some c
    → c < 128
    → skip c ≡ 0
    → starts_with (drop p text) needle ≡ false
    → back_round skip needle text p ≡ go_on p
unfolding back_round
back_round-stays skip c needle text p here low h miss =
    let e : leb 255 c ≡ false = ground arith in
    let e' : ltb p 0 ≡ false = ground arith in
    let same : p - 0 ≡ p = omega arith in rw miss (rw here (rw e (rw h (rw e' (ap go_on same)))))

last_index_of_from-skips :
    (text needle : Bytes) (end_index : ℕ) (skip : ℕ → ℕ)
    → end_index ≤ length text
    → 0 < length needle
    → length needle ≤ end_index
    → 256 ≤ end_index - length needle
    → back_table needle ≡ some skip
    → last_index_of_from text needle end_index
      ≡ horspool_back
          (suc (suc (end_index - length needle)))
          skip
          needle
          text
          (end_index - length needle)
unfolding last_index_of_from
last_index_of_from-skips text needle end_index skip within pos fits long made =
    let e1 : ltb (length text) end_index ≡ false = ground arith in
    let e2 : (length needle == 0) ≡ false = ground arith in
    let e3 : ltb end_index (length needle) ≡ false = ground arith in
    let e4 : ltb (end_index - length needle) 256 ≡ false = ground arith in
    rw e1 (rw e2 (rw e3 (rw e4 (rw (made, last_index_of_from) refl))))

-- A needle of bytes below 128 and of fewer than 2^32 of them, whose first byte does not come again,
-- sought before an end that leaves an index of 256 or more: if that byte stands at the index, and the rest
-- of the needle not behind it, `lastIndexOf` makes its table of skips and starts its search at this
-- index, a round of the search there neither gives a result nor fails, but leads to the same index, and
-- however many rounds it is given the search has no result.
pub last_index_of_from-endless :
    (f c : ℕ) (cs text : Bytes) (p : ℕ)
    → AllAscii (c ∷ cs)
    → length (c ∷ cs) < uint32_mod
    → Lacks c cs
    → 256 ≤ p
    → p + length (c ∷ cs) ≤ length text
    → get_elem? text p ≡ some c
    → starts_with (drop p text) (c ∷ cs) ≡ false
    → (skip : ℕ → ℕ) × (back_table (c ∷ cs) ≡ some skip)
      × (last_index_of_from text (c ∷ cs) (p + length (c ∷ cs))
          ≡ horspool_back (suc (suc p)) skip (c ∷ cs) text p)
      × (back_round skip (c ∷ cs) text p ≡ go_on p)
      × (horspool_back f skip (c ∷ cs) text p ≡ fault)
unfolding back_table back_skip
last_index_of_from-endless f c cs text p ascii small lacks long within here miss =
    let start : ℕ → ℕ = λ y. if y == c then 0 else length (c ∷ cs) in
    let (skip, e, keeps) = back_skip-Lacks c 1 cs start ascii.1 lacks in
    let low : ltb c 128 ≡ true = ground (arith, ascii.0) in
    let one : 0 + 1 ≡ 1 = omega arith in
    let counted : leb uint32_mod (length (c ∷ cs)) ≡ false = ground (arith, small) in
    let made : back_table (c ∷ cs) ≡ some skip = rw counted (rw low (rw one e)) in
    let none_at : skip c ≡ 0 = ground (arith, keeps) in
    let back : p + length (c ∷ cs) - length (c ∷ cs) ≡ p = omega arith in
    let stays = back_round-stays skip c (c ∷ cs) text p here ascii.0 none_at miss in
    (
      skip,
      made,
      last_index_of_from-skips text (c ∷ cs) (p + length (c ∷ cs)) skip within (omega arith)
            (omega arith) (omega arith) made
          ∙ rw back refl,
      stays,
      horspool_back-stuck f skip (c ∷ cs) text p stays,
    )
