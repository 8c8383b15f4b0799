-- ===== src/StringRef/Search/Horspool.antt =====
-- The search by skips finds the first match: no match starts within a skip.
use cupcake.Base.{
  Bool, ◌&&◌, drop-drop, ℕ, zero, suc, ◌+◌, ◌-◌, ◌≤◌, ◌<◌, ◌≡◌, ◌∙◌, refl, sym, ap, true, false,
  inl, inr, Bool-cases, [], ◌∷◌, some, arith, leb, ltb, ◌==◌, Bytes, length, drop, length-drop,
  get_elem?, get_or, ==_iff,
}
use cupcake.StringRef.Search.{
  Search, found, missing, fault, starts_with, and_then, matches_back, horspool,
}
use cupcake.StringRef.Search.First.{
  NoMatch, IsFirst, starts_with-get_elem?, short-no_match, get_elem?-drop, length-le_of_starts_with,
}
use cupcake.StringRef.Search.Skip.{IsSkip}

get_elem?-get_or : (xs : Bytes) (i : ℕ) → i < length xs → get_elem? xs i ≡ some (get_or xs i 0)
get_elem?-get_or [] i h = absurd (omega arith)
get_elem?-get_or (x ∷ xs) zero h = refl
get_elem?-get_or (x ∷ xs) (suc i) h = get_elem?-get_or xs i (omega arith)

-- A skip by the byte under the last index passes over no match.
skip-NoMatch :
    (end_index : ℕ) (needle rest : Bytes) (skip : ℕ → ℕ)
    → length needle ≡ suc end_index
    → end_index < length rest
    → IsSkip end_index 0 needle (λ x. length needle) skip
    → starts_with rest needle ≡ false
    → NoMatch needle rest (skip (get_or rest end_index 0))
skip-NoMatch end_index needle rest skip len room good miss = λ k.
    elim k as (λ k. k < skip (get_or rest end_index 0) → starts_with (drop k rest) needle ≡ false) [
      | zero ↦ λ h. miss
      | suc k ↦ λ h. elim (Bool-cases (starts_with (drop (suc k) rest) needle)) [
        | inr no_match ↦ no_match
        | inl match ↦
            let (most, some_skip, by_place) = good (get_or rest end_index 0) in
            let place = end_index - suc k in
            let under : suc k + place ≡ end_index = omega (arith, h, most, len) in
            let same =
              sym
                (starts_with-get_elem? (drop (suc k) rest) needle place match (omega (arith, len)))
              ∙ get_elem?-drop (suc k) place rest
              ∙ ap (get_elem? rest) under
              ∙ get_elem?-get_or rest end_index room in
            absurd (omega (arith, by_place place (omega (arith, len)) same, h, under))
      ]
    ]

-- The comparison of bytes that both texts have.
abbrev equal_back : ℕ → Bytes → Bytes → Bool
equal_back zero needle rest = get_or rest 0 0 == get_or needle 0 0
equal_back (suc scan) needle rest =
    get_or rest (suc scan) 0 == get_or needle (suc scan) 0 && equal_back scan needle rest

and_then-lem : (a b : Bool) → and_then (some a) (some b) ≡ some (a && b)
and_then-lem true b = refl
and_then-lem false b = refl

-- The comparison leaves neither text.
matches_back-lem :
    (scan : ℕ) (needle rest : Bytes)
    → scan < length needle
    → scan < length rest
    → matches_back scan needle rest ≡ some (equal_back scan needle rest)
unfolding matches_back
matches_back-lem zero needle rest h k =
    rw (get_elem?-get_or rest 0 k) (rw (get_elem?-get_or needle 0 h) refl)
matches_back-lem (suc scan) needle rest h k = rw (get_elem?-get_or rest (suc scan) k) (
    rw (get_elem?-get_or needle (suc scan) h) (
      rw (matches_back-lem scan needle rest (omega (arith, h)) (omega (arith, k))) (
        and_then-lem (get_or rest (suc scan) 0 == get_or needle (suc scan) 0)
          (equal_back scan needle rest))))

equal_back-get_or :
    (scan : ℕ) (needle rest : Bytes) (j : ℕ)
    → equal_back scan needle rest ≡ true
    → j ≤ scan
    → get_or rest j 0 ≡ get_or needle j 0
equal_back-get_or zero needle rest j h le = let e : j ≡ 0 = omega arith in rw e (ground arith)
equal_back-get_or (suc scan) needle rest j h le = elim (Bool-cases (j == suc scan)) [
  | inl last ↦ rw ((==_iff j (suc scan)).0 last) (ground arith)
  | inr before ↦ equal_back-get_or scan needle rest j (ground arith) (ground arith)
]

starts_with_of_get_or :
    (rest needle : Bytes)
    → length needle ≤ length rest
    → ((j : ℕ) → j < length needle → get_or rest j 0 ≡ get_or needle j 0)
    → starts_with rest needle ≡ true
unfolding starts_with
starts_with_of_get_or rest [] le h = refl
starts_with_of_get_or [] (n ∷ ns) le h = absurd (omega arith)
starts_with_of_get_or (r ∷ rs) (n ∷ ns) le h =
    ground (
      arith,
      h 0,
      starts_with_of_get_or rs ns (omega arith) (λ j lt. h (suc j) (omega (arith, lt))),
    )

equal_back_of_starts_with :
    (scan : ℕ) (needle rest : Bytes)
    → starts_with rest needle ≡ true
    → scan < length needle
    → equal_back scan needle rest ≡ true
equal_back_of_starts_with scan needle rest h lt = go scan lt
  where
    same : (j : ℕ) → j < length needle → get_or rest j 0 ≡ get_or needle j 0
    same j lt = ground (
      arith,
      starts_with-get_elem? rest needle j h lt,
      length-le_of_starts_with rest needle h,
      get_elem?-get_or rest j,
      get_elem?-get_or needle j,
    )

    go : (k : ℕ) → k < length needle → equal_back k needle rest ≡ true
    go zero lt = ground (arith, same 0)
    go (suc k) lt = ground (arith, same (suc k), go k)

-- The comparison from the end is the test of `startsWith`.
equal_back-starts_with :
    (end_index : ℕ) (needle rest : Bytes)
    → length needle ≡ suc end_index
    → length needle ≤ length rest
    → equal_back end_index needle rest ≡ starts_with rest needle
equal_back-starts_with end_index needle rest len le =
    elim (Bool-cases (equal_back end_index needle rest)) [
      | inl yes_back ↦
          yes_back
          ∙ sym (
              starts_with_of_get_or rest needle le
                λ j lt. equal_back-get_or end_index needle rest j yes_back (omega (arith, len, lt)))
      | inr no_back ↦ elim (Bool-cases (starts_with rest needle)) [
        | inl match ↦
            cc (equal_back_of_starts_with end_index needle rest match (omega (arith, len)))
        | inr miss ↦ no_back ∙ sym miss
      ]
    ]

-- What is found behind a stretch with no match is the first match.
skip-IsFirst :
    (needle rest : Bytes) (step i : ℕ) (r : Search)
    → NoMatch needle rest step
    → IsFirst needle (drop step rest) (i + step) r
    → IsFirst needle rest i r
skip-IsFirst needle rest step i (found j) clear (d, e, here, before) = (
  step + d,
  omega (arith, e),
  ap (λ s. starts_with s needle) (sym (drop-drop d step rest)) ∙ here,
  all_clear,
)
  where
    all_clear : NoMatch needle rest (step + d)
    all_clear k lt = elim (Bool-cases (ltb k step)) [
      | inl near ↦ clear k (ground arith)
      | inr far ↦
          let e : step + (k - step) ≡ k = ground arith in
          ap (λ s. starts_with s needle)
            (ap (λ m. drop m rest) (sym e) ∙ sym (drop-drop (k - step) step rest))
          ∙ before (k - step) (ground arith)
    ]
skip-IsFirst needle rest step i missing clear none_later = λ k. elim (Bool-cases (ltb k step)) [
  | inl near ↦ clear k (ground arith)
  | inr far ↦
      let e : step + (k - step) ≡ k = ground arith in
      ap (λ s. starts_with s needle)
        (ap (λ m. drop m rest) (sym e) ∙ sym (drop-drop (k - step) step rest))
      ∙ none_later (k - step)
]
skip-IsFirst needle rest step i fault clear h = h

pub horspool-IsFirst :
    (f end_index : ℕ) (skip : ℕ → ℕ) (needle rest : Bytes) (i : ℕ)
    → length rest < f
    → length needle ≡ suc end_index
    → IsSkip end_index 0 needle (λ x. length needle) skip
    → IsFirst needle rest i (horspool f skip needle rest i)
unfolding horspool
horspool-IsFirst zero end_index skip needle rest i enough len good = absurd (omega arith)
horspool-IsFirst (suc f) end_index skip needle rest i enough len good =
    elim (Bool-cases (leb (length needle) (length rest))) [
      | inl room ↦
          let last : length needle - 1 ≡ end_index = omega (arith, len) in
          let step = skip (get_or rest end_index 0) in
          let fits : length needle ≤ length rest = ground arith in
          let compared : matches_back end_index needle rest ≡ some (starts_with rest needle) =
            matches_back-lem end_index needle rest (omega (arith, len)) (omega (arith, len, fits))
            ∙ ap some (equal_back-starts_with end_index needle rest len fits) in
          let under = get_elem?-get_or rest end_index (omega (arith, len, fits)) in
          rw room (
            rw last (
              rw (compared, under)
                elim (Bool-cases (starts_with rest needle)) [
                  | inl here ↦ rw here (0, omega arith, here, λ k h. absurd (omega (arith, h)))
                  | inr miss ↦
                      let (most, some_skip, by_place) = good (get_or rest end_index 0) in
                      rw miss (
                        skip-IsFirst needle rest step i _
                          (skip-NoMatch end_index needle rest skip len (omega (arith, len, fits))
                            good miss)
                          (horspool-IsFirst f end_index skip needle (drop step rest) (i + step)
                            (omega (arith, length-drop {A = ℕ} step rest, some_skip, len, fits)) len
                            good))
                ]))
      | inr short ↦
          rw short
            (λ k. short-no_match (drop k rest) needle (ground (arith, length-drop {A = ℕ} k rest)))
    ]
