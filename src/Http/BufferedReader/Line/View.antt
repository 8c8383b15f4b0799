-- ===== src/Http/BufferedReader/Line/View.antt =====
-- The view that `readLine` gives of a line in the buffer.
use mathlib.Core.List.{append_assoc}
use cupcake.Base.{
  take_all, take_front, nil_of_length, ℕ, zero, suc, ◌+◌, ◌-◌, ◌≤◌, ◌<◌, ◌≡◌, ◌≢◌, ◌∙◌, refl, sym,
  ap, ◌⊎◌, inl, inr, Bool-cases, true, false, not, ◌&&◌, [], ◌∷◌, ◌++◌, arith, leb, ◌==◌,
  if◌then◌else◌, Bytes, length, take, get_or, length-append,
}
use cupcake.Base.Word.{sub_uint32}
use cupcake.Http.BufferedReader.Layout.{IsLayout, length-buffer, drop-start}
use cupcake.Http.BufferedReader.{Reader, view, line_at}
use cupcake.Http.Stream.{ok}

-- A line without the carriage return at its end, if it has one.
abbrev pub without_cr : Bytes → Bytes
without_cr l = if get_or l (length l - 1) 0 == 0x0d then take (length l - 1) l else l

-- The byte before the line is no carriage return, or belongs to the line.
abbrev pub IsClean : Bytes → Reader → Type 0
IsClean l r =
    (0 < length l) ⊎ ((r.start_index ≡ 0) ⊎ (get_or r.buffer (r.start_index - 1) 0 ≢ 0x0d))

pub get_or-behind : (xs ys : Bytes) (k : ℕ) → get_or (xs ++ ys) (length xs + k) 0 ≡ get_or ys k 0
get_or-behind [] ys k = let e : 0 + k ≡ k = omega arith in rw e refl
get_or-behind (x ∷ xs) ys k =
    let e : suc (length xs) + k ≡ suc (length xs + k) = omega arith in rw e (get_or-behind xs ys k)

get_or-front : (xs ys : Bytes) (k : ℕ) → k < length xs → get_or (xs ++ ys) k 0 ≡ get_or xs k 0
get_or-front [] ys k h = absurd (omega arith)
get_or-front (x ∷ xs) ys zero h = refl
get_or-front (x ∷ xs) ys (suc k) h = get_or-front xs ys k (omega arith)

module _ (r : Reader) (before pending free l mid : Bytes) (lay : IsLayout r before pending free)
    (split : pending ≡ l ++ 0x0a ∷ mid) where
  whole_line : length pending ≡ length l + suc (length mid)
  whole_line = ap length split ∙ length-append l (0x0a ∷ mid)

  view-lem : (k : ℕ) → k ≤ length l → view r.buffer r.start_index k ≡ ok (take k l)
  unfolding view
  view-lem k h =
      let len = length-buffer r before pending free lay in
      let inside : leb (r.start_index + k) (length r.buffer) ≡ true =
        ground (arith, len, lay.starts, whole_line) in
      rw inside (
        ap ok (
          ap (take k) (drop-start r before pending free lay)
          ∙ take_front k pending free (omega (arith, whole_line))
          ∙ ap (take k) split
          ∙ take_front k l (0x0a ∷ mid) h))

  -- The byte before the newline.
  last_byte :
      0 < length l → get_or r.buffer (r.start_index + length l - 1) 0 ≡ get_or l (length l - 1) 0
  last_byte pos =
      let place : r.start_index + length l - 1 ≡ length before + (length l - 1) =
        omega (arith, lay.starts) in
      ap (λ k. get_or r.buffer k 0) place
      ∙ ap (λ b. get_or b (length before + (length l - 1)) 0) lay.parts
      ∙ get_or-behind before (pending ++ free) (length l - 1)
      ∙ get_or-front pending free (length l - 1) (omega (arith, whole_line))
      ∙ ap (λ b. get_or b (length l - 1) 0) split
      ∙ get_or-front l (0x0a ∷ mid) (length l - 1) (omega (arith, pos))

  unfoldable pub behind_line : Reader
  behind_line = record r { start_index = r.start_index + length l + 1 }

  pub behind_line-IsLayout : IsLayout behind_line (before ++ (l ++ 0x0a ∷ [])) mid free
  unfolding behind_line
  behind_line-IsLayout =
      let size = length-append before (l ++ 0x0a ∷ []) in
      let size' = length-append l (0x0a ∷ []) in
      record {
        parts =
            lay.parts
            ∙ ap (λ b. before ++ (b ++ free)) split
            ∙ ap (◌++◌ before) (append_assoc l (0x0a ∷ mid) free)
            ∙ ap (◌++◌ before) (sym (append_assoc l (0x0a ∷ []) (mid ++ free)))
            ∙ sym (append_assoc before (l ++ 0x0a ∷ []) (mid ++ free));
        starts = omega (arith, lay.starts, size, size');
        ends = omega (arith, lay.ends, size, size', whole_line);
        some_buffer = lay.some_buffer;
        small = lay.small;
      }

  pub line_at-lem :
      IsClean l r → line_at (r.start_index + length l) r ≡ (ok (without_cr l), behind_line)
  unfolding line_at behind_line
  line_at-lem clean =
      let len = length-buffer r before pending free lay in
      let bound = lay.small in
      elim (Bool-cases (length l == 0)) [
        | inl empty ↦
            let no_line : l ≡ [] = nil_of_length l (ground arith) in
            let here : r.start_index + length l ≡ r.start_index = ground arith in
            let no_cr : (not (r.start_index == 0) && get_or r.buffer (r.start_index - 1) 0 == 0x0d)
                ≡ false =
              ground (arith, clean) in
            let none_taken : sub_uint32 r.start_index r.start_index ≡ 0 =
              ground (arith, lay.starts, len, bound) in
            rw here (
              rw no_cr (
                rw none_taken (
                  rw (view-lem 0 (omega arith)) (
                    ap (λ x. (ok x, record r { start_index = r.start_index + 1 }))
                      (sym (ap without_cr no_line))))))
        | inr some_line ↦
            let later : (r.start_index + length l == 0) ≡ false = ground arith in
            let last = last_byte (ground arith) in
            rw later (
              rw last elim (Bool-cases (get_or l (length l - 1) 0 == 0x0d)) [
                | inl cr ↦
                    let count : sub_uint32 (r.start_index + length l - 1) r.start_index
                        ≡ length l - 1 =
                      ground (arith, lay.starts, len, bound, whole_line) in
                    rw cr (rw count (rw (view-lem (length l - 1) (omega arith)) refl))
                | inr plain ↦
                    let count : sub_uint32 (r.start_index + length l) r.start_index ≡ length l =
                      ground (arith, lay.starts, len, bound, whole_line) in
                    rw plain (
                      rw count (
                        rw (view-lem (length l) (omega arith))
                          (rw (take_all (length l) l (omega arith)) refl)))
              ])
      ]
