-- ===== src/Http/BufferedReader/Line/Room.antt =====
-- The search for a newline, and the room that `readLine` makes for more bytes.
use mathlib.Core.List.{append-nil}
use cupcake.Http.Stream.{ok}
use cupcake.Base.{
  ltb, take_all, drop_front, drop-drop, nil_of_length, ℕ, zero, suc, ◌+◌, ◌-◌, ◌≤◌, ◌<◌, ◌≡◌, ◌∙◌,
  refl, sym, ap, ◌⊎◌, inl, inr, Bool-cases, false, [], ◌∷◌, ◌++◌, none, some, min, arith, leb, ◌==◌,
  Bytes, Lacks, length, take, drop, length-append, length-drop,
}
use cupcake.Base.Word.{uint32_mod, add_uint32}
use cupcake.Http.BufferedReader.Layout.{
  IsLayout, length-buffer, drop-start, between-lem, take_back, length-new_buffer,
}
use cupcake.Http.BufferedReader.{
  Reader, buffer_len, write_at, between, new_buffer, checked_double, find_newline, make_room,
}

pub find_newline-append :
    (l rest : Bytes) (i : ℕ)
    → Lacks 0x0a l
    → find_newline (l ++ 0x0a ∷ rest) i ≡ some (i + length l)
unfolding find_newline
find_newline-append [] rest i h = ground arith
find_newline-append (c ∷ l) rest i h = ground (arith, find_newline-append l rest (i + 1) h.1, h.0)

pub find_newline-none : (l : Bytes) (i : ℕ) → Lacks 0x0a l → find_newline l i ≡ none
unfolding find_newline
find_newline-none [] i h = refl
find_newline-none (c ∷ l) i h = ground (arith, find_newline-none l (i + 1) h.1, h.0)

pub Lacks-drop : (c n : ℕ) (l : Bytes) → Lacks c l → Lacks c (drop n l)
Lacks-drop c zero l h = h
Lacks-drop c (suc n) [] h = tt
Lacks-drop c (suc n) (x ∷ l) h = Lacks-drop c n l h.1

pub Lacks-front : (c : ℕ) (xs ys : Bytes) → Lacks c (xs ++ ys) → Lacks c xs
Lacks-front c [] ys h = tt
Lacks-front c (x ∷ xs) ys h = (h.0, Lacks-front c xs ys h.1)

module _ (r : Reader) (before pending free : Bytes) (lay : IsLayout r before pending free) where
  pub between-drop :
      (k : ℕ)
      → k ≤ length pending
      → between r.buffer (r.start_index + k) r.end_index ≡ drop k pending
  between-drop k h =
      ap (take (r.end_index - (r.start_index + k))) (
        sym (drop-drop k r.start_index r.buffer)
        ∙ ap (drop k) (drop-start r before pending free lay)
        ∙ drop_front k pending free h)
      ∙ take_back (drop k pending) free (r.end_index - (r.start_index + k))
          (omega (arith, lay.starts, lay.ends, length-drop {A = ℕ} k pending))

-- A text that two splits share: the byte behind `l` comes in the first part, or behind it.
pub split_at :
    (xs ys l rest : Bytes) (c : ℕ)
    → xs ++ ys ≡ l ++ c ∷ rest
    → ((mid : Bytes) × (xs ≡ l ++ c ∷ mid) × (rest ≡ mid ++ ys))
      ⊎ ((mid : Bytes) × (l ≡ xs ++ mid) × (ys ≡ mid ++ c ∷ rest))
split_at [] ys l rest c h = inr (l, refl, h)
split_at (x ∷ xs) ys [] rest c h = inl (xs, ground arith, ground arith)
split_at (x ∷ xs) ys (d ∷ l) rest c h =
    let tails : xs ++ ys ≡ l ++ c ∷ rest = ground arith in
    let heads : x ≡ d = ground arith in
    elim (split_at xs ys l rest c tails) [
      | inl (mid, e, e') ↦ inl (mid, ground (arith, e), e')
      | inr (mid, e, e') ↦ inr (mid, ground (arith, e), e')
    ]

pub make_room-IsLayout :
    (max_length : ℕ) (r : Reader) (before pending free : Bytes)
    → IsLayout r before pending free
    → length pending < max_length
    → max_length + 2 < uint32_mod
    → (r1 : Reader) × (free1 : Bytes) × (make_room max_length r ≡ ok r1)
      × IsLayout r1 [] pending free1
      × (0 < length free1)
      × (r1.source ≡ r.source)
unfolding make_room checked_double
make_room-IsLayout max_length r before pending free lay short small =
    let len = length-buffer r before pending free lay in
    elim (Bool-cases (r.start_index == 0)) [
      | inr moves ↦
          let kept = between-lem r before pending free lay in
          let tail = drop (length pending) r.buffer in
          let left = length-drop {A = ℕ} (length pending) r.buffer in
          let ordered : ltb r.end_index r.start_index ≡ false =
            ground (arith, lay.starts, lay.ends) in
          let zero_place : 0 + length pending ≡ length pending = omega arith in
          (
            record r {
              buffer = write_at r.buffer 0 pending;
              start_index = 0;
              end_index = r.end_index - r.start_index;
            },
            tail,
            rw moves (rw ordered (rw kept refl)),
            record {
              parts = ap (λ k. pending ++ drop k r.buffer) zero_place;
              starts = refl;
              ends = omega (arith, lay.starts, lay.ends);
              some_buffer =
                  rw zero_place
                    (omega (arith, length-append pending tail, left, len, lay.some_buffer));
              small =
                  rw zero_place (omega (arith, length-append pending tail, left, len, lay.small));
            },
            ground (arith, left, len, lay.starts),
            refl,
          )
      | inl stays ↦
          let none_before : before ≡ [] = nil_of_length before (ground (arith, lay.starts)) in
          let whole : r.buffer ≡ pending ++ free =
            lay.parts ∙ ap (λ b. b ++ (pending ++ free)) none_before in
          let starts : r.start_index ≡ 0 = ground arith in
          let ends : r.end_index ≡ length pending =
            omega (arith, lay.ends, ap length none_before) in
          rw stays elim (Bool-cases (r.end_index == buffer_len r)) [
            | inr roomy ↦ (
              r,
              free,
              rw roomy refl,
              record {
                parts = whole;
                starts = starts;
                ends = omega (arith, ends);
                some_buffer = lay.some_buffer;
                small = lay.small;
              },
              ground (arith, len, ends, ap length none_before),
              refl,
            )
            | inl full ↦
                let count : length r.buffer ≡ length pending = ground (arith, ends) in
                let none_free : free ≡ [] = nil_of_length free (omega (arith, len, count)) in
                let below : leb max_length (buffer_len r) ≡ false = ground arith in
                let new_len = min (checked_double (buffer_len r)) (add_uint32 max_length 2) in
                let more : length r.buffer < new_len = ground (arith, lay.some_buffer) in
                let most : new_len < uint32_mod = ground arith in
                let larger : ltb new_len (length r.buffer) ≡ false = ground (arith, more) in
                let fresh = new_buffer (new_len - buffer_len r) in
                let kept = take_all new_len r.buffer (omega (arith, more)) in
                let size = length-append pending fresh in
                let fresh_size = length-new_buffer (new_len - buffer_len r) in
                let grown : take new_len r.buffer ++ fresh ≡ pending ++ fresh =
                  ap (λ b. b ++ fresh)
                    (kept ∙ whole ∙ ap (◌++◌ pending) none_free ∙ append-nil pending) in
                (
                  record r { buffer = take new_len r.buffer ++ fresh },
                  fresh,
                  rw full (rw below (rw larger refl)),
                  record {
                    parts = grown;
                    starts = starts;
                    ends = omega (arith, ends);
                    some_buffer = omega (arith, ap length grown, size, fresh_size, more);
                    small = omega (arith, ap length grown, size, fresh_size, more, most, count);
                  },
                  omega (arith, fresh_size, more),
                  refl,
                )
          ]
    ]
