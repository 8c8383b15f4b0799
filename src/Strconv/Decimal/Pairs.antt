-- ===== src/Strconv/Decimal/Pairs.antt =====
-- The loop that writes two digits a round, against the decimal text.
use mathlib.Core.List.{append_assoc}
use cupcake.Base.Word.{size_mod, sub_size}
use cupcake.Base.{
  ℕ, zero, suc, ◌+◌, ◌-◌, ◌*◌, ◌/◌, ◌%◌, ◌≤◌, ◌<◌, ◌≡◌, refl, ap, true, inl, inr, [], ◌∷◌, ◌++◌,
  some, arith, ltb, leb, Bool-cases, Bytes, ◌&&◌, length, drop, set, get_or, length-append,
  length-set, ==_iff, ◌==◌, all_below, all_below_sound,
}
use cupcake.Strconv.Buffer.{store, Prints}
use cupcake.Strconv.Digit.{value_as_char}
use cupcake.Strconv.Table.{two_digit_lookup}
use cupcake.Strconv.Text.{text, text_small, text_step}
use cupcake.Strconv.Decimal.Digits.{decimal_length, decimal_length_pos}
use cupcake.Strconv.Decimal.{store_pair, last_digits, digit_pairs, print_digits}

-- The two characters of a number below 100.
abbrev high_char : ℕ → ℕ
high_char v = value_as_char (v / 10)

abbrev low_char : ℕ → ℕ
low_char v = value_as_char (v % 10)

lookup_table :
    all_below 100 (λ v.
      get_or two_digit_lookup (v * 2) 0 == high_char v
      && get_or two_digit_lookup (v * 2 + 1) 0 == low_char v)
    ≡ true
unfolding all_below two_digit_lookup value_as_char
lookup_table = refl

lookup_pair :
    (v : ℕ)
    → v < 100
    → (get_or two_digit_lookup (v * 2) 0 ≡ high_char v)
      × (get_or two_digit_lookup (v * 2 + 1) 0 ≡ low_char v)
lookup_pair v h = ground (
  arith,
  all_below_sound 100 _ v lookup_table h,
  ==_iff (get_or two_digit_lookup (v * 2) 0) (high_char v),
  ==_iff (get_or two_digit_lookup (v * 2 + 1) 0) (low_char v),
)

value_as_char_small : (d : ℕ) → d < 10 → value_as_char d ≡ b'0' + d
unfolding value_as_char
value_as_char_small d h = ground arith

drop-set-set :
    (n : ℕ) (buffer : Bytes) (x y : ℕ)
    → suc n < length buffer
    → drop n (set (set buffer (suc n) y) n x) ≡ x ∷ y ∷ drop (suc (suc n)) buffer
drop-set-set n [] x y h = absurd (omega arith)
drop-set-set n (a ∷ []) x y h = absurd (omega arith)
drop-set-set zero (a ∷ b ∷ buffer) x y h = refl
drop-set-set (suc n) (a ∷ b ∷ buffer) x y h = drop-set-set n (b ∷ buffer) x y (omega arith)

-- What a round leaves: the two characters of `v`, in front of what was behind them.
store_pair_lem :
    (buffer : Bytes) (n v : ℕ)
    → v < 100
    → suc n < length buffer
    → n < size_mod
    → suc n < size_mod
    → (buffer' : Bytes) × (store_pair buffer (suc n) (v * 2) ≡ some buffer')
      × (length buffer' ≡ length buffer)
      × (drop n buffer' ≡ high_char v ∷ low_char v ∷ drop (suc (suc n)) buffer)
unfolding store_pair store
store_pair_lem buffer n v small fits room room' =
    let lengths = length-set buffer (suc n) (low_char v) in
    let wrap : sub_size (suc n) 1 ≡ n = omega arith in
    (
      set (set buffer (suc n) (low_char v)) n (high_char v),
      ground (arith, wrap, lookup_pair v small, lengths),
      omega (arith, length-set (set buffer (suc n) (low_char v)) n (high_char v), lengths),
      drop-set-set n buffer (high_char v) (low_char v) fits,
    )

text_pair :
    (v : ℕ)
    → 100 ≤ v
    → text 10 v ≡ text 10 (v / 100) ++ (high_char (v % 100) ∷ low_char (v % 100) ∷ [])
text_pair v h =
    let whole : v / 10 / 10 ≡ v / 100 = omega arith in
    let low : v % 10 ≡ v % 100 % 10 = omega arith in
    let high : v / 10 % 10 ≡ v % 100 / 10 = omega arith in
    ground (
      arith,
      text_step 10 (omega arith) v,
      text_step 10 (omega arith) (v / 10),
      append_assoc (text 10 (v / 100)) (high_char (v % 100) ∷ []) (low_char (v % 100) ∷ []),
    )

text_two_digits : (v : ℕ) → 10 ≤ v → v < 100 → text 10 v ≡ high_char v ∷ low_char v ∷ []
text_two_digits v l h =
    ground (arith, text_step 10 (omega arith) v l, text_small 10 (omega arith) (v / 10))

last_small :
    (v : ℕ) (buffer : Bytes)
    → v < 10
    → 0 < length buffer
    → last_digits v 0 buffer ≡ some (text 10 v ++ drop 1 buffer)
unfolding last_digits store
last_small v [] h fits = absurd (omega arith)
last_small v (c ∷ buffer) h fits =
    ground (arith, text_small 10 (omega arith) v h, value_as_char_small v h)

last_pair :
    (v : ℕ) (buffer : Bytes)
    → 10 ≤ v
    → v < 100
    → 1 < length buffer
    → last_digits v 1 buffer ≡ some (text 10 v ++ drop 2 buffer)
unfolding last_digits
last_pair v buffer l h fits =
    let (buffer', stored, len, behind) =
      store_pair_lem buffer 0 v h fits (omega arith) (omega arith) in
    ground (arith, text_two_digits v l h)

-- The last digits fill the front of the buffer up to `next`.
last_digits_lem :
    (v next : ℕ) (buffer : Bytes)
    → v < 100
    → suc next ≡ decimal_length v
    → next < length buffer
    → last_digits v next buffer ≡ some (text 10 v ++ drop (suc next) buffer)
last_digits_lem v next buffer h l fits = elim (Bool-cases (ltb v 10)) [
  | inl small ↦
      let zero_next : next ≡ 0 = ground (arith, text_small 10 (omega arith) v) in
      rw zero_next (last_small v buffer (ground arith) (omega arith))
  | inr large ↦
      let one_next : next ≡ 1 = ground (arith, text_two_digits v) in
      rw one_next (last_pair v buffer (ground arith) h (omega arith))
]

length-text_pair : (v : ℕ) → 100 ≤ v → decimal_length v ≡ decimal_length (v / 100) + 2
length-text_pair v h = omega (
  arith,
  ap length (text_pair v h),
  length-append (text 10 (v / 100)) (high_char (v % 100) ∷ low_char (v % 100) ∷ []),
)

digit_pairs_lem :
    (f v next : ℕ) (buffer : Bytes)
    → decimal_length v ≤ f
    → suc next ≡ decimal_length v
    → next < length buffer
    → next < size_mod
    → digit_pairs f v next buffer ≡ some (text 10 v ++ drop (suc next) buffer)
unfolding digit_pairs
digit_pairs_lem zero v next buffer h l fits room = absurd (omega arith)
digit_pairs_lem (suc f) v next buffer h l fits room = elim (Bool-cases (leb 100 v)) [
  | inl more ↦
      let big : 100 ≤ v = ground arith in
      let n = next - 2 in
      let len = length-text_pair v big in
      let pos = decimal_length_pos (v / 100) in
      let (buffer', stored, same, behind) =
        store_pair_lem buffer (suc n) (v % 100) (omega arith) (omega arith) (omega arith)
          (omega arith) in
      let next_is : next ≡ suc (suc n) = omega arith in
      let wrap : sub_size (suc (suc n)) 2 ≡ n = omega arith in
      let rest =
        digit_pairs_lem f (v / 100) n buffer' (omega arith) (omega arith) (omega arith)
          (omega arith) in
      ground (
        arith,
        text_pair v big,
        append_assoc (text 10 (v / 100)) (high_char (v % 100) ∷ low_char (v % 100) ∷ [])
            (drop (suc (suc (suc n))) buffer),
      )
  | inr last ↦ ground (arith, last_digits_lem v next buffer)
]

-- The loop prints the decimal text, in whatever buffer has room for it.
pub print_digits-Prints :
    (len v : ℕ) → len ≡ decimal_length v → len < size_mod → Prints (print_digits len v) (text 10 v)
unfolding print_digits
print_digits-Prints len v l small buffer fits =
    let pos = decimal_length_pos v in
    let wrap : sub_size len 1 ≡ len - 1 = omega arith in
    let next : suc (len - 1) ≡ len = omega arith in
    ground (arith, digit_pairs_lem len v (len - 1) buffer)
