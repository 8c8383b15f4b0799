-- ===== src/Strconv/Digit.antt =====
-- The digit tables of src/text/Strconv.cpp. Of the `int8_t` entries of `charValue`, -1 is `none`.
use cupcake.Base.{
  ℕ, ◌+◌, ◌-◌, ◌<◌, ◌≡◌, refl, Bool, ◌&&◌, Option, none, some, arith, ltb, leb, if◌then◌else◌,
  ◌>>=◌,
}

within : ℕ → ℕ → ℕ → Bool
within lo hi c = leb lo c && leb c hi

-- `charValue[c]`
unfoldable pub char_value : ℕ → Option ℕ
unfolding within
char_value c =
    if within b'0' b'9' c
    then some (c - b'0')
    else if within b'A' b'F' c
    then some (c - b'A' + 10)
    else if within b'a' b'f' c
    then some (c - b'a' + 10)
    else none

-- `valueAsChar[d]`, for the digits 0 to 15.
unfoldable pub value_as_char : ℕ → ℕ
value_as_char d = if ltb d 10 then b'0' + d else b'A' + (d - 10)

-- The test `digitVal < 0 || digitVal >= radix` of each parser, passed by `some`.
unfoldable pub digit_value : ℕ → ℕ → Option ℕ
digit_value radix c = do d ← char_value c; if leb radix d then none else some d

pub char_value-lt : (c : ℕ) {d : ℕ} → char_value c ≡ some d → d < 16
unfolding char_value
char_value-lt c h = ground arith

pub digit_value-lt : (radix c : ℕ) {d : ℕ} → digit_value radix c ≡ some d → d < radix
unfolding digit_value
digit_value-lt radix c h = ground arith

pub digit_value-lt_16 : (radix c : ℕ) {d : ℕ} → digit_value radix c ≡ some d → d < 16
unfolding digit_value char_value
digit_value-lt_16 radix c h = ground arith

pub char_value-value_as_char : (d : ℕ) → d < 16 → char_value (value_as_char d) ≡ some d
unfolding char_value value_as_char
char_value-value_as_char d h = ground arith

pub digit_value-value_as_char :
    (radix d : ℕ) → d < radix → d < 16 → digit_value radix (value_as_char d) ≡ some d
unfolding digit_value
digit_value-value_as_char radix d h k = ground (arith, char_value-value_as_char d k)

-- The sign is no digit.
pub digit_value_minus : (radix : ℕ) → digit_value radix b'-' ≡ none
unfolding digit_value char_value
digit_value_minus radix = refl
