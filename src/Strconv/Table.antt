-- ===== src/Strconv/Table.antt =====
-- The constant texts of src/text/Strconv.cpp.
use cupcake.Base.{[], ◌∷◌, List, Bytes, codes}

-- `INT32_MIN_STR` and `INT64_MIN_STR`
abbrev pub int32_min_str : Bytes
int32_min_str = codes "-2147483648"

abbrev pub int64_min_str : Bytes
int64_min_str = codes "-9223372036854775808"

-- Indexed by the radix; the null pointers at 0 and 1 are empty texts.
unfoldable pub int32_min_values : List Bytes
int32_min_values =
    []
    ∷ []
    ∷ codes "-10000000000000000000000000000000"
    ∷ codes "-12112122212110202102"
    ∷ codes "-2000000000000000"
    ∷ codes "-13344223434043"
    ∷ codes "-553032005532"
    ∷ codes "-104134211162"
    ∷ codes "-20000000000"
    ∷ codes "-5478773672"
    ∷ codes "-2147483648"
    ∷ codes "-A02220282"
    ∷ codes "-4BB2308A8"
    ∷ codes "-282BA4AAB"
    ∷ codes "-1652CA932"
    ∷ codes "-C87E66B8"
    ∷ codes "-80000000"
    ∷ []

unfoldable pub int64_min_values : List Bytes
int64_min_values =
    []
    ∷ []
    ∷ codes "-1000000000000000000000000000000000000000000000000000000000000000"
    ∷ codes "-2021110011022210012102010021220101220102"
    ∷ codes "-20000000000000000000000000000000"
    ∷ codes "-1104332401304422434310310040"
    ∷ codes "-1540241003031030222122212"
    ∷ codes "-22341010611245052050614"
    ∷ codes "-1000000000000000000000"
    ∷ codes "-67404283172107811766"
    ∷ codes "-9223372036854775808"
    ∷ codes "-1728002635214590966"
    ∷ codes "-41A792678515120368"
    ∷ codes "-10B269549075433515"
    ∷ codes "-4340724C6C71DC7A8"
    ∷ codes "-160E2AD324636666D"
    ∷ codes "-8000000000000000"
    ∷ []

-- `two_digit_lookup`
unfoldable pub two_digit_lookup : Bytes
two_digit_lookup =
    codes
      "00010203040506070809101112131415161718192021222324252627282930313233343536373839404142434445464748495051525354555657585960616263646566676869707172737475767778798081828384858687888990919293949596979899"
