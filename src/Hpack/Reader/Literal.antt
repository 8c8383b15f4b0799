-- ===== src/Hpack/Reader/Literal.antt =====
-- `readStringLiteral` against the string literals of RFC 7541, section 5.2, that are not Huffman
-- coded.
use cupcake.Base.{
  ℕ, suc, ◌+◌, ◌/◌, ◌%◌, ◌≤◌, ◌<◌, ◌≡◌, refl, ap, ◌∙◌, Bool, true, false, [], ◌∷◌, ◌++◌, arith, ltb,
  ◌==◌, Bytes, length, drop, length-append, take-length-append,
}
use cupcake.Base.Word.{sub_uint32, uint32_mod}
use cupcake.Hpack.Reader.Number.{last_of, encode_extension, read_number-encode}
use cupcake.Hpack.Reader.{
  bind-eq_of_ok, ok, refused, Decoder, ◌>>=◌, next_byte, advance_by, literal_bytes, read_number,
  read_string_literal,
}

drop_to_last : (x : ℕ) (s rest : Bytes) → drop (length s) (x ∷ (s ++ rest)) ≡ last_of x s ∷ rest
drop_to_last x [] rest = refl
drop_to_last x (y ∷ s) rest = drop_to_last y s rest

pub advance_by_lem :
    (count : ℕ) (d : Decoder)
    → count ≤ length d.data_left
    → advance_by count d ≡ ok (tt, record d { data_left = drop count d.data_left })
unfolding advance_by
advance_by_lem count d h = ground arith

literal_bytes_plain :
    (d : Decoder) (x : ℕ) (s rest : Bytes)
    → length (x ∷ s) < uint32_mod
    → literal_bytes false (length (x ∷ s)) (record d { data_left = x ∷ (s ++ rest) })
      ≡ ok (x ∷ s, record d { data_left = last_of x s ∷ rest })
unfolding literal_bytes
literal_bytes_plain d x s rest h =
    let wrap : sub_uint32 (suc (length s)) 1 ≡ length s = omega arith in
    ground (
      arith,
      wrap,
      advance_by_lem (length s) (record d { data_left = x ∷ (s ++ rest) }),
      drop_to_last x s rest,
      take-length-append s rest,
      length-append s rest,
    )

-- A plain literal of 1 to 126 bytes behind the current byte is read as it stands, and its last byte is
-- the current one then.
pub read_string_literal-encode :
    (d : Decoder) (c x : ℕ) (s rest : Bytes)
    → length (x ∷ s) < 127
    → read_string_literal (record d { data_left = c ∷ length (x ∷ s) ∷ x ∷ (s ++ rest) })
      ≡ ok (x ∷ s, record d { data_left = last_of x s ∷ rest })
unfolding read_string_literal next_byte
read_string_literal-encode d c x s rest h =
    let low : suc (length s) % 128 ≡ suc (length s) = omega arith in
    let top : suc (length s) / 128 % 2 ≡ 0 = omega arith in
    let some_bytes : (suc (length s) == 0) ≡ false = ground arith in
    let all : Decoder = record d { data_left = length (x ∷ s) ∷ x ∷ (s ++ rest) } in
    rw (low, top)
      (rw some_bytes (
        bind-eq_of_ok (advance_by 1) (λ _. literal_bytes false (length (x ∷ s))) all
          (advance_by_lem 1 all (omega arith))
        ∙ literal_bytes_plain d x s rest (omega arith)))

too_long :
    (huffman : Bool) (len : ℕ) (d : Decoder)
    → length d.data_left < len
    → literal_bytes huffman len d ≡ refused
unfolding literal_bytes
too_long huffman len d h = let over : ltb (length d.data_left) len ≡ true = ground arith in rw over

-- An empty plain literal is taken for one whose length follows as a number: it is refused at the end
-- of the data, and wherever the bytes behind it start with a number `e`, with 127 + `e` below 2^32, and
-- fewer than 127 + `e` bytes follow.
pub empty_literal_refused :
    (d : Decoder) (c e : ℕ) (rest : Bytes)
    → 127 + e < uint32_mod
    → length rest < 127 + e
    → (read_string_literal (record d { data_left = c ∷ 0 ∷ [] }) ≡ refused)
      × (read_string_literal (record d { data_left = c ∷ 0 ∷ (encode_extension e ++ rest) })
          ≡ refused)
unfolding read_string_literal next_byte
empty_literal_refused d c e rest h short =
    let start : Decoder = record d { data_left = 0 ∷ (encode_extension e ++ rest) } in
    let read : Decoder = record d { data_left = last_of 0 (encode_extension e) ∷ rest } in
    let wrap : (127 + e) % uint32_mod ≡ 127 + e = omega arith in
    let tail = λ (len : ℕ). advance_by 1 >>= λ _. literal_bytes false len in
    (
      unfold read_number in refl,
      bind-eq_of_ok (read_number 127) tail start
            (read_number-encode d 0 127 e rest (omega arith) (omega arith))
          ∙ rw wrap (
              bind-eq_of_ok (advance_by 1) (λ _. literal_bytes false (127 + e)) read
                (advance_by_lem 1 read (omega arith))
              ∙ too_long false (127 + e) (record d { data_left = rest }) short),
    )

-- A length byte of 127, which a literal of 127 bytes or more starts with, is taken for the length: the
-- 127 bytes that follow are read as the literal, the rest of the length among them.
pub long_literal_misread :
    (d : Decoder) (c x : ℕ) (s rest : Bytes)
    → length s ≡ 126
    → read_string_literal (record d { data_left = c ∷ 127 ∷ x ∷ (s ++ rest) })
      ≡ ok (x ∷ s, record d { data_left = last_of x s ∷ rest })
unfolding read_string_literal next_byte
long_literal_misread d c x s rest h =
    let all : Decoder = record d { data_left = 127 ∷ x ∷ (s ++ rest) } in
    let len : 127 ≡ length (x ∷ s) = omega arith in
    bind-eq_of_ok (advance_by 1) (λ _. literal_bytes false 127) all
      (advance_by_lem 1 all (omega arith))
    ∙ ap (λ n. literal_bytes false n (record d { data_left = x ∷ (s ++ rest) })) len
    ∙ literal_bytes_plain d x s rest (omega arith)
