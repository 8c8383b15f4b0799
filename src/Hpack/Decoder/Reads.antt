-- ===== src/Hpack/Decoder/Reads.antt =====
-- The reads keep the table and never run off the data.
use cupcake.Base.{
  ℕ, ◌-◌, ◌*◌, ◌/◌, ◌%◌, ◌^◌, ◌≤◌, ◌<◌, ◌≡◌, refl, ap, Bool, true, false, inl, inr, Bool-cases, [],
  ◌∷◌, arith, ltb, ◌==◌, if◌then◌else◌, Bytes, length, drop, take, length-drop, length-take,
}
use cupcake.Base.Word.{add_uint32, sub_uint32, uint32_mod}
use cupcake.Hpack.Decoder.Ensures.{Ensures, bind-Ensures, weaken, NoWrap, NoWrap-drop, Reading}
use cupcake.Hpack.Reader.Literal.{advance_by_lem}
use cupcake.Hpack.Reader.{
  Result, ok, refused, fault, dangling, Decoder, M, ◌>>=◌, give, refuse, current, byte_of, next_of,
  next_byte, read_number, advance_by, literal_bytes, literal_length, read_string_literal, extension,
  from_fifth, from_fourth, from_third, from_second,
}
use cupcake.Hpack.Table.{Table}
use cupcake.Huffman.Decode.{length-decode}
use cupcake.Huffman.Decode
use cupcake.Hpack.Decoder.{prefixed}

length-text :
    (huffman : Bool) (raw : Bytes)
    → length (if huffman then (Decode.decode [] raw).0 else raw) ≤ 2 * length raw
length-text true raw = length-decode raw
length-text false raw = omega arith

module _ (n : ℕ) (t : Table) where
  pub current-Ensures : (d : Decoder) → Reading n t d → Ensures (λ _ d'. Reading n t d') (current d)
  unfolding current
  current-Ensures d r = go d.data_left refl
    where
      go : (cs : Bytes) → d.data_left ≡ cs → Ensures (λ _ d'. Reading n t d') (byte_of cs d)
      go [] e = absurd (omega (arith, ap length e, r.some_left))
      go (c ∷ cs) e = r

  pub next_byte-Ensures :
      (d : Decoder) → Reading n t d → Ensures (λ _ d'. Reading n t d') (next_byte d)
  unfolding next_byte
  next_byte-Ensures d r = go d.data_left refl
    where
      go : (cs : Bytes) → d.data_left ≡ cs → Ensures (λ _ d'. Reading n t d') (next_of cs d)
      go [] e = tt
      go (c ∷ []) e = tt
      go (c ∷ next ∷ rest) e = record {
        same_table = r.same_table;
        calm = (rw e at r.calm).1;
        left = omega (arith, ap length e, r.left);
        some_left = omega arith;
      }

  abbrev Number : ℕ → Decoder → Type 0
  Number v d = Reading n t d × (v < uint32_mod)

  extension-Ensures :
      (shift res_val : ℕ) (more : ℕ → M ℕ) (d : Decoder)
      → Reading n t d
      → ((v : ℕ) (d' : Decoder) → Reading n t d' → Ensures Number (more v d'))
      → Ensures Number (extension shift res_val more d)
  extension-Ensures shift res_val more d r k =
      bind-Ensures (λ _ d'. Reading n t d') Number next_byte _ d (next_byte-Ensures d r)
        λ byte d' r'.
          let v = add_uint32 res_val (byte % 128 * 2 ^ shift) in
          elim (Bool-cases (byte / 128 % 2 == 0)) [
            | inl done ↦ rw done (r', omega arith)
            | inr on ↦ rw on (k v d' r')
          ]

  from_fifth-Ensures : (v : ℕ) (d : Decoder) → Reading n t d → Ensures Number (from_fifth v d)
  unfolding from_fifth
  from_fifth-Ensures v d r =
      let last : ℕ → M ℕ =
        λ byte. if ltb 0xf byte then refuse else give (add_uint32 v (byte * 2 ^ 28)) in
      bind-Ensures (λ _ d'. Reading n t d') Number next_byte last d (next_byte-Ensures d r)
        λ byte d' r'. elim (Bool-cases (ltb 0xf byte)) [
          | inl over ↦ rw over tt
          | inr within ↦ rw within (r', omega arith)
        ]

  from_fourth-Ensures : (v : ℕ) (d : Decoder) → Reading n t d → Ensures Number (from_fourth v d)
  unfolding from_fourth
  from_fourth-Ensures v d r = extension-Ensures 21 v from_fifth d r from_fifth-Ensures

  from_third-Ensures : (v : ℕ) (d : Decoder) → Reading n t d → Ensures Number (from_third v d)
  unfolding from_third
  from_third-Ensures v d r = extension-Ensures 14 v from_fourth d r from_fourth-Ensures

  from_second-Ensures : (v : ℕ) (d : Decoder) → Reading n t d → Ensures Number (from_second v d)
  unfolding from_second
  from_second-Ensures v d r = extension-Ensures 7 v from_third d r from_third-Ensures

  read_number_keeps :
      (prefix : ℕ) (d : Decoder) → Reading n t d → Ensures Number (read_number prefix d)
  unfolding read_number
  read_number_keeps prefix d r = extension-Ensures 0 prefix from_second d r from_second-Ensures

  -- A number does not come out below its prefix.
  read_number-Ensures :
      (prefix : ℕ) (d : Decoder)
      → prefix < 128
      → Reading n t d
      → Ensures (λ v d'. Reading n t d' × (prefix ≤ v) × (v < uint32_mod)) (read_number prefix d)
  read_number-Ensures prefix d h r =
      go (read_number prefix d) refl d.data_left refl (read_number_keeps prefix d r)
    where
      go :
          (res : Result (ℕ × Decoder))
          → read_number prefix d ≡ res
          → (cs : Bytes) → d.data_left ≡ cs
          → Ensures Number res
          → Ensures (λ v d'. Reading n t d' × (prefix ≤ v) × (v < uint32_mod)) res
      go (ok (v, d')) e [] left k = absurd (omega (arith, ap length left, r.some_left))
      go (ok (v, d')) e (c ∷ cs) left k = (k.0, (rw left at r.calm).0 d d' prefix v left h e, k.1)
      go refused e cs left k = tt
      go fault e cs left k = k
      go dangling e cs left k = tt

  pub prefixed-Ensures :
      (mask first : ℕ) (d : Decoder)
      → 0 < first
      → mask < 128
      → 0 < mask
      → Reading n t d
      → Ensures (λ v d'. Reading n t d' × (0 < v) × (v < uint32_mod)) (prefixed mask first d)
  unfolding prefixed
  prefixed-Ensures mask first d pos small some r = elim (Bool-cases (ltb first mask)) [
    | inl short ↦ rw short (r, pos, ground arith)
    | inr long ↦ rw long (
        weaken (λ v d'. Reading n t d' × (mask ≤ v) × (v < uint32_mod))
          (λ v d'. Reading n t d' × (0 < v) × (v < uint32_mod)) _
          (read_number-Ensures mask d small r) (λ v d' p. (p.0, omega (arith, p.1), p.2)))
  ]

  pub prefixed_any :
      (mask first : ℕ) (d : Decoder)
      → mask < 128
      → Reading n t d
      → Ensures (λ v d'. Reading n t d' × (v < uint32_mod)) (prefixed mask first d)
  unfolding prefixed
  prefixed_any mask first d small r = elim (Bool-cases (ltb first mask)) [
    | inl short ↦ rw short (r, ground arith)
    | inr long ↦ rw long (read_number_keeps mask d r)
  ]

  literal_bytes-Ensures :
      (huffman : Bool) (len : ℕ) (d : Decoder)
      → 0 < len
      → n < uint32_mod
      → d.table ≡ t
      → NoWrap d.data_left
      → length d.data_left ≤ n
      → Ensures (λ s d'. Reading n t d' × (length s ≤ 2 * n)) (literal_bytes huffman len d)
  unfolding literal_bytes
  literal_bytes-Ensures huffman len d pos small same calm left =
      elim (Bool-cases (ltb (length d.data_left) len)) [
        | inl over ↦ rw over tt
        | inr within ↦
            let fits : len ≤ length d.data_left = ground arith in
            let wrap : sub_uint32 len 1 ≡ len - 1 = omega arith in
            let moved = advance_by_lem (len - 1) d (omega arith) in
            rw within (
              rw wrap (
                rw (moved, ◌>>=◌)
                  (
                    record {
                      same_table = same;
                      calm = NoWrap-drop (len - 1) d.data_left calm;
                      left = omega (arith, length-drop (len - 1) d.data_left);
                      some_left = omega (arith, length-drop (len - 1) d.data_left);
                    },
                    omega (
                      arith,
                      length-text huffman (take len d.data_left),
                      length-take len d.data_left,
                    ),
                  )))
      ]

  from_length-Ensures :
      (huffman : Bool) (len : ℕ) (d : Decoder)
      → 0 < len
      → n < uint32_mod
      → Reading n t d
      → Ensures
          (λ s d'. Reading n t d' × (length s ≤ 2 * n))
          ((advance_by 1 >>= λ _. literal_bytes huffman len) d)
  from_length-Ensures huffman len d pos small r =
      rw (advance_by_lem 1 d r.some_left, ◌>>=◌)
        (literal_bytes-Ensures huffman len (record d { data_left = drop 1 d.data_left }) pos small
          r.same_table (NoWrap-drop 1 d.data_left r.calm)
          (omega (arith, length-drop 1 d.data_left, r.left)))

  literal_length-Ensures :
      (initial : ℕ) (d : Decoder)
      → Reading n t d
      → Ensures (λ v d'. Reading n t d' × (0 < v)) (literal_length initial d)
  unfolding literal_length
  literal_length-Ensures initial d r = elim (Bool-cases (initial % 128 == 0)) [
    | inl zero_bits ↦ rw zero_bits (
        weaken (λ v d'. Reading n t d' × (127 ≤ v) × (v < uint32_mod))
          (λ v d'. Reading n t d' × (0 < v)) _ (read_number-Ensures 127 d (omega arith) r)
          (λ v d' p. (p.0, omega (arith, p.1))))
    | inr some_bits ↦ rw some_bits (r, ground arith)
  ]

  pub read_string_literal-Ensures :
      (d : Decoder)
      → n < uint32_mod
      → Reading n t d
      → Ensures (λ s d'. Reading n t d' × (length s ≤ 2 * n)) (read_string_literal d)
  unfolding read_string_literal
  read_string_literal-Ensures d small r =
      bind-Ensures (λ _ d'. Reading n t d') (λ s d'. Reading n t d' × (length s ≤ 2 * n)) next_byte
        _ d (next_byte-Ensures d r)
        λ initial d1 r1.
          bind-Ensures (λ v d'. Reading n t d' × (0 < v))
            (λ s d'. Reading n t d' × (length s ≤ 2 * n)) (literal_length initial) _ d1
            (literal_length-Ensures initial d1 r1)
            λ len d2 r2. from_length-Ensures (initial / 128 % 2 == 1) len d2 r2.1 small r2.0
