-- ===== src/Http/Connection/HeaderLine.antt =====
-- The header lines that `parseHeaderLine` takes.
use mathlib.Core.Path.{subst}
use mathlib.Core.List.{append_assoc, append-nil}
use cupcake.Base.{
  ℕ, zero, suc, ◌≤◌, ◌≡◌, ◌∙◌, refl, sym, ap, true, false, ◌||◌, [], ◌∷◌, ◌++◌, arith, ◌==◌, Bytes,
  Lacks, Lacks-append, length, length-append,
}
use cupcake.Http.CommaList.{is_blank}
use cupcake.Http.Connection.{
  fine, Connection, pad_length, trim_name, trim_value, split_header, parse_header_line,
}
use cupcake.Http.Request.{add_header}
use cupcake.StringRef.Compare.{ends_with_char}
use cupcake.Http.Connection.Parts.{
  index_of_char-append, substring_front, substring_back, ends_with_char-snoc, butlast, snoc,
}

-- Spaces and tabs.
abbrev pub AreBlanks : Bytes → Type 0
AreBlanks [] = Unit {0}
AreBlanks (x ∷ xs) = (is_blank x ≡ true) × AreBlanks xs

abbrev pub StartsPlain : Bytes → Type 0
StartsPlain [] = Unit {0}
StartsPlain (x ∷ xs) = is_blank x ≡ false

AreBlanks-split : (xs ys : Bytes) → AreBlanks (xs ++ ys) → AreBlanks xs × AreBlanks ys
AreBlanks-split [] ys h = (tt, h)
AreBlanks-split (x ∷ xs) ys h = let (a, b) = AreBlanks-split xs ys h.1 in ((h.0, a), b)

-- A name that is empty or ends in a byte that is no blank.
abbrev pub EndsPlain : Bytes → Type 0
EndsPlain name = (front : Bytes) × (y : ℕ) × (name ≡ front ++ y ∷ []) × (is_blank y ≡ false)

trim_name_plain : (f : ℕ) (name : Bytes) → EndsPlain name → trim_name f name ≡ name
unfolding trim_name
trim_name_plain zero name h = refl
trim_name_plain (suc f) name (front, y, e, plain) =
    let last : (ends_with_char name 0x20 || ends_with_char name 0x09) ≡ false =
      ap (λ s. ends_with_char s 0x20 || ends_with_char s 0x09) e
      ∙ ap (λ b. b || ends_with_char (front ++ y ∷ []) 0x09) (ends_with_char-snoc front y 0x20)
      ∙ ap (λ b. y == 0x20 || b) (ends_with_char-snoc front y 0x09)
      ∙ plain in
    rw last refl

trim_name-lem :
    (f : ℕ) (name ps : Bytes)
    → EndsPlain name
    → AreBlanks ps
    → length ps ≤ f
    → trim_name f (name ++ ps) ≡ name
unfolding trim_name
trim_name-lem f name [] h blanks enough =
    ap (trim_name f) (append-nil name) ∙ trim_name_plain f name h
trim_name-lem zero name (p ∷ ps) h blanks enough = absurd (omega arith)
trim_name-lem (suc f) name (p ∷ ps) h blanks enough =
    let (front, z, e) = snoc p ps in
    let (front-blanks, last-blank) = AreBlanks-split front (z ∷ []) (subst AreBlanks e blanks) in
    let whole : name ++ p ∷ ps ≡ (name ++ front) ++ z ∷ [] =
      ap (◌++◌ name) e ∙ sym (append_assoc name front (z ∷ [])) in
    let more : (ends_with_char ((name ++ front) ++ z ∷ []) 0x20
          || ends_with_char ((name ++ front) ++ z ∷ []) 0x09)
        ≡ true =
      ap (λ b. b || ends_with_char ((name ++ front) ++ z ∷ []) 0x09)
        (ends_with_char-snoc (name ++ front) z 0x20)
      ∙ ap (λ b. z == 0x20 || b) (ends_with_char-snoc (name ++ front) z 0x09)
      ∙ last-blank.0 in
    let size = ap length e ∙ length-append front (z ∷ []) in
    ap (trim_name (suc f)) whole
    ∙ rw more (
        ap (trim_name f) (butlast (name ++ front) z)
        ∙ trim_name-lem f name front h front-blanks (omega (arith, size, enough)))

trim_value-lem :
    (qs value : Bytes) → AreBlanks qs → StartsPlain value → trim_value (qs ++ value) ≡ value
unfolding trim_value
trim_value-lem [] [] h plain = refl
trim_value-lem [] (x ∷ value) h plain = rw plain refl
trim_value-lem (q ∷ qs) value h plain = rw h.0 (trim_value-lem qs value h.1 plain)

blanks-Lacks : (ps : Bytes) → AreBlanks ps → Lacks b':' ps
blanks-Lacks [] h = tt
blanks-Lacks (p ∷ ps) h = ((λ e. ground (arith, h.0)), blanks-Lacks ps h.1)

split_header-lem :
    (name ps qs value : Bytes) (c : Connection)
    → EndsPlain name
    → Lacks b':' name
    → AreBlanks ps
    → AreBlanks qs
    → StartsPlain value
    → split_header ((name ++ ps) ++ b':' ∷ (qs ++ value)) c
      ≡ (fine, record c { request_data = add_header name value c.request_data })
unfolding split_header
split_header-lem name ps qs value c ends plain blanks blanks' starts =
    let there =
      index_of_char-append b':' (name ++ ps) (qs ++ value)
        (Lacks-append b':' name ps plain (blanks-Lacks ps blanks)) in
    let enough = length-append name ps in
    let trimmed = trim_name-lem (length (name ++ ps)) name ps ends blanks (omega (arith, enough)) in
    let kept = trim_value-lem qs value blanks' starts in
    rw (there, split_header)
      (rw (substring_front (name ++ ps) (b':' ∷ (qs ++ value)))
        (rw (substring_back (name ++ ps) (qs ++ value) b':') (rw trimmed (rw kept refl))))

-- A header line is a name with no colon that neither starts nor ends with a space or tab, any spaces
-- and tabs, a colon, any spaces and tabs, and a value that does not start with one. For every such line
-- `parseHeaderLine` adds just this name and value to the request, whatever bytes stand behind the line,
-- and the value may hold colons and any other bytes.
pub parse_header_line-add_header :
    (x : ℕ) (xs ps qs value behind : Bytes) (c : Connection)
    → is_blank x ≡ false
    → EndsPlain (x ∷ xs)
    → Lacks b':' (x ∷ xs)
    → AreBlanks ps
    → AreBlanks qs
    → StartsPlain value
    → parse_header_line (((x ∷ xs) ++ ps) ++ b':' ∷ (qs ++ value)) behind c
      ≡ (fine, record c { request_data = add_header (x ∷ xs) value c.request_data })
unfolding parse_header_line pad_length
parse_header_line-add_header x xs ps qs value behind c starts ends plain blanks blanks' starts' =
    let some_byte : (suc (length ((xs ++ ps) ++ b':' ∷ (qs ++ value))) == 0) ≡ false =
      ground arith in
    rw some_byte
      (rw starts (split_header-lem (x ∷ xs) ps qs value c ends plain blanks blanks' starts'))
