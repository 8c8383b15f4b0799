-- ===== src/Http/Connection/Special/Framing.antt =====
-- What holds of a head that the connection goes on with.
use cupcake.Base.{
  ℕ, ◌+◌, ◌≤◌, ◌≡◌, ◌∙◌, refl, sym, ap, inl, inr, Bool-cases, Bool, true, false, ◌&&◌, [], ◌∷◌,
  List, Option-cases, arith, Bytes, codes,
}
use cupcake.Http.Connection.Special.{
  is_http1_1, content_length_header, transfer_encoding_header, connection_header, host_header,
  special_header, if_fine, special_rounds, parse_special_headers, check_and_fixup_headers,
  check_headers,
}
use cupcake.Http.Connection.{Status, fine, refuse, undefined, bad_request, Connection}
use cupcake.Http.Request.{RequestData}
use cupcake.Strconv.Parse.{parse_uint64}
use cupcake.StringRef.Compare.{eng_equals_ignore_case}

abbrev pub count : Bool → ℕ
count true = 1
count false = 0

-- Whether a name is `Host`, in any case of letters.
abbrev pub is_host : Bytes → Bool
is_host name = eng_equals_ignore_case name (codes "Host")

abbrev pub hosts : List Bytes → ℕ
hosts [] = 0
hosts (name ∷ names) = count (is_host name) + hosts names

-- The names of the four headers differ.
other_names :
    (name : Bytes)
    → ((eng_equals_ignore_case name (codes "Content-Length") ≡ true) → is_host name ≡ false)
      × ((eng_equals_ignore_case name (codes "Transfer-Encoding") ≡ true) → is_host name ≡ false)
      × ((eng_equals_ignore_case name (codes "Connection") ≡ true) → is_host name ≡ false)
unfolding eng_equals_ignore_case
other_names name = (λ h. ground arith, λ h. ground arith, λ h. ground arith)

-- A step over a header: the request stays, and a `Host` is counted.
abbrev Steps : Bool → Connection → Status × Connection → Type 0
Steps host c s =
    (s.1.request_data ≡ c.request_data)
    × ((s.0 ≡ fine) → count s.1.has_host ≡ count c.has_host + count host)

plus_none : (n : ℕ) → n ≡ n + 0
plus_none n = omega arith

content_length_header-Steps :
    (value : Bytes) (c : Connection) → Steps false c (content_length_header value c)
unfolding content_length_header
content_length_header-Steps value c = elim (Option-cases (parse_uint64 value 10)) [
  | inl e ↦ rw (e, content_length_header) (refl, λ h. plus_none (count c.has_host))
  | inr (n, e) ↦ rw (e, content_length_header) (refl, λ h. plus_none (count c.has_host))
]

host_header-Steps : (c : Connection) → Steps true c (host_header c)
unfolding host_header
host_header-Steps c = elim (Bool-cases c.has_host) [
  | inl e ↦ rw (e, host_header) (refl, λ h. absurd (refused h))
  | inr e ↦ rw (e, host_header) (refl, λ h. refl)
]
  where
    refused : bad_request ≡ fine → ⊥
    refused h = cc

special_header-Steps :
    (name value : Bytes) (c : Connection) → Steps (is_host name) c (special_header name value c)
unfolding special_header transfer_encoding_header connection_header
special_header-Steps name value c =
    let (length_other, encoding_other, connection_other) = other_names name in
    elim (Bool-cases (eng_equals_ignore_case name (codes "Content-Length"))) [
      | inl e ↦ rw e (rw (length_other e) (content_length_header-Steps value c))
      | inr n ↦ rw n elim (Bool-cases (eng_equals_ignore_case name (codes "Transfer-Encoding"))) [
        | inl e ↦ rw e (rw (encoding_other e) (refl, λ h. plus_none (count c.has_host)))
        | inr n' ↦ rw n' elim (Bool-cases (eng_equals_ignore_case name (codes "Connection"))) [
          | inl e ↦ rw e (rw (connection_other e) (refl, λ h. plus_none (count c.has_host)))
          | inr n'' ↦ rw n'' elim (Bool-cases (is_host name)) [
            | inl e ↦ rw e (host_header-Steps c)
            | inr e ↦ rw e (refl, λ h. plus_none (count c.has_host))
          ]
        ]
      ]
    ]

-- The rest goes on only behind a status that is fine.
if_fine-lem :
    (s : Status × Connection) (rest : Connection → Status × Connection)
    → (if_fine s rest).0 ≡ fine
    → (s.0 ≡ fine) × (if_fine s rest ≡ rest s.1)
if_fine-lem (fine, c) rest h = (refl, refl)
if_fine-lem (refuse code reason, c) rest h = absurd cc
if_fine-lem (undefined, c) rest h = absurd cc

-- The headers that the loop goes over without a refusal hold as many hosts as it has seen.
special_rounds-hosts :
    (names values : List Bytes) (c : Connection)
    → (special_rounds names values c).0 ≡ fine
    → ((special_rounds names values c).1.request_data ≡ c.request_data)
      × (count (special_rounds names values c).1.has_host ≡ count c.has_host + hosts names)
unfolding special_rounds
special_rounds-hosts [] values c h = (refl, plus_none (count c.has_host))
special_rounds-hosts (name ∷ names) [] c h = absurd cc
special_rounds-hosts (name ∷ names) (value ∷ values) c h =
    let (first, goes) =
      if_fine-lem (special_header name value c) (λ c'. special_rounds names values c') h in
    let (same, seen) = special_header-Steps name value c in
    let c' = (special_header name value c).1 in
    let (same', seen') =
      special_rounds-hosts names values c' (sym (ap (λ (s : Status × Connection). s.0) goes) ∙ h) in
    (
      ap (λ (s : Status × Connection). s.1.request_data) goes ∙ same' ∙ same,
      ap (λ (s : Status × Connection). count s.1.has_host) goes ∙ omega (arith, seen first, seen'),
    )

check_and_fixup_headers-lem :
    (c : Connection)
    → (check_and_fixup_headers c).0 ≡ fine
    → (((check_and_fixup_headers c).1.has_content_length
          && (check_and_fixup_headers c).1.is_chunked)
        ≡ false)
      × ((is_http1_1 c.request_data.version ≡ true) → c.has_host ≡ true)
unfolding check_and_fixup_headers
check_and_fixup_headers-lem c h = (ground arith, λ one. ground arith)

count_le : (b : Bool) → count b ≤ 1
count_le true = omega arith
count_le false = omega arith

-- For every connection that has seen no `Host` header yet, whatever the headers are: if the two checks
-- of the headers refuse nothing, the connection does not read the body both by its length and by
-- chunks, at most one header is named `Host`, in any case of letters, and in version 1.1 exactly one is.
pub check_headers-framing :
    (c : Connection)
    → c.has_host ≡ false
    → (check_headers c).0 ≡ fine
    → (((check_headers c).1.has_content_length && (check_headers c).1.is_chunked) ≡ false)
      × (hosts c.request_data.header_names ≤ 1)
      × ((is_http1_1 c.request_data.version ≡ true) → hosts c.request_data.header_names ≡ 1)
unfolding check_headers parse_special_headers
check_headers-framing c none_yet h =
    let (first, goes) = if_fine-lem (parse_special_headers c) check_and_fixup_headers h in
    let (same, seen) =
      special_rounds-hosts c.request_data.header_names c.request_data.header_values c first in
    let c1 = (parse_special_headers c).1 in
    let (framed, host) =
      check_and_fixup_headers-lem c1 (sym (ap (λ (s : Status × Connection). s.0) goes) ∙ h) in
    let start = ap count none_yet in
    (
      ap (λ (s : Status × Connection). s.1.has_content_length && s.1.is_chunked) goes ∙ framed,
      omega (arith, seen, start, count_le c1.has_host),
      λ one.
          let last = ap count (host (ap (λ (q : RequestData). is_http1_1 q.version) same ∙ one)) in
          omega (arith, seen, start, last),
    )
