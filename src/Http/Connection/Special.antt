-- ===== src/Http/Connection/Special.antt =====
-- `parseSpecialHeaders` and `checkAndFixupHeaders` of src/http/HttpConnection.cpp.
pub mod Framing
use cupcake.Base.{
  ℕ, zero, suc, ◌+◌, Bool, true, false, not, ◌&&◌, [], ◌∷◌, List, Option, none, some, Bytes, codes,
  length, ◌==◌, if◌then◌else◌,
}
use cupcake.Http.CommaList.{next, get_last}
use cupcake.Http.Connection.{Status, fine, refuse, undefined, bad_request, Connection}
use cupcake.Http.Request.{HttpVersion, http1_0, http1_1, http2_0, RequestData}
use cupcake.Strconv.Parse.{parse_uint64}
use cupcake.StringRef.Compare.{eng_equals_ignore_case}

abbrev pub is_http1_0 : HttpVersion → Bool
is_http1_0 http1_0 = true
is_http1_0 v = false

abbrev pub is_http1_1 : HttpVersion → Bool
is_http1_1 http1_1 = true
is_http1_1 v = false

-- The flags of the loop over the elements of `Connection`.
pub record Options : Type 0 where
  pub close_found : Bool
  pub keep_alive_found : Bool
  pub stays_alive : Bool

-- The loop over the elements, which ends at the first that is empty. Every `next` takes a byte at least,
-- or has come to the end.
unfoldable pub option_rounds : ℕ → Bytes → Bytes → Options → Options
unfolding next eng_equals_ignore_case
option_rounds zero element text o = o
option_rounds (suc f) element text o =
    let go = option_rounds f (next text).0 (next text).1 in
    let rest =
      if eng_equals_ignore_case element (codes "close")
      then go (record o { close_found = true; stays_alive = false })
      else if eng_equals_ignore_case element (codes "keep-alive")
      then go (record o { keep_alive_found = true; stays_alive = true })
      else go o in
    if length element == 0 then o else rest

unfoldable pub content_length_header : Bytes → Connection → Status × Connection
content_length_header value c = elim (parse_uint64 value 10) [
  | none ↦ (bad_request, record c { content_length = 0 })
  | some n ↦ (fine, record c { content_length = n; has_content_length = true })
]

unfoldable pub transfer_encoding_header : Bytes → Connection → Status × Connection
unfolding get_last eng_equals_ignore_case
transfer_encoding_header value c =
    let chunked = eng_equals_ignore_case (get_last value) (codes "chunked") in
    (
      if is_http1_0 c.request_data.version && chunked then bad_request else fine,
      record c { is_chunked = chunked },
    )

unfoldable pub connection_header : Bytes → Connection → Status × Connection
unfolding option_rounds
connection_header value c =
    let start : Options = record {
      close_found = false;
      keep_alive_found = false;
      stays_alive = c.keep_alive;
    } in
    let o = option_rounds (length value + 2) (next value).0 (next value).1 start in
    (
      if o.close_found && o.keep_alive_found then bad_request else fine,
      record c { keep_alive = o.stays_alive },
    )

unfoldable pub host_header : Connection → Status × Connection
host_header c = if c.has_host then (bad_request, c) else (fine, record c { has_host = true })

unfoldable pub special_header : Bytes → Bytes → Connection → Status × Connection
unfolding content_length_header transfer_encoding_header connection_header host_header
special_header name value c =
    if eng_equals_ignore_case name (codes "Content-Length")
    then content_length_header value c
    else if eng_equals_ignore_case name (codes "Transfer-Encoding")
    then transfer_encoding_header value c
    else if eng_equals_ignore_case name (codes "Connection")
    then connection_header value c
    else if eng_equals_ignore_case name (codes "Host")
    then host_header c
    else (fine, c)

-- The rest of the headers, if the status so far is fine.
abbrev pub if_fine : Status × Connection → (Connection → Status × Connection) → Status × Connection
if_fine (fine, c) rest = rest c
if_fine (refuse code reason, c) rest = (refuse code reason, c)
if_fine (undefined, c) rest = (undefined, c)

-- The loop over the headers. A name that has no value makes `at` throw.
unfoldable pub special_rounds : List Bytes → List Bytes → Connection → Status × Connection
unfolding special_header
special_rounds [] values c = (fine, c)
special_rounds (name ∷ names) [] c = (undefined, c)
special_rounds (name ∷ names) (value ∷ values) c =
    if_fine (special_header name value c) (λ c'. special_rounds names values c')

-- `parseSpecialHeaders`
unfoldable pub parse_special_headers : Connection → Status × Connection
unfolding special_rounds
parse_special_headers c = special_rounds c.request_data.header_names c.request_data.header_values c

-- `checkAndFixupHeaders`
unfoldable pub check_and_fixup_headers : Connection → Status × Connection
check_and_fixup_headers c =
    let both = c.has_content_length && c.is_chunked in
    (
      if is_http1_1 c.request_data.version && not c.has_host then bad_request else fine,
      record c {
        has_content_length = if both then false else c.has_content_length;
        content_length = if both then 0 else c.content_length;
      },
    )

-- The two calls in `innerRun`, one after the other.
unfoldable pub check_headers : Connection → Status × Connection
unfolding parse_special_headers check_and_fixup_headers
check_headers c = if_fine (parse_special_headers c) check_and_fixup_headers
