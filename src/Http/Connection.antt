-- ===== src/Http/Connection.antt =====
-- The parsing of a request's head in src/http/HttpConnection.cpp.
pub mod Parts
pub mod HeaderLine
pub mod RequestLine
pub mod Special
pub mod Answer
use cupcake.Base.{
  ℕ, zero, suc, ◌+◌, ◌-◌, Bool, true, false, not, ◌&&◌, ◌||◌, [], ◌∷◌, ◌++◌, List, Option, none,
  some, Bytes, codes, length, drop, ltb, ◌==◌, if◌then◌else◌,
}
use cupcake.Http.CommaList.{is_blank, next, get_last}
use cupcake.Http.Request.{
  HttpMethod, get_method, head_method, post_method, put_method, delete_method, trace_method,
  options_method, connect_method, HttpVersion, http1_0, http1_1, http2_0, RequestData, add_header,
  append_to_header_value, reset,
}
use cupcake.Strconv.Parse.{parse_uint64}
use cupcake.StringRef.Compare.{substring, equals, eng_equals_ignore_case, ends_with_char}
use cupcake.StringRef.Search.{
  Search, found, missing, fault, starts_with, index_of_char, index_of_char_from,
}

-- A status: none yet, a code with its reason, or behaviour that C++ leaves undefined.
pub data Status : Type 0 where
  fine : Status
  refuse : ℕ → Bytes → Status
  undefined : Status

abbrev pub bad_request : Status
bad_request = refuse 400 (codes "Bad Request")

pub data HttpState : Type 0 where
  headers body failed : HttpState

pub record Connection : Type 0 where
  pub request_data : RequestData
  pub state : HttpState
  pub keep_alive : Bool
  pub has_content_length : Bool
  pub content_length : ℕ
  pub is_chunked : Bool
  pub has_host : Bool

-- The start of the loop in `innerRun`.
unfoldable pub start_request : Connection → Connection
unfolding reset
start_request c = record {
  request_data = reset c.request_data;
  state = headers;
  keep_alive = false;
  has_content_length = false;
  content_length = 0;
  is_chunked = false;
  has_host = false;
}

abbrev pub method_lookup_map : List (Bytes × HttpMethod)
method_lookup_map =
    (codes "CONNECT", connect_method)
    ∷ (codes "DELETE", delete_method)
    ∷ (codes "GET", get_method)
    ∷ (codes "HEAD", head_method)
    ∷ (codes "OPTIONS", options_method)
    ∷ (codes "POST", post_method)
    ∷ (codes "PUT", put_method)
    ∷ (codes "TRACE", trace_method)
    ∷ []

unfoldable pub find_method : List (Bytes × HttpMethod) → Bytes → Option HttpMethod
unfolding equals
find_method [] name = none
find_method ((key, method) ∷ rest) name =
    let later = find_method rest name in if equals key name then some method else later

-- What follows a search: the index, no index, or a fault.
abbrev pub on_search {ℓ} : {X : Type ℓ} → Search → (ℕ → X) → X → X → X
on_search (found i) given none_found undefined_search = given i
on_search missing given none_found undefined_search = none_found
on_search fault given none_found undefined_search = undefined_search

-- The version of a request line.
unfoldable pub set_version : Bytes → Connection → Status × Connection
unfolding equals starts_with
set_version version c =
    let http_1_0 : Connection = record c {
      request_data = record c.request_data { version = http1_0 };
      keep_alive = false;
    } in
    let http_1_1 : Connection = record c {
      request_data = record c.request_data { version = http1_1 };
      keep_alive = true;
    } in
    if equals version (codes "HTTP/1.0")
    then (fine, http_1_0)
    else if equals version (codes "HTTP/1.1")
    then (fine, http_1_1)
    else if starts_with version (codes "HTTP/")
    then (refuse 505 (codes "HTTP Version Not Supported"), c)
    else (bad_request, c)

unfoldable pub set_url : Bytes → Bytes → Connection → Status × Connection
unfolding set_version
set_url url version c =
    let rest =
      set_version version (record c { request_data = record c.request_data { url = url } }) in
    if length url == 0 then (bad_request, c) else rest

abbrev pub set_method : Option HttpMethod → Bytes → Bytes → Connection → Status × Connection
set_method none url version c = (refuse 501 (codes "Not Implemented"), c)
set_method (some m) url version c =
    set_url url version (record c { request_data = record c.request_data { method = m } })

-- `parseRequestLine`
unfoldable pub parse_request_line : Bytes → Connection → Status × Connection
unfolding index_of_char index_of_char_from find_method set_url
parse_request_line line c =
    on_search (index_of_char line 0x20)
      (λ first.
        let parts =
          on_search (index_of_char_from line 0x20 (first + 1))
            (λ second.
              set_method (find_method method_lookup_map (substring line 0 first))
                (substring line (first + 1) second) (substring line (second + 1) (length line)) c)
            (bad_request, c) (undefined, c) in
        if first == length line - 1 then (bad_request, c) else parts)
      (bad_request, c) (undefined, c)

-- The blanks from a place on; none if there is no other byte in the memory from there.
unfoldable pub pad_length : Bytes → Option ℕ
pad_length [] = none
pad_length (x ∷ xs) =
    let rest : Option ℕ = elim (pad_length xs) [ none ↦ none | some n ↦ some (suc n) ] in
    if is_blank x then rest else some 0

-- A header name without the blanks at its end. Each round takes one off.
unfoldable pub trim_name : ℕ → Bytes → Bytes
unfolding ends_with_char
trim_name zero name = name
trim_name (suc f) name =
    let rest = trim_name f (substring name 0 (length name - 1)) in
    if ends_with_char name 0x20 || ends_with_char name 0x09 then rest else name

-- A header value without the blanks at its front.
unfoldable pub trim_value : Bytes → Bytes
trim_value [] = []
trim_value (x ∷ xs) = let rest = trim_value xs in if is_blank x then rest else x ∷ xs

unfoldable pub split_header : Bytes → Connection → Status × Connection
unfolding index_of_char trim_name trim_value
split_header line c =
    on_search (index_of_char line b':')
      (λ colon.
        let name = substring line 0 colon in
        let value = trim_value (substring line (colon + 1) (length line)) in
        (
          fine,
          record c {
            request_data = add_header (trim_name (length name) name) value c.request_data;
          },
        ))
      (bad_request, c) (undefined, c)

abbrev pub extended : Option RequestData → Connection → Status × Connection
extended none c = (undefined, c)
extended (some q) c = (fine, record c { request_data = q })

-- What follows by the number of blanks. A part of the line from behind its end is undefined.
abbrev pub after_pad : Option ℕ → Bytes → Connection → Status × Connection
after_pad none line c = (undefined, c)
after_pad (some zero) line c = split_header line c
after_pad (some (suc n)) line c =
    if ltb (length line) (suc n)
    then (undefined, c)
    else extended (append_to_header_value (drop (suc n) line) c.request_data) c

-- `parseHeaderLine`. The loop over the blanks looks behind the end of a line that has only blanks:
-- `behind` are the bytes of the reader's buffer there, the first of them the line's end if it has one.
unfoldable pub parse_header_line : Bytes → Bytes → Connection → Status × Connection
unfolding pad_length append_to_header_value split_header
parse_header_line line behind c =
    let rest = after_pad (pad_length (line ++ behind)) line c in
    if length line == 0 then (fine, record c { state = body }) else rest
