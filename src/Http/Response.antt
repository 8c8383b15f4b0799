-- ===== src/Http/Response.antt =====
-- src/http/HttpResponseImpl.cpp.
pub mod Once
use cupcake.Base.{
  ◌+◌, ℕ, zero, suc, Bool, true, false, not, ◌&&◌, ◌||◌, [], ◌∷◌, ◌++◌, List, Option, none, some,
  leb, ◌==◌, if◌then◌else◌, Bytes, codes, length, take,
}
use cupcake.Base.Int.{pos}
use cupcake.Http.BufferedReader.{new_buffer}
use cupcake.Http.CommaList.{get_last}
use cupcake.Http.Connection.Answer.{version_text, code_buffer}
use cupcake.Http.Connection.Special.{is_http1_0}
use cupcake.Http.Request.{HttpVersion}
use cupcake.Http.Sink.{Sink, sink_write}
use cupcake.Http.Stream.{Reply, ok, err, fault, HttpError, invalid_state, invalid_header, on_reply}
use cupcake.Strconv.Parse.{parse_uint64}
use cupcake.Strconv.ToStr.{uint32_to_buffer, int64_to_buffer}
use cupcake.StringRef.Compare.{eng_equals_ignore_case}

pub data ResponseStatus : Type 0 where
  at_headers at_closed : ResponseStatus

-- The writers that `httpOutputStream` can point to.
pub data Output : Type 0 where
  buffered_output counted_output chunked_output : Output

pub record Response : Type 0 where
  pub version : HttpVersion
  pub stream_source : Sink
  pub resp_status : ResponseStatus
  pub output : Option Output
  pub status_code : ℕ
  pub status_text : Bytes
  pub header_names : List Bytes
  pub header_values : List Bytes
  pub status_set : Bool
  pub set_content_length : Bool
  pub content_length : ℕ
  pub set_te_chunked : Bool

unfoldable pub set_status : ℕ → Bytes → Response → Response
set_status code text r = record r { status_code = code; status_text = text; status_set = true }

unfoldable pub add_response_header : Bytes → Bytes → Response → Response
add_response_header name value r = record r {
  header_names = r.header_names ++ name ∷ [];
  header_values = r.header_values ++ value ∷ [];
}

-- The loop of `parseHeaders`.
unfoldable pub parse_response_header : Bytes → Bytes → Response → Reply (Unit {0}) × Response
unfolding eng_equals_ignore_case get_last
parse_response_header name value r =
    let counted : Reply (Unit {0}) × Response =
      if r.set_content_length then (err invalid_header, r) else elim (parse_uint64 value 10) [
        | none ↦ (err invalid_header, record r { content_length = 0 })
        | some n ↦ (ok tt, record r { content_length = n; set_content_length = true })
      ] in
    let encoded : Reply (Unit {0}) × Response =
      if is_http1_0 r.version then (err invalid_header, r) else (
        ok tt,
        record r { set_te_chunked = eng_equals_ignore_case (get_last value) (codes "chunked") },
      ) in
    if eng_equals_ignore_case name (codes "Content-Length")
    then counted
    else if eng_equals_ignore_case name (codes "Transfer-Encoding")
    then encoded
    else (ok tt, r)

unfoldable pub response_rounds : List Bytes → List Bytes → Response → Reply (Unit {0}) × Response
unfolding parse_response_header
response_rounds [] values r = (ok tt, r)
response_rounds (name ∷ names) [] r = (fault, r)
response_rounds (name ∷ names) (value ∷ values) r =
    on_reply (parse_response_header name value r) (λ done r'. response_rounds names values r')
      (λ e r'. (err e, r')) (λ r'. (fault, r'))

-- The writer that the headers ask for.
abbrev pub choose_output : Response → Response
choose_output r =
    if r.set_content_length
    then record r { output = some counted_output }
    else if r.set_te_chunked
    then record r { output = some chunked_output }
    else r

-- `parseHeaders`
unfoldable pub parse_headers : Response → Reply (Unit {0}) × Response
unfolding response_rounds
parse_headers r =
    let parsed : Reply (Unit {0}) × Response =
      on_reply (response_rounds r.header_names r.header_values r)
        (λ done r'. (ok tt, choose_output r')) (λ e r'. (err e, r')) (λ r'. (fault, r')) in
    let no_status =
      not r.status_set
      || leb r.status_code 100
      || leb 600 r.status_code
      || length r.status_text == 0 in
    if no_status then (err invalid_header, r) else parsed

unfoldable pub header_lines : List Bytes → List Bytes → Bytes
header_lines (name ∷ names) (value ∷ values) =
    name ++ (codes ": " ++ (value ++ (codes "\r\n" ++ header_lines names values)))
header_lines _ _ = []

-- The header for a content that was collected.
unfoldable pub with_length : ℕ → Response → Option Response
unfolding add_response_header
with_length n r =
    let counted : Option Response = elim (int64_to_buffer (pos n) (new_buffer 20)) [
      | none ↦ none
      | some (buffer, len) ↦ some (add_response_header (codes "Content-Length") (take len buffer) r)
    ] in
    if n == 0 then some r else counted

abbrev pub send_head : Option Response → Bytes → Response → Reply (Unit {0}) × Response
send_head none content r = (fault, r)
send_head (some r') content r = elim (code_buffer r'.status_code) [
  | none ↦ (fault, r')
  | some (buffer, code_bytes) ↦
      on_reply
        (sink_write r'.stream_source (
          version_text r'.version
          ++ (take (code_bytes + 1) buffer
              ++ (r'.status_text
                  ++ (codes "\r\n"
                      ++ (header_lines r'.header_names r'.header_values
                          ++ (codes "\r\n" ++ content)))))))
        (λ done sink. (ok tt, record r' { stream_source = sink }))
        (λ e sink. (err e, record r' { stream_source = sink })) (λ sink. (fault, r'))
]

-- `writeHeadersAndBody`
unfoldable pub write_headers_and_body : Bytes → Response → Reply (Unit {0}) × Response
unfolding with_length header_lines
write_headers_and_body content r = send_head (with_length (length content) r) content r

-- `writeHeaders`, and the writer that is handed out behind it.
unfoldable pub hand_out : Output → Response → Reply Output × Response
hand_out o r =
    on_reply (write_headers_and_body [] r) (λ done r'. (ok o, r')) (λ e r'. (err e, r'))
      (λ r'. (fault, r'))

-- What `getOutputStream` does behind `parseHeaders`, by the writer that was chosen.
abbrev pub after_headers : Option Output → Response → Reply Output × Response
after_headers (some o) r = hand_out o r
after_headers none r =
    if is_http1_0 r.version
    then (ok buffered_output, record r { output = some buffered_output })
    else hand_out chunked_output
        (record (add_response_header (codes "Transfer-Encoding") (codes "chunked") r) {
          output = some chunked_output;
        })

-- The rest of `getOutputStream`, by the state.
abbrev pub open_output : ResponseStatus → Response → Reply Output × Response
open_output at_closed r = (err invalid_state, r)
open_output at_headers r =
    on_reply (parse_headers (record r { resp_status = at_closed }))
      (λ done r'. after_headers r'.output r') (λ e r'. (err e, r')) (λ r'. (fault, r'))

-- `getOutputStream`, by the writer that there is already.
abbrev pub output_or : Option Output → Response → Reply Output × Response
output_or (some o) r = (ok o, r)
output_or none r = open_output r.resp_status r

unfoldable pub get_output_stream : Response → Reply Output × Response
get_output_stream r = output_or r.output r

abbrev pub close_at : ResponseStatus → Response → Reply (Unit {0}) × Response
close_at at_closed r = (ok tt, r)
close_at at_headers r =
    on_reply (parse_headers (record r { resp_status = at_closed }))
      (λ done r'. write_headers_and_body [] r') (λ e r'. (err e, r')) (λ r'. (fault, r'))

-- `close`
unfoldable pub close_response : Response → Reply (Unit {0}) × Response
close_response r = close_at r.resp_status r
