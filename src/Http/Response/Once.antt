-- ===== src/Http/Response/Once.antt =====
-- The head of a response is sent by one call at most.
use mathlib.Core.Path.{subst}
use cupcake.Http.Connection.Answer.{code_buffer}
use cupcake.Base.{
  ℕ, ◌≡◌, ◌∙◌, refl, sym, ap, ◌⊎◌, inl, inr, Bool-cases, Option-cases, Bool, true, false, not, ◌||◌,
  [], ◌∷◌, List, Option, none, some, leb, ◌==◌, if◌then◌else◌, Bytes, codes, length,
}
use cupcake.Base.Int.{pos}
use cupcake.Http.BufferedReader.{new_buffer}
use cupcake.Http.Connection.Special.{is_http1_0}
use cupcake.Http.Response.{
  ResponseStatus, at_headers, at_closed, Output, counted_output, chunked_output, Response,
  add_response_header, parse_response_header, response_rounds, choose_output, parse_headers,
  with_length, send_head, write_headers_and_body, hand_out, after_headers, open_output, output_or,
  get_output_stream, close_at, close_response,
}
use cupcake.Http.Sink.{Sink}
use cupcake.Http.Stream.{Reply, ok, err, fault, invalid_header, on_reply}
use cupcake.Strconv.Parse.{parse_uint64}
use cupcake.Strconv.ToStr.{int64_to_buffer}
use cupcake.StringRef.Compare.{eng_equals_ignore_case}

-- A result that leaves a response in this state.
abbrev Leaves : {A : Type 0} → ResponseStatus → Reply A × Response → Type 0
Leaves st s = s.1.resp_status ≡ st

on_reply-Leaves :
    {A B : Type 0} (st : ResponseStatus) (s : Reply A × Response)
    (given : A → Response → Reply B × Response)
    → Leaves st s
    → ((a : A) (r : Response) → r.resp_status ≡ st → Leaves st (given a r))
    → Leaves st (on_reply s given (λ e r. (err e, r)) (λ r. (fault, r)))
on_reply-Leaves st (ok a, r) given h next = next a r h
on_reply-Leaves st (err e, r) given h next = h
on_reply-Leaves st (fault, r) given h next = h

if-Leaves :
    {A : Type 0} (st : ResponseStatus) (b : Bool) (s t : Reply A × Response)
    → Leaves st s
    → Leaves st t
    → Leaves st (if b then s else t)
if-Leaves st true s t h k = h
if-Leaves st false s t h k = k

parse_response_header-Leaves :
    (st : ResponseStatus) (name value : Bytes) (r : Response)
    → r.resp_status ≡ st
    → Leaves st (parse_response_header name value r)
unfolding parse_response_header
parse_response_header-Leaves st name value r h =
    if-Leaves st (eng_equals_ignore_case name (codes "Content-Length")) _ _
      (if-Leaves st r.set_content_length _ _ h (counted (parse_uint64 value 10)))
      (if-Leaves st (eng_equals_ignore_case name (codes "Transfer-Encoding")) _ _
        (if-Leaves st (is_http1_0 r.version) _ _ h h) h)
  where
    counted :
        (o : Option ℕ)
        → Leaves {A = Unit {0}} st (elim o [
          | none ↦ (err invalid_header, record r { content_length = 0 })
          | some n ↦ (ok tt, record r { content_length = n; set_content_length = true })
        ])
    counted none = h
    counted (some n) = h

response_rounds-Leaves :
    (st : ResponseStatus) (names values : List Bytes) (r : Response)
    → r.resp_status ≡ st
    → Leaves st (response_rounds names values r)
unfolding response_rounds
response_rounds-Leaves st [] values r h = h
response_rounds-Leaves st (name ∷ names) [] r h = h
response_rounds-Leaves st (name ∷ names) (value ∷ values) r h =
    on_reply-Leaves st (parse_response_header name value r)
      (λ done r'. response_rounds names values r') (parse_response_header-Leaves st name value r h)
      (λ done r' k. response_rounds-Leaves st names values r' k)

choose_output-lem : (r : Response) → (choose_output r).resp_status ≡ r.resp_status
choose_output-lem r = elim (Bool-cases r.set_content_length) [
  | inl e ↦
      ap
        (λ b.
          (if b
            then record r { output = some counted_output }
            else if r.set_te_chunked
            then record r { output = some chunked_output }
            else r).resp_status)
        e
  | inr e ↦
      ap
        (λ b.
          (if b
            then record r { output = some counted_output }
            else if r.set_te_chunked
            then record r { output = some chunked_output }
            else r).resp_status)
        e
      ∙ chunked r.set_te_chunked
]
  where
    chunked :
        (b : Bool)
        → (if b then record r { output = some chunked_output } else r).resp_status ≡ r.resp_status
    chunked true = refl
    chunked false = refl

parse_headers-Leaves :
    (st : ResponseStatus) (r : Response) → r.resp_status ≡ st → Leaves st (parse_headers r)
unfolding parse_headers
parse_headers-Leaves st r h =
    if-Leaves st
      (not r.status_set
        || leb r.status_code 100
        || leb 600 r.status_code
        || length r.status_text == 0)
      _ _ h
      (on_reply-Leaves st (response_rounds r.header_names r.header_values r)
        (λ done r'. (ok tt, choose_output r'))
        (response_rounds-Leaves st r.header_names r.header_values r h)
        (λ done r' k. choose_output-lem r' ∙ k))

with_length-lem :
    (st : ResponseStatus) (n : ℕ) (r : Response)
    → r.resp_status ≡ st
    → (with_length n r ≡ none)
      ⊎ ((r' : Response) × (with_length n r ≡ some r') × (r'.resp_status ≡ st))
unfolding with_length add_response_header
with_length-lem st n r h = elim (Bool-cases (n == 0)) [
  | inl e ↦ rw e (inr (r, refl, h))
  | inr e ↦ rw e elim (Option-cases (int64_to_buffer (pos n) (new_buffer 20))) [
    | inl e' ↦ rw (e', with_length) (inl refl)
    | inr (o, e') ↦ rw (e', with_length) (inr (_, refl, h))
  ]
]

sent-Leaves :
    (st : ResponseStatus) (r : Response) (s : Reply (Unit {0}) × Sink)
    → r.resp_status ≡ st
    → Leaves {A = Unit {0}} st (
        on_reply s
          (λ done sink. (ok tt, record r { stream_source = sink }))
          (λ e sink. (err e, record r { stream_source = sink }))
          (λ sink. (fault, r)))
sent-Leaves st r (ok a, s) h = h
sent-Leaves st r (err e, s) h = h
sent-Leaves st r (fault, s) h = h

send_head-Leaves :
    (st : ResponseStatus) (content : Bytes) (r r' : Response)
    → r'.resp_status ≡ st
    → Leaves st (send_head (some r') content r)
send_head-Leaves st content r r' h = elim (Option-cases (code_buffer r'.status_code)) [
  | inl e ↦ rw (e, send_head) h
  | inr (o, e) ↦ rw (e, send_head) (sent-Leaves st r' _ h)
]

write_headers_and_body-Leaves :
    (st : ResponseStatus) (content : Bytes) (r : Response)
    → r.resp_status ≡ st
    → Leaves st (write_headers_and_body content r)
unfolding write_headers_and_body
write_headers_and_body-Leaves st content r h = elim (with_length-lem st (length content) r h) [
  | inl e ↦ subst (λ o. Leaves st (send_head o content r)) (sym e) h
  | inr (r', e, k) ↦
      subst (λ o. Leaves st (send_head o content r)) (sym e) (send_head-Leaves st content r r' k)
]

hand_out-Leaves :
    (st : ResponseStatus) (o : Output) (r : Response)
    → r.resp_status ≡ st
    → Leaves st (hand_out o r)
unfolding hand_out
hand_out-Leaves st o r h =
    on_reply-Leaves st (write_headers_and_body [] r) (λ done r'. (ok o, r'))
      (write_headers_and_body-Leaves st [] r h) (λ done r' k. k)

after_headers-Leaves :
    (st : ResponseStatus) (o : Option Output) (r : Response)
    → r.resp_status ≡ st
    → Leaves st (after_headers o r)
unfolding add_response_header
after_headers-Leaves st (some o) r h = hand_out-Leaves st o r h
after_headers-Leaves st none r h =
    if-Leaves st (is_http1_0 r.version) _ _ h (hand_out-Leaves st chunked_output _ h)

open_output-Leaves :
    (s : ResponseStatus) (r : Response) → r.resp_status ≡ s → Leaves at_closed (open_output s r)
open_output-Leaves at_closed r h = h
open_output-Leaves at_headers r h =
    on_reply-Leaves at_closed (parse_headers (record r { resp_status = at_closed }))
      (λ done r'. after_headers r'.output r') (parse_headers-Leaves at_closed _ refl)
      (λ done r' k. after_headers-Leaves at_closed r'.output r' k)

-- The writer is set only once the state is closed.
abbrev pub IsConsistent : Response → Type 0
IsConsistent r = (r.output ≡ none) ⊎ (r.resp_status ≡ at_closed)

get_output_stream-Leaves :
    (o : Option Output) (r : Response)
    → r.output ≡ o
    → IsConsistent r
    → Leaves at_closed (output_or o r)
get_output_stream-Leaves none r e h = open_output-Leaves r.resp_status r refl
get_output_stream-Leaves (some o) r e (inl n) = absurd cc
get_output_stream-Leaves (some o) r e (inr closed) = closed

close_at-Leaves :
    (s : ResponseStatus) (r : Response) → r.resp_status ≡ s → Leaves at_closed (close_at s r)
close_at-Leaves at_closed r h = h
close_at-Leaves at_headers r h =
    on_reply-Leaves at_closed (parse_headers (record r { resp_status = at_closed }))
      (λ done r'. write_headers_and_body [] r') (parse_headers-Leaves at_closed _ refl)
      (λ done r' k. write_headers_and_body-Leaves at_closed [] r' k)

-- A response on which `close` succeeds and nothing changes any more.
abbrev pub IsSettled : Response → Type 0
IsSettled r = (close_response r ≡ (ok tt, r)) × ((get_output_stream r).1 ≡ r)

settled : (r : Response) → r.resp_status ≡ at_closed → IsSettled r
unfolding close_response get_output_stream
settled r h = (ap (λ s. close_at s r) h, same r.output)
  where
    same : (o : Option Output) → (output_or o r).1 ≡ r
    same (some o) = refl
    same none = ap (λ s. (open_output s r).1) h

-- For every response whose writer is not set, or set and the state closed, whatever its headers are
-- and whether the peer takes the bytes or not: after one call of `getOutputStream` or of `close`, also one
-- that fails, every further `close` succeeds, and neither it nor a further `getOutputStream` sends
-- anything or changes the response.
pub get_output_stream-close_response :
    (r : Response)
    → IsConsistent r
    → IsSettled (get_output_stream r).1 × IsSettled (close_response r).1
unfolding get_output_stream close_response
get_output_stream-close_response r h = (
  settled (output_or r.output r).1 (get_output_stream-Leaves r.output r refl h),
  settled (close_at r.resp_status r).1 (close_at-Leaves r.resp_status r refl),
)
