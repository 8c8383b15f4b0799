-- ===== src/Http/Tests.antt =====
-- Runs of the readers and writers of src/http, and their theorems at inputs.
use cupcake.Base.{
  inl, inr, some, true, false, ◌&&◌, List, bytes_equal, ℕ, ◌≤◌, ◌<◌, ◌≡◌, refl, [], ◌∷◌, ◌++◌,
  arith, Bytes, codes,
}
use cupcake.Http.BufferedReader.Layout.{IsLayout, Holds, init-Holds}
use cupcake.Http.BufferedReader.Line.Finds.{ReadsLine, read_line-ReadsLine}
use cupcake.Http.BufferedReader.Read.{ReadsJust, read_fixed_length-ReadsJust}
use cupcake.Http.BufferedReader.{Reader, init, buffer_len, read_fixed_length, read_line}
use cupcake.Http.Chunked.Coding.{coded, joined}
use cupcake.Http.Connection.{find_method, method_lookup_map}
use cupcake.Http.Request.{append_to_header_value}
use cupcake.StringRef.Compare.{equals}
use cupcake.Http.Connection.Special.{parse_special_headers, special_rounds, check_and_fixup_headers}
use cupcake.Http.Stream.{Source, ok, err, fault, eof, content_length_exceeded, source_read}
use cupcake.Base.Word.{uint32_mod}
use cupcake.Http.Body.Counted.{ReadsCounted, read_counted-ReadsCounted, read_counted-stuck}
use cupcake.Http.Body.Written.{write_buffered-flush_buffered}
use cupcake.Http.Body.{
  ContentLengthReader, read_counted, write_counted, BufferedWriter, write_buffered, flush_buffered,
}
use cupcake.Http.BufferedReader.Skip.Discard.{Discards, discard-Discards, discard-behind_line}
use cupcake.Http.BufferedReader.Skip.{discard, peek_match}
use cupcake.Http.Chunked.Loop.{IsBody}
use cupcake.Http.Chunked.Body.{ReadsBody, read_chunked-ReadsBody, close_reader_complete}
use cupcake.Http.Chunked.Sent.{writer, write_all, write_all-read_chunked}
use cupcake.Http.Chunked.{ChunkedWriter, fresh, read_chunked, close_reader}
use cupcake.Http.CommaList.{get_last}
use cupcake.Http.Response.Once.{IsSettled, get_output_stream-close_response}
use cupcake.Http.Response.{
  Response, at_headers, get_output_stream, close_response, set_status, add_response_header,
}
use cupcake.Base.{none}
use cupcake.Http.Connection.Answer.{Sends, send_status, send_status-text}
use cupcake.Http.Request.{http1_0}
use cupcake.Strconv.Text.{text}
use cupcake.Http.Connection.HeaderLine.{parse_header_line-add_header}
use cupcake.Http.Connection.RequestLine.{parse_request_line-sets}
use cupcake.Strconv.Parse.{parse_uint64}
use cupcake.Strconv.Digit.{digit_value, char_value}
use cupcake.Http.Connection.Special.Framing.{hosts, check_headers-framing}
use cupcake.Http.Connection.Special.{is_http1_1, check_headers}
use cupcake.Http.Connection.{
  fine, undefined, Connection, headers, start_request, parse_request_line, parse_header_line,
}
use cupcake.Http.Request.{RequestData, get_method, http1_1, add_header}

-- A peer whose bytes come by threes.
abbrev peer : Source
peer = record {
  stream = codes "GET /a\r\nHost: b\r\n";
  arrivals = 2 ∷ 2 ∷ 2 ∷ 2 ∷ [];
  ending = eof;
}

abbrev reader : Reader
reader = init peer 4

reader-Holds : Holds reader (codes "GET /a\r\nHost: b\r\n")
reader-Holds = init-Holds peer 4 (omega arith) (omega arith)

reader-IsLayout : IsLayout reader [] [] (0 ∷ 0 ∷ 0 ∷ 0 ∷ [])
unfolding init
reader-IsLayout = record {
  parts = refl;
  starts = refl;
  ends = refl;
  some_buffer = omega arith;
  small = omega arith;
}

read_fixed_length-ReadsJust_example :
    ReadsJust 7 reader [] (codes "GET /a\r\nHost: b\r\n") (read_fixed_length 7 reader)
read_fixed_length-ReadsJust_example =
    read_fixed_length-ReadsJust 7 reader (codes "GET /a\r\nHost: b\r\n") reader-Holds

starts : reader.start_index ≡ 0
unfolding init
starts = refl

read_line-ReadsLine_example :
    ReadsLine reader (codes "GET /a\r") (codes "Host: b\r\n") (read_line 100 reader)
read_line-ReadsLine_example =
    read_line-ReadsLine 100 reader (codes "GET /a\r") (codes "Host: b\r\n") reader-Holds
      (ground arith) (omega arith) (omega arith) (inl (omega arith))

-- A reader that has read a carriage return by `read`, and has the newline in its buffer.
abbrev split_reader : Reader
split_reader = record { source = peer; buffer = codes "\r\n"; start_index = 1; end_index = 2 }

discard-Discards_example :
    Discards 3 reader ([] ++ codes "GET /a\r\nHost: b\r\n") (discard 3 reader)
unfolding init
discard-Discards_example =
    discard-Discards 3 reader [] [] (0 ∷ 0 ∷ 0 ∷ 0 ∷ []) reader-IsLayout (inr (refl, refl))

-- A reader that has passed eight bytes and holds two more.
abbrev peeking_reader : Reader
peeking_reader = record {
  source = peer;
  buffer = codes "abcdefghPR......";
  start_index = 8;
  end_index = 10;
}

-- A reader that stands behind a line that ended with its buffer.
abbrev used_reader : Reader
used_reader = record { source = peer; buffer = codes "abcd"; start_index = 4; end_index = 4 }

used-IsLayout : IsLayout used_reader (codes "abcd") [] []
used-IsLayout = record {
  parts = refl;
  starts = refl;
  ends = refl;
  some_buffer = omega arith;
  small = omega arith;
}

-- The peer once its first three bytes are read.
abbrev later_peer : Source
later_peer = record { stream = codes " /a\r\nHost: b\r\n"; arrivals = 2 ∷ 2 ∷ 2 ∷ []; ending = eof }

three_bytes :
    source_read used_reader.source (buffer_len used_reader) ≡ (ok (codes "GET"), later_peer)
unfolding source_read
three_bytes = refl

discard-behind_line_example :
    (r' : Reader) × (discard 2 used_reader ≡ (ok tt, r'))
    × (r'.end_index < r'.start_index)
    × (r'.source ≡ later_peer)
discard-behind_line_example =
    discard-behind_line 2 used_reader (codes "abcd") [] (codes "GET") later_peer used-IsLayout
      three_bytes (omega arith) (omega arith)

-- Two writes and an empty one, and what they send.
abbrev writes : List Bytes
writes = codes "hello " ∷ [] ∷ codes "world" ∷ []

write_all-read_chunked_example :
    (w : ChunkedWriter) × (write_all writes (writer []) ≡ (ok tt, w))
    × ReadsBody 8 (joined writes) (codes "GET") (
        read_chunked 8 (
          fresh (
            init
              (record {
                stream = w.stream_source.sent ++ codes "GET";
                arrivals = 4 ∷ [];
                ending = eof;
              })
              16)))
write_all-read_chunked_example =
    write_all-read_chunked writes (codes "GET") (4 ∷ []) eof 16 8
      (omega arith, (omega arith, (omega arith, tt))) (omega arith) (omega arith) (omega arith)

abbrev chunk_peer : Source
chunk_peer = record {
  stream = coded (codes "hello" ∷ []) (codes "GET");
  arrivals = [];
  ending = eof;
}

chunk-IsBody : IsBody (fresh (init chunk_peer 16)) (codes "hello") (codes "GET")
chunk-IsBody = inl (
  codes "hello" ∷ [],
  (omega arith, omega arith, tt),
  inl (refl, init-Holds chunk_peer 16 (omega arith) (omega arith), refl),
)

read_chunked-ReadsBody_example :
    ReadsBody 3 (codes "hello") (codes "GET") (read_chunked 3 (fresh (init chunk_peer 16)))
read_chunked-ReadsBody_example =
    read_chunked-ReadsBody 3 (fresh (init chunk_peer 16)) (codes "hello") (codes "GET")
      (omega arith) chunk-IsBody

abbrev empty_peer : Source
empty_peer = record { stream = coded [] []; arrivals = []; ending = eof }

close_reader_complete_example : (close_reader (fresh (init empty_peer 16))).0 ≡ err eof
close_reader_complete_example =
    close_reader_complete (fresh (init empty_peer 16)) []
      ([], tt, inl (refl, init-Holds empty_peer 16 (omega arith) (omega arith), refl))

abbrev counted : ℕ → ContentLengthReader
counted n = record { buf_reader = reader; content_length = n }

read_counted-ReadsCounted_example :
    ReadsCounted 4 (codes "GET /a") (codes "\r\nHost: b\r\n") (read_counted 4 (counted 6))
read_counted-ReadsCounted_example =
    read_counted-ReadsCounted 4 (counted 6) (codes "GET /a") (codes "\r\nHost: b\r\n") (omega arith)
      (omega arith) refl reader-Holds

read_counted-stuck_example :
    (c' : ContentLengthReader) × (read_counted 4 (counted uint32_mod) ≡ (ok [], c'))
    × (c'.content_length ≡ uint32_mod)
    × Holds c'.buf_reader (codes "GET /a\r\nHost: b\r\n")
read_counted-stuck_example =
    read_counted-stuck 4 (counted uint32_mod) (codes "GET /a\r\nHost: b\r\n") (omega arith) refl
      (omega arith) reader-Holds

abbrev buffering : ℕ → BufferedWriter
buffering n = record {
  stream_source = record { sent = codes "a"; outcomes = [] };
  buffered = codes "bc";
  buffer_len = n;
}

write_buffered-flush_buffered_example :
    (w : BufferedWriter) × (write_buffered (codes "de") (buffering 8) ≡ (ok tt, w))
    × (flush_buffered w ≡ (
      ok tt,
      record {
        stream_source = record { sent = codes "a" ++ (codes "bc" ++ codes "de"); outcomes = [] };
        buffered = [];
        buffer_len = 8;
      },
    ))
write_buffered-flush_buffered_example =
    write_buffered-flush_buffered (codes "de") (codes "a") (codes "bc") 8 (inl (omega arith))

-- A write of more than the room that is left.
write_buffered_run : (write_buffered (codes "de") (buffering 3)).0 ≡ fault
unfolding write_buffered
write_buffered_run = refl

-- A byte of a longer body, by the writer that counts.
write_counted_run :
    (write_counted
      (codes "ab")
      (record { stream_source = record { sent = []; outcomes = [] }; length_left = 1 })).0
    ≡ err content_length_exceeded
unfolding write_counted
write_counted_run = refl

abbrev request : RequestData
request = record {
  version = http1_1;
  method = get_method;
  url = codes "/";
  header_names = [];
  header_values = [];
}

abbrev connection : Connection
connection = record {
  request_data = request;
  state = headers;
  keep_alive = true;
  has_content_length = false;
  content_length = 0;
  is_chunked = false;
  has_host = false;
}

parse_header_line-add_header_example :
    parse_header_line
      ((codes "Host" ++ codes " ") ++ b':' ∷ (codes " " ++ codes "a:80"))
      (codes "\r\n")
      connection
    ≡ (fine, record connection { request_data = add_header (codes "Host") (codes "a:80") request })
parse_header_line-add_header_example =
    parse_header_line-add_header b'H' (codes "ost") (codes " ") (codes " ") (codes "a:80")
      (codes "\r\n") connection refl (codes "Hos", b't', refl, refl)
      (omega arith, (omega arith, (omega arith, (omega arith, tt)))) (refl, tt) (refl, tt) refl

-- A line that starts with a space, before any header.
parse_header_line_run : (parse_header_line (codes " a") (codes "\r\n") connection).0 ≡ undefined
unfolding parse_header_line append_to_header_value
parse_header_line_run = refl

get_known : find_method method_lookup_map (codes "GET") ≡ some get_method
unfolding find_method equals bytes_equal
get_known = refl

parse_request_line-sets_example :
    parse_request_line (codes "GET" ++ 0x20 ∷ (codes "/a" ++ 0x20 ∷ codes "HTTP/1.1")) connection
    ≡ (
      fine,
      record connection {
        request_data = record request { version = http1_1; method = get_method; url = codes "/a" };
        keep_alive = true;
      },
    )
parse_request_line-sets_example =
    parse_request_line-sets (codes "GET") (codes "/a") get_method true connection
      (omega arith, (omega arith, (omega arith, tt))) get_known (omega arith)
      (omega arith, (omega arith, tt))

-- A request with a length and chunks.
abbrev two_bodies : Connection
two_bodies = record connection {
  request_data = record request {
    header_names = codes "hOST" ∷ codes "Content-Length" ∷ codes "Transfer-Encoding" ∷ [];
    header_values = codes "a" ∷ codes "5" ∷ codes "gzip, Chunked" ∷ [];
  };
}

head_accepted : (check_headers two_bodies).0 ≡ fine
unfolding check_headers parse_special_headers special_rounds check_and_fixup_headers parse_uint64
    digit_value char_value
head_accepted = refl

check_headers-framing_example :
    (((check_headers two_bodies).1.has_content_length && (check_headers two_bodies).1.is_chunked)
      ≡ false)
    × (hosts two_bodies.request_data.header_names ≤ 1)
    × ((is_http1_1 two_bodies.request_data.version ≡ true)
        → hosts two_bodies.request_data.header_names ≡ 1)
check_headers-framing_example = check_headers-framing two_bodies refl head_accepted

send_status-text_example :
    Sends []
      (codes "HTTP/1.0 " ++ (text 10 404 ++ (codes " " ++ codes "Not Found")))
      (send_status http1_0 404 (codes "Not Found") (record { sent = []; outcomes = [] }))
    × Sends []
        (codes "HTTP/1.1 " ++ (text 10 404 ++ (codes " " ++ codes "Not Found")))
        (send_status http1_1 404 (codes "Not Found") (record { sent = []; outcomes = [] }))
send_status-text_example = send_status-text 404 (codes "Not Found") [] (omega arith)

-- The last element of a list with blanks.
get_last_run : get_last (codes "gzip, Chunked ") ≡ codes "Chunked"
unfolding get_last
get_last_run = refl

-- Behind a prefix that a line before it left, `peekMatch` looks no further.
peek_match_run : (peek_match (codes "PRI *") peeking_reader).0 ≡ ok true
unfolding peek_match bytes_equal
peek_match_run = refl

-- The state of an earlier request goes, but its version stays.
start_request_run : (start_request two_bodies).request_data ≡ record request { url = [] }
unfolding start_request
start_request_run = refl

-- A response that a handler has given a status and a header.
abbrev new_response : Response
new_response = record {
  version = http1_1;
  stream_source = record { sent = []; outcomes = [] };
  resp_status = at_headers;
  output = none;
  status_code = 0;
  status_text = [];
  header_names = [];
  header_values = [];
  status_set = false;
  set_content_length = false;
  content_length = 0;
  set_te_chunked = false;
}

abbrev response : Response
response =
    add_response_header (codes "Server") (codes "a") (set_status 200 (codes "OK") new_response)

response_output : response.output ≡ none
unfolding add_response_header set_status
response_output = refl

get_output_stream-close_response_example :
    IsSettled (get_output_stream response).1 × IsSettled (close_response response).1
get_output_stream-close_response_example =
    get_output_stream-close_response response (inl response_output)
