-- ===== src/Lib.antt =====
-- A model of cupcake, an HTTP server library in C++, and theorems about it.
--
-- The program reads requests over HTTP/1.1 and HTTP/2 and answers them. The parts that are
-- modelled are those that turn bytes into values and back, and those that hand the bytes of a
-- connection on:
--
-- * `Strconv` is src/text/Strconv.cpp. `Strconv.Parse` and `Strconv.ParseInt` are `parseUint32`,
--   `parseUint64`, `parseInt32` and `parseInt64`; the pair of a value and a success flag is an
--   option. `Strconv.Decimal` is the printing by pairs of digits for radix 10, `Strconv.Print`
--   the printing by remainders for any radix, and `Strconv.ToStr` the public functions, which
--   print to a local array first when the caller's buffer may be too small. `Strconv.Buffer`
--   holds the writes into a `char` buffer, which give `none` behind its end. `Strconv.Table`
--   holds the constants. The printers are compared with `Strconv.Text`, the parsers with
--   `Strconv.Numeral`.
-- * `Hpack` is src/http2/HpackTable.cpp (`Hpack.Static` and `Hpack.Table`) and
--   src/http2/HpackDecoder.cpp (`Hpack.Reader` and `Hpack.Decoder`). The decoder's state is the
--   table, the header lists of src/http/RequestData.cpp and the bytes from `data` up to
--   `dataEnd`. A call gives `ok` with a value and the new state; `refused` where the source
--   returns `false`; `fault` at undefined behaviour or a failed `assert`; `dangling` where it
--   reads a name through a reference into an entry that the table has dropped. `Hpack.Decoder`
--   calls `Hpack.Table` for its entries and `Huffman.Decode` for coded strings.
-- * `Huffman` is src/http2/HuffmanEncoding.cpp (`Huffman.Encode` and `Huffman.Decode`), with the
--   tables of src/http2/HuffmanData.cpp (`Huffman.EncodeTable`, and `Huffman.DecodeTable` with 64
--   rows to a file). `Huffman.Bits` are texts as lists of bits, which the encoder is compared
--   with.
-- * `StringRef` is src/text/StringRef.cpp, the views of texts that the parsers and readers work
--   on. `StringRef.Search` is `indexOf`, `StringRef.Backward` is `lastIndexOf`, and
--   `StringRef.Compare` the comparisons, prefixes and parts. A search gives an index, -1
--   (`missing`) or a fault. `char` is signed, as on the systems that the program is built for.
-- * `Http` is the readers and writers of src/http, and the heads of requests and responses.
--   `Http.Stream` is inc/cupcake/http/HttpError.h and the answers of
--   src/http/StreamSourceSocket.cpp, over a peer that sends its bytes in pieces of any size and
--   then ends or fails. `Http.BufferedReader` is src/http/BufferedReader.cpp; its specification
--   is the list of the bytes that the reader is yet to give, and `Http.BufferedReader.Layout`
--   says which these are. `Http.Sink` is the sending side, a peer that takes writes or fails
--   behind some of their bytes. `Http.Chunked` is src/http/ChunkedReader.cpp, over that reader,
--   `Strconv` and `StringRef`, and src/http/ChunkedWriter.cpp; `Http.Body` is the bodies of known
--   length and the buffered writes; `Http.Request` is src/http/RequestData.cpp and
--   `Http.CommaList` src/http/CommaListIterator.cpp. `Http.Connection` is the parsing of a
--   request head in src/http/HttpConnection.cpp, and `Http.Connection.Special` the headers that
--   the connection itself acts on, and `Http.Connection.Answer` the status it sends when it
--   refuses a request. The loop over the blanks of a header line looks behind its end, so
--   `parse_header_line` also takes the bytes there. `run` and `innerRun` are not modelled but for
--   the order of these calls. `Http.Response` is src/http/HttpResponseImpl.cpp; the writer that
--   it hands out is one of three.
-- * `Base` holds what these share: tests, lists and options over native numbers, byte texts, and
--   the sums of `size_t` (64 bits) and `uint32_t`, which wrap.
--
-- Numbers: a `uint32_t`, `uint64_t` or `size_t` is a natural number, and its sums and products
-- wrap where the source does not rule that out just before; an `int32_t` or `int64_t` is an
-- integer, and the negative accumulator of the parsers is the natural number it is the negative
-- of. Texts are lists of bytes; those given to the parsers are taken to be shorter than 2^32, the
-- range of their index. The loops over a needle whose counter is a `uint32_t` fault where they
-- would never end.
--
-- Fuel: a search by skips moves by one byte at least each round, so `indexOf` takes one round
-- more than there are bytes, and `lastIndexOf` by skips would end in as many if each round moved;
-- `readFixedLength` gets a byte in each round, and `readLine` in each but the last, so they take
-- the bytes asked for, and one round more than the stream has bytes; `discard` and the chunked
-- `read` take two rounds more than the bytes asked for, since all rounds but the first and the
-- last read some; the loops over trailing headers and list elements take a byte each round.
-- `decode` takes one round more than there are bytes, as each round takes a byte; the loops that
-- drop table entries take one more than there are entries; a Huffman code has up to 30 bits and
-- takes five rounds at most; `digitsBase10` of 64 bits calls itself once at most, and its fuel is
-- 2; the printing loops take as many rounds as the `values` array has places. Running out of fuel
-- is a fault or no result, so the theorems show that it does not happen.
--
-- Not modelled: the owned strings of src/text/String.cpp; the loop of src/http/HttpConnection.cpp
-- and the requests it hands to a handler; the routes; src/http2/Http2Connection.cpp; the sockets
-- of src/net and the fibers of src/async, which are calls of the operating system. How a
-- request's bytes reach the decoder is the caller's.
pub mod Base
pub mod StringRef
pub mod Strconv
pub mod Hpack
pub mod Huffman
pub mod Http
