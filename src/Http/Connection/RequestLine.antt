-- ===== src/Http/Connection/RequestLine.antt =====
-- The request lines that `parseRequestLine` takes.
use mathlib.Core.List.{append_assoc}
use cupcake.Base.{
  nonzero, ◌+◌, ◌-◌, ◌<◌, ◌≡◌, ◌∙◌, refl, sym, ap, Bool, true, false, ◌∷◌, ◌++◌, some, arith, ◌==◌,
  if◌then◌else◌, Bytes, bytes_equal, Lacks, codes, length, take, length-append, take-length-append,
}
use cupcake.Http.Connection.{
  fine, Connection, method_lookup_map, find_method, set_url, set_version, parse_request_line,
}
use cupcake.Http.Request.{HttpMethod, http1_0, http1_1}
use cupcake.StringRef.Compare.{substring, equals}
use cupcake.Http.Connection.Parts.{
  index_of_char-append, drop_behind, index_of_char_from-append, substring_front, substring_back,
}

not_last :
    (name tail : Bytes)
    → 0 < length tail
    → (length name == length (name ++ 0x20 ∷ tail) - 1) ≡ false
not_last name tail pos = ground (arith, length-append name (0x20 ∷ tail))

substring_middle :
    (name url version : Bytes)
    → substring
        (name ++ 0x20 ∷ (url ++ 0x20 ∷ version))
        (length name + 1)
        (length name + 1 + length url)
      ≡ url
substring_middle name url version =
    let size : length name + 1 + length url - (length name + 1) ≡ length url = omega arith in
    rw size (
      ap (take (length url)) (drop_behind name (url ++ 0x20 ∷ version) 0x20)
      ∙ take-length-append url (0x20 ∷ version))

substring_end :
    (name url version : Bytes)
    → substring
        (name ++ 0x20 ∷ (url ++ 0x20 ∷ version))
        (length name + 1 + length url + 1)
        (length (name ++ 0x20 ∷ (url ++ 0x20 ∷ version)))
      ≡ version
substring_end name url version =
    let whole = sym (append_assoc name (0x20 ∷ url) (0x20 ∷ version)) in
    let place : length name + 1 + length url + 1 ≡ length (name ++ 0x20 ∷ url) + 1 =
      omega (arith, length-append name (0x20 ∷ url)) in
    ap
      (λ k.
        substring (name ++ 0x20 ∷ (url ++ 0x20 ∷ version)) k
          (length (name ++ 0x20 ∷ (url ++ 0x20 ∷ version))))
      place
    ∙ ap (λ s. substring s (length (name ++ 0x20 ∷ url) + 1) (length s)) whole
    ∙ substring_back (name ++ 0x20 ∷ url) version 0x20

set_version-lem :
    (eleven : Bool) (c : Connection)
    → set_version (if eleven then codes "HTTP/1.1" else codes "HTTP/1.0") c ≡ (
      fine,
      record c {
        request_data = record c.request_data { version = if eleven then http1_1 else http1_0 };
        keep_alive = eleven;
      },
    )
unfolding set_version equals bytes_equal
set_version-lem true c = refl
set_version-lem false c = refl

-- A request line is a method of the table, a space, a URL that is not empty and has no space, a space,
-- and the version 1.0 or 1.1. For every such line `parseRequestLine` sets the method, the URL and the
-- version, and keeps the connection alive exactly for 1.1.
pub parse_request_line-sets :
    (name url : Bytes) (m : HttpMethod) (eleven : Bool) (c : Connection)
    → Lacks 0x20 name
    → find_method method_lookup_map name ≡ some m
    → 0 < length url
    → Lacks 0x20 url
    → parse_request_line
        (name ++ 0x20 ∷ (url ++ 0x20 ∷ (if eleven then codes "HTTP/1.1" else codes "HTTP/1.0")))
        c
      ≡ (
        fine,
        record c {
          request_data = record c.request_data {
            version = if eleven then http1_1 else http1_0;
            method = m;
            url = url;
          };
          keep_alive = eleven;
        },
      )
unfolding parse_request_line set_url
parse_request_line-sets name url m eleven c plain known some_url plain' =
    let version = if eleven then codes "HTTP/1.1" else codes "HTTP/1.0" in
    let tail = url ++ 0x20 ∷ version in
    let first = index_of_char-append 0x20 name tail plain in
    let second = index_of_char_from-append 0x20 0x20 name url version plain' in
    let more = not_last name tail (omega (arith, length-append url (0x20 ∷ version))) in
    let some_byte = nonzero (length url) some_url in
    rw (first, parse_request_line)
      (rw (more, parse_request_line)
        (rw (second, parse_request_line)
          (rw (substring_front name (0x20 ∷ tail)) (
            rw (substring_middle name url version) (
              rw (substring_end name url version)
                (rw known (rw some_byte (set_version-lem eleven _))))))))
