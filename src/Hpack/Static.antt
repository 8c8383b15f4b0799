-- ===== src/Hpack/Static.antt =====
-- The static tables of src/http2/HpackTable.cpp. The null pointers at index 0 are empty texts.
use cupcake.Base.{[], ◌∷◌, List, Bytes, codes}

unfoldable pub static_names : List Bytes
static_names =
    []
    ∷ codes ":authority"
    ∷ codes ":method"
    ∷ codes ":method"
    ∷ codes ":path"
    ∷ codes ":path"
    ∷ codes ":scheme"
    ∷ codes ":scheme"
    ∷ codes ":status"
    ∷ codes ":status"
    ∷ codes ":status"
    ∷ codes ":status"
    ∷ codes ":status"
    ∷ codes ":status"
    ∷ codes ":status"
    ∷ codes "accept-charset"
    ∷ codes "accept-encoding"
    ∷ codes "accept-language"
    ∷ codes "accept-ranges"
    ∷ codes "accept"
    ∷ codes "access-control-allow-origin"
    ∷ codes "age"
    ∷ codes "allow"
    ∷ codes "authorization"
    ∷ codes "cache-control"
    ∷ codes "content-disposition"
    ∷ codes "content-encoding"
    ∷ codes "content-language"
    ∷ codes "content-length"
    ∷ codes "content-location"
    ∷ codes "content-range"
    ∷ codes "content-type"
    ∷ codes "cookie"
    ∷ codes "date"
    ∷ codes "etag"
    ∷ codes "expect"
    ∷ codes "expires"
    ∷ codes "from"
    ∷ codes "host"
    ∷ codes "if-match"
    ∷ codes "if-modified-since"
    ∷ codes "if-none-match"
    ∷ codes "if-range"
    ∷ codes "if-unmodified-since"
    ∷ codes "last-modified"
    ∷ codes "link"
    ∷ codes "location"
    ∷ codes "max-forwards"
    ∷ codes "proxy-authenticate"
    ∷ codes "proxy-authorization"
    ∷ codes "range"
    ∷ codes "referer"
    ∷ codes "refresh"
    ∷ codes "retry-after"
    ∷ codes "server"
    ∷ codes "set-cookie"
    ∷ codes "strict-transport-security"
    ∷ codes "transfer-encoding"
    ∷ codes "user-agent"
    ∷ codes "vary"
    ∷ codes "via"
    ∷ codes "www-authenticate"
    ∷ []

-- The source lists one more empty value behind these than the array has places.
unfoldable pub static_values : List Bytes
static_values =
    []
    ∷ codes ""
    ∷ codes "GET"
    ∷ codes "POST"
    ∷ codes "/"
    ∷ codes "/index.html"
    ∷ codes "http"
    ∷ codes "https"
    ∷ codes "200"
    ∷ codes "204"
    ∷ codes "206"
    ∷ codes "304"
    ∷ codes "400"
    ∷ codes "404"
    ∷ codes "500"
    ∷ codes ""
    ∷ codes "gzip, deflate"
    ∷ codes ""
    ∷ codes ""
    ∷ codes ""
    ∷ codes ""
    ∷ codes ""
    ∷ codes ""
    ∷ codes ""
    ∷ codes ""
    ∷ codes ""
    ∷ codes ""
    ∷ codes ""
    ∷ codes ""
    ∷ codes ""
    ∷ codes ""
    ∷ codes ""
    ∷ codes ""
    ∷ codes ""
    ∷ codes ""
    ∷ codes ""
    ∷ codes ""
    ∷ codes ""
    ∷ codes ""
    ∷ codes ""
    ∷ codes ""
    ∷ codes ""
    ∷ codes ""
    ∷ codes ""
    ∷ codes ""
    ∷ codes ""
    ∷ codes ""
    ∷ codes ""
    ∷ codes ""
    ∷ codes ""
    ∷ codes ""
    ∷ codes ""
    ∷ codes ""
    ∷ codes ""
    ∷ codes ""
    ∷ codes ""
    ∷ codes ""
    ∷ codes ""
    ∷ codes ""
    ∷ codes ""
    ∷ codes ""
    ∷ codes ""
    ∷ []
