-- ===== src/Http/Request.antt =====
-- src/http/RequestData.cpp, with the methods and versions of inc/cupcake/http/Http.h.
use cupcake.Base.{[], ◌∷◌, ◌++◌, List, Option, none, some, Bytes}

pub data HttpVersion : Type 0 where
  http1_0 http1_1 http2_0 : HttpVersion

pub data HttpMethod : Type 0 where
  get_method head_method post_method put_method patch_method delete_method trace_method
        options_method connect_method :
      HttpMethod

pub record RequestData : Type 0 where
  pub version : HttpVersion
  pub method : HttpMethod
  pub url : Bytes
  pub header_names : List Bytes
  pub header_values : List Bytes

-- `addHeaderName` and `addHeaderValue`, one after the other.
abbrev pub add_header : Bytes → Bytes → RequestData → RequestData
add_header name value q = record q {
  header_names = q.header_names ++ name ∷ [];
  header_values = q.header_values ++ value ∷ [];
}

abbrev pub append_last : List Bytes → Bytes → Option (List Bytes)
append_last [] extension = none
append_last (v ∷ []) extension = some ((v ++ extension) ∷ [])
append_last (v ∷ w ∷ vs) extension = elim (append_last (w ∷ vs) extension) [
  | none ↦ none
  | some rest ↦ some (v ∷ rest)
]

-- `appendToHeaderValue`. With no value yet, `back` is undefined.
unfoldable pub append_to_header_value : Bytes → RequestData → Option RequestData
append_to_header_value extension q = elim (append_last q.header_values extension) [
  | none ↦ none
  | some values ↦ some (record q { header_values = values })
]

-- `reset`, which keeps the version. `HttpMethod()` is the first method.
unfoldable pub reset : RequestData → RequestData
reset q = record q { method = get_method; url = []; header_names = []; header_values = [] }
