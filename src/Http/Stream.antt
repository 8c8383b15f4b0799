-- ===== src/Http/Stream.antt =====
-- `HttpError` and `StreamSource`, with the answers of src/http/StreamSourceSocket.cpp.
use cupcake.Base.{
  ℕ, suc, ◌≤◌, ◌<◌, ◌≡◌, refl, [], ◌∷◌, ◌++◌, List, min, ◌==◌, ◌⊎◌, inl, inr, arith, ap, sym,
  length-take, take-append-drop, if◌then◌else◌, Bytes, length, take, drop,
}

-- The errors of inc/cupcake/http/HttpError.h; `Ok` is the result `ok` below.
pub data HttpError : Type 0 where
  invalid_state invalid_header stream_closed io_error eof content_length_exceeded line_too_long
        client_error :
      HttpError

-- What a call gives: its result, an error, or behaviour that C++ leaves undefined or, in the model,
-- the end of the fuel.
pub data Reply {ℓ} (A : Type ℓ) : Type ℓ where
  ok : A → Reply A
  err : HttpError → Reply A
  fault : Reply A

-- What follows a call, by what the call gave and the state it left.
abbrev pub on_reply {ℓ κ} :
    {A : Type 0} {S : Type ℓ} {X : Type κ}
    → Reply A × S
    → (A → S → X)
    → (HttpError → S → X)
    → (S → X)
    → X
on_reply (ok a, s) given failed undefined = given a s
on_reply (err e, s) given failed undefined = failed e s
on_reply (fault, s) given failed undefined = undefined s

-- What the peer sends: its bytes in order; for each read, how many bytes beyond the first have
-- come by then (all, when the list ends); and the error that reads give behind the last byte.
pub record Source : Type 0 where
  pub stream : Bytes
  pub arrivals : List ℕ
  pub ending : HttpError

-- How many bytes a read for up to `n` finds.
abbrev pub coming : List ℕ → Bytes → ℕ → ℕ
coming [] stream n = min n (length stream)
coming (k ∷ ks) stream n = min n (min (suc k) (length stream))

abbrev pub rest_of : List ℕ → List ℕ
rest_of [] = []
rest_of (k ∷ ks) = ks

-- `read` and `readv` into buffers of `n` bytes together. No byte read means the end for
-- `StreamSourceSocket`, also where none was asked for.
unfoldable pub source_read : Source → ℕ → Reply Bytes × Source
source_read s n =
    let count = coming s.arrivals s.stream n in
    if length s.stream == 0 then (err s.ending, s) else if n == 0 then (err eof, s) else (
      ok (take count s.stream),
      record s { stream = drop count s.stream; arrivals = rest_of s.arrivals },
    )

-- What a read gives: the error at the end of the stream, or some of its next bytes.
pub source_read-cases :
    (s : Source) (n : ℕ)
    → 0 < n
    → ((s.stream ≡ []) × (source_read s n ≡ (err s.ending, s)))
      ⊎ ((bytes : Bytes) × (s' : Source) × (source_read s n ≡ (ok bytes, s'))
          × (s.stream ≡ bytes ++ s'.stream)
          × (0 < length bytes)
          × (length bytes ≤ n)
          × (s'.ending ≡ s.ending))
unfolding source_read
source_read-cases s n pos = go s.stream refl
  where
    coming-bounds :
        (ks : List ℕ) (x : ℕ) (xs : Bytes)
        → (0 < coming ks (x ∷ xs) n)
          × (coming ks (x ∷ xs) n ≤ n)
          × (coming ks (x ∷ xs) n ≤ length (x ∷ xs))
    coming-bounds [] x xs = (omega arith, omega arith, omega arith)
    coming-bounds (k ∷ ks) x xs = (omega arith, omega arith, omega arith)

    go :
        (xs : Bytes)
        → s.stream ≡ xs
        → ((s.stream ≡ []) × (source_read s n ≡ (err s.ending, s)))
          ⊎ ((bytes : Bytes) × (s' : Source) × (source_read s n ≡ (ok bytes, s'))
              × (s.stream ≡ bytes ++ s'.stream)
              × (0 < length bytes)
              × (length bytes ≤ n)
              × (s'.ending ≡ s.ending))
    go [] e = inl (e, ground (arith, ap length e))
    go (x ∷ xs) e =
        let count = coming s.arrivals s.stream n in
        let b = coming-bounds s.arrivals x xs in
        let len = length-take {A = ℕ} count s.stream in
        let same : coming s.arrivals (x ∷ xs) n ≡ count =
          ap (λ ys. coming s.arrivals ys n) (sym e) in
        inr (
          take count s.stream,
          record s { stream = drop count s.stream; arrivals = rest_of s.arrivals },
          ground (arith, ap length e),
          sym (take-append-drop count s.stream),
          omega (arith, len, ap length e, same, b),
          omega (arith, len, ap length e, same, b),
          refl,
        )
