-- ===== src/Http/Sink.antt =====
-- The sending side of `StreamSource`.
use cupcake.Base.{ℕ, [], ◌∷◌, ◌++◌, List, Option, none, some, Bytes, take}
use cupcake.Http.Stream.{Reply, ok, err, HttpError}

-- What the peer got, and how the writes to come end: well, or with an error behind some of their bytes.
-- Writes succeed when the list ends.
pub record Sink : Type 0 where
  pub sent : Bytes
  pub outcomes : List (Option (HttpError × ℕ))

-- `write` and `writev` of buffers that hold these bytes together.
abbrev pub sink_write : Sink → Bytes → Reply (Unit {0}) × Sink
sink_write s bytes = elim s.outcomes [
  | [] ↦ (ok tt, record s { sent = s.sent ++ bytes })
  | o ∷ os ↦ elim o [
    | none ↦ (ok tt, record { sent = s.sent ++ bytes; outcomes = os })
    | some (e, k) ↦ (err e, record { sent = s.sent ++ take k bytes; outcomes = os })
  ]
]
