-- ===== src/Huffman/Data.antt =====
-- The rows of the tables of src/http2/HuffmanData.cpp.
use cupcake.Base.{ℕ, List, [], ◌∷◌}

pub record EncodeData : Type 0 where
  pub bit_count : ℕ
  pub value : ℕ

pub record DecodeData : Type 0 where
  pub state : ℕ
  pub flags : ℕ
  pub symbol : ℕ

abbrev pub code : ℕ → ℕ → EncodeData
code bit_count value = record { bit_count = bit_count; value = value }

abbrev pub cell : ℕ → ℕ → ℕ → DecodeData
cell state flags symbol = record { state = state; flags = flags; symbol = symbol }

-- A row of the decode table: the state, flags and symbol at each of the 16 nibbles.
abbrev pub row :
    (s0 f0 y0 s1 f1 y1 s2 f2 y2 s3 f3 y3 s4 f4 y4 s5 f5 y5 s6 f6 y6 s7 f7 y7 s8 f8 y8 s9 f9 y9 sa fa
      ya sb fb yb sc fc yc sd fd yd se fe ye sf ff yf : ℕ)
    → List DecodeData
row s0 f0 y0 s1 f1 y1 s2 f2 y2 s3 f3 y3 s4 f4 y4 s5 f5 y5 s6 f6 y6 s7 f7 y7 s8 f8 y8 s9 f9 y9 sa fa
      ya sb fb yb sc fc yc sd fd yd se fe ye sf ff yf =
    cell s0 f0 y0
    ∷ cell s1 f1 y1
    ∷ cell s2 f2 y2
    ∷ cell s3 f3 y3
    ∷ cell s4 f4 y4
    ∷ cell s5 f5 y5
    ∷ cell s6 f6 y6
    ∷ cell s7 f7 y7
    ∷ cell s8 f8 y8
    ∷ cell s9 f9 y9
    ∷ cell sa fa ya
    ∷ cell sb fb yb
    ∷ cell sc fc yc
    ∷ cell sd fd yd
    ∷ cell se fe ye
    ∷ cell sf ff yf
    ∷ []
