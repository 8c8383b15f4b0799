-- ===== src/Huffman/EncodeTable.antt =====
-- `huffmanEncodeTable` of src/http2/HuffmanData.cpp.
mod Low
mod High
use cupcake.Base.{List, ◌++◌}
use cupcake.Huffman.Data.{EncodeData}
use Low.{low_codes}
use High.{high_codes}

unfoldable pub huffman_encode_table : List EncodeData
unfolding low_codes high_codes
huffman_encode_table = low_codes ++ high_codes
