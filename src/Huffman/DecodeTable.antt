-- ===== src/Huffman/DecodeTable.antt =====
-- `huffmanDecodeTable` of src/http2/HuffmanData.cpp.
mod First
mod Second
mod Third
mod Fourth
use cupcake.Base.{List, ◌++◌}
use cupcake.Huffman.Data.{DecodeData}
use First.{first_rows}
use Second.{second_rows}
use Third.{third_rows}
use Fourth.{fourth_rows}

unfoldable pub huffman_decode_table : List (List DecodeData)
unfolding first_rows second_rows third_rows fourth_rows
huffman_decode_table = first_rows ++ (second_rows ++ (third_rows ++ fourth_rows))
