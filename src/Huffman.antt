-- ===== src/Huffman.antt =====
-- src/http2/HuffmanEncoding.cpp and its tables.
pub mod Bits
pub mod Data
pub mod DecodeTable
pub mod EncodeTable
pub mod Decode
pub mod Encode
mod Tests
