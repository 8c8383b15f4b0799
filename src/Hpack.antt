-- ===== src/Hpack.antt =====
-- src/http2: the HPACK tables and the header decoder.
pub mod Static
pub mod Table
pub mod Reader
pub mod Decoder
mod Tests
