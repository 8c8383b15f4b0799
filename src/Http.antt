-- ===== src/Http.antt =====
-- The HTTP/1 parts of src/http: readers, writers, and the heads of requests and responses.
pub mod Stream
pub mod Sink
pub mod BufferedReader
pub mod Chunked
pub mod Request
pub mod Body
pub mod CommaList
pub mod Connection
pub mod Response
mod Tests
