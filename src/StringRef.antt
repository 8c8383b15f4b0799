-- ===== src/StringRef.antt =====
-- src/text/StringRef.cpp: views of byte texts. A view is the list of the bytes that it shows; where
-- the source makes a view of a part, the model takes that part of the list.
pub mod Search
pub mod Compare
pub mod Backward
mod Tests
