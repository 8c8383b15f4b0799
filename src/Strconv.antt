-- ===== src/Strconv.antt =====
-- src/text/Strconv.cpp: numbers to text and back, in radix 2 to 16.
pub mod Digit
pub mod Numeral
pub mod Parse
pub mod ParseInt
pub mod Text
pub mod Buffer
pub mod Print
pub mod Table
pub mod Decimal
pub mod ToStr
mod Tests
