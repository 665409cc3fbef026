-- ===== src/Bits.antt =====
-- The bitwise operators of C on words, as arithmetic at every width.
pub mod Digit
pub mod Split
pub mod Field
pub mod Word
pub mod High
