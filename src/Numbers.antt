-- ===== src/Numbers.antt =====
-- tlslite/utils/cryptomath.py: arithmetic on large integers.
pub mod Divisors
pub mod Integers
pub mod Inverse
pub mod ByteStrings
mod Tests
