-- ===== src/ConstantTime.antt =====
-- tlslite/utils/constanttime.py: comparisons and the check of CBC records that take constant time.
pub mod Words
pub mod Comparisons
pub mod Cbc
pub mod Loops
pub mod CbcCheck
pub mod CbcPlaces
pub mod CbcVerdict
mod Tests
