-- ===== src/RecordLayer.antt =====
-- tlslite/recordlayer.py: the protection of records and the state it keeps.
pub mod Suites
pub mod State
pub mod Header
pub mod Protect
pub mod Open
pub mod Receive
pub mod Keys
pub mod Pending
pub mod Headers
pub mod Sealing
pub mod Padding
pub mod ChaChaRecords
mod ChaChaTests
pub mod Blocks
pub mod Limits
pub mod Mirror
pub mod SuiteSettings
mod Tests
pub mod Stripping
pub mod EncryptThenMac
mod MacTests
