-- ===== src/Codec.antt =====
-- tlslite/utils/codec.py: the byte writer and the byte parser.
pub mod Writer
pub mod Parser
pub mod Writing
pub mod Reading
pub mod RoundTrip
pub mod LengthChecks
pub mod Coded
pub mod Parts
pub mod Nested
pub mod Items
pub mod Endings
mod Tests
