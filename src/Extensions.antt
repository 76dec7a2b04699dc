-- ===== src/Extensions.antt =====
-- tlslite/extensions.py: extensions, written, read and found by their type.
pub mod Shapes
pub mod Payloads
pub mod Kinds
pub mod Data
pub mod Extension
pub mod ListItems
pub mod Fields
pub mod RoundTrip
pub mod Headers
mod Tests
