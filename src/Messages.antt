-- ===== src/Messages.antt =====
-- tlslite/messages.py: the handshake messages, and the choice among them in tlslite/tlsrecordlayer.py.
pub mod Suites
pub mod Kinds
pub mod Frames
pub mod Bodies
pub mod Handshakes
pub mod Fields
pub mod Hellos
pub mod Exchanges
pub mod RoundTrip
mod Tests
