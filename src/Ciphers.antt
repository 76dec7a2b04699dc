-- ===== src/Ciphers.antt =====
-- tlslite/utils: the ciphers written in Python, and their authenticators.
pub mod Stream
pub mod ChaCha
pub mod Poly1305
pub mod ChaChaLaws
pub mod ChaCha20Poly1305
pub mod Aead
pub mod Rc4
pub mod Rc4Laws
mod Tests
