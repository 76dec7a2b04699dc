-- ===== src/KeyExchange.antt =====
-- tlslite/keyexchange.py and mathtls.py: key exchanges over finite fields.
pub mod Groups
pub mod Ffdh
pub mod Agreement
pub mod Srp
pub mod SrpAgreement
mod Tests
