-- ===== src/Dvnizk.antt =====
-- tlslite/dvnizk.py: proofs for a designated verifier, and their use in the TLS 1.3 handshake.
pub mod Curve
pub mod Proof
pub mod Honest
pub mod Simulation
pub mod Correspondence
pub mod Wire
pub mod Keys
pub mod Handshake
pub mod Agreement
mod Tests
mod KeyTests
