-- ===== src/Sessions.antt =====
-- tlslite/sessioncache.py: the cache of sessions.
pub mod Cache
pub mod Ring
pub mod Queue
pub mod Places
pub mod Refinement
pub mod Purging
mod Tests
