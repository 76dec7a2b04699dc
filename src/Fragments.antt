-- ===== src/Fragments.antt =====
-- tlslite/defragmenter.py and messagesocket.py: messages over records.
pub mod Message
pub mod Defragmenter
pub mod Handlers
pub mod Slots
pub mod Sending
pub mod Flights
pub mod Receiving
pub mod Draining
pub mod Delivery
pub mod Channel
mod Tests
mod DrainTests
