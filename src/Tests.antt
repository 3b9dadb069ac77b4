-- ===== src/Tests.antt =====
-- Concrete runs of the operations on a host that is simulated.
pub mod Host
pub mod Wire
pub mod Session
pub mod Exchanges
pub mod Environment
pub mod Handshake
pub mod Items
pub mod Log
pub mod Told
pub mod Obtained
pub mod Ending
pub mod Conversation
