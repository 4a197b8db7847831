-- ===== src/Sessions.antt =====
-- The package sessions: what the broker keeps of a client between its connections.
pub mod StringMap
pub mod Session
pub mod Group
