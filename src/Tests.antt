-- ===== src/Tests.antt =====
-- The theorems at concrete inputs.
pub mod Codec
pub mod Topics
pub mod Sessions
pub mod Server
pub mod Running
pub mod Auth
pub mod Engine
pub mod Turns
