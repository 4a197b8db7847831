-- ===== src/Server.antt =====
-- The package server, with the blackboard: the connections of the broker and their handlers.
pub mod State
pub mod Action
pub mod Publish
pub mod Close
pub mod Connect
pub mod Subscribe
pub mod Dispatch
pub mod Writer
pub mod Step
pub mod Sound
pub mod Serve
pub mod Listener
pub mod Tcp
