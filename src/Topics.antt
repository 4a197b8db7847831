-- ===== src/Topics.antt =====
-- topics/: the levels of a topic, the trees of subscriptions and of retained messages, and the
-- provider that holds both.
pub mod Level
pub mod Levels
pub mod Trie
pub mod Value
pub mod Subscription
pub mod Retained
pub mod Memory
pub mod Registry
pub mod Manager
