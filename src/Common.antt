-- ===== src/Common.antt =====
-- The package common: the table of messages that wait for an answer.
pub mod MessageTable
