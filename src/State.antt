-- ===== src/State.antt =====
-- src/state: what the tasks of a node share.
pub mod Peers
pub mod Connection
