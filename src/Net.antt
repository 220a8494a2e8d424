-- ===== src/Net.antt =====
-- src/net, and the handshake: frames, the message loop, connections and tasks.
pub mod Crates
pub mod Framing
pub mod Dispatch
pub mod Handshake
pub mod Listener
pub mod Client
pub mod Housekeeping
