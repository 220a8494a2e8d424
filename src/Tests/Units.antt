-- ===== src/Tests/Units.antt =====
-- The unit tests of the repository, each as what it asserts.
mod Settings
mod Values
mod Decode
mod Spending
mod Wire
mod Frames
mod Messages
mod Connections
mod Flood
mod Nodes
