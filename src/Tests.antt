-- ===== src/Tests.antt =====
-- The theorems at concrete inputs: the crates as small functions, and runs of the program.
mod Fixtures
mod Escaped
mod Objects
mod Peers
mod Network
mod Loop
mod Agreement
mod Interleaved
mod Running
mod Units
mod Dialling
mod Closing
mod Transactions
