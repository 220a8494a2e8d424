-- ===== src/Std.antt =====
-- What the program uses of Rust's standard library on texts.
pub mod Utf8
pub mod Trim
pub mod Split
pub mod Decimal
pub mod Ipv4
pub mod Sink
