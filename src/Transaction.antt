-- ===== src/Transaction.antt =====
-- src/protocol/transaction.rs: transactions, and the check of a transaction object.
pub mod Types
pub mod Blank
pub mod Check
pub mod Spec
