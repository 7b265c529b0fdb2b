-- ===== src/Broker/Operations.antt =====
-- What each operation of packages/broker/src/broker.ts does, on success and on error.
pub mod Errors
pub mod Consume
pub mod Drafts
pub mod Exchange
pub mod Tests
