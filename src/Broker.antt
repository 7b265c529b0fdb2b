-- ===== src/Broker.antt =====
-- packages/broker: completion-scoped, single-use delegated credentials.
pub mod Types
pub mod Errors
pub mod Policy
pub mod Authority
pub mod Store
pub mod Crypto
pub mod Core
pub mod Exchange
pub mod Approve
pub mod Consume
pub mod Finalize
pub mod Complete
pub mod Ledger
pub mod Invariant
pub mod Operations
pub mod Example
pub mod Run
pub mod Middleware
pub mod Worker
