-- ===== src/Xrpl.antt =====
-- xrpl/src: the parts of the relayer that are for the XRP ledger.
pub mod QueuedTransactions
pub mod Subscriber
pub mod Monitor
pub mod Memos
pub mod Payments
pub mod Routing
pub mod Translation
pub mod Transactions
pub mod Proofs
pub mod Events
pub mod Messages
pub mod Broadcaster
pub mod Refunds
pub mod Retries
