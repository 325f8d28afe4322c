-- ===== src/Ton.antt =====
-- The relayer of the TON chain (ton/src).
pub mod QueryId
pub mod GasEstimator
pub mod Broadcaster
pub mod Conversion
pub mod Parser
pub mod Ingestor
pub mod QueryStore
pub mod Wallets
pub mod Gas
pub mod Traces
pub mod Subscriber
