-- ===== src/Examples.antt =====
-- The theorems at concrete inputs, where their hypotheses hold, and the data for that.
mod Fixtures
mod Broker
mod Polling
mod Workers
mod TonWallets
mod XrplTransactions
mod TonGas
mod Proofs
mod Subscribers
mod GmpClient
mod TonChain
mod XrplIngestion
mod TonTraces
mod XrplPayments
