-- ===== src/Tests.antt =====
-- Runs of the operations on small inputs, over a token ledger that is written out.
mod Ledger
mod Trades
mod Pools
mod Services
mod Governance
mod Contracts
mod Bridge
mod Indexer
mod Jobs
