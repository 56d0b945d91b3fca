-- ===== src/Indexer.antt =====
-- indexer/src: the parts of the off-chain service that decide something by themselves.
pub mod RateLimit
pub mod Webhooks
pub mod Compliance
pub mod Gateway
pub mod Auth
pub mod Jobs
pub mod Coordinator
