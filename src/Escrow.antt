-- ===== src/Escrow.antt =====
-- contract/src/lib.rs with the storage of contract/src/storage.rs: the escrow of trades.
pub mod State
pub mod Trades
pub mod Status
pub mod CrossChain
pub mod Numbering
pub mod Traces
pub mod Money
pub mod Receipt
pub mod Admin
pub mod Fees
pub mod Insurance
pub mod PartialRelease
pub mod FlatInsurance
pub mod Emergency
