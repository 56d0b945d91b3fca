-- ===== src/Amm.antt =====
-- contract/src/amm.rs: the automated market maker, a constant-product pool for each pair.
pub mod Pool
pub mod Sqrt
pub mod Swap
pub mod Liquidity
