-- ===== src/Soroban.antt =====
-- What the contract takes from its host (the Soroban SDK, which is not part of this repository):
-- the outcome of a call, checked machine arithmetic, the call's context, and the token contracts.
mod Outcome
mod Machine
mod Host
mod Post
unfoldable pub use Outcome.*
unfoldable pub use Machine.*
unfoldable pub use Host.*
pub use Post.*
