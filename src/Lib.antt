-- ===== src/Lib.antt =====
-- StellarEscrow: the Soroban contract under contract/src, as functions on its storage, and six parts
-- of the service under indexer/src that watches it.
--
-- The contract holds trades between a seller and a buyer in escrow, settles disputes through an
-- arbitrator or a panel, keeps fees, tiers and statistics, reads oracle prices for triggers, runs
-- constant-product pools beside the escrow, and can be upgraded under a timelock. The parts meet
-- in lib.rs: its operations read the storage, call the token contracts, and run the hooks of
-- tiers.rs, analytics.rs and oracle.rs, whose states are fields of the escrow's state here. Governance
-- changes the fee rate, the tiers and the fees of the escrow by votes; subscriptions, templates,
-- privacy settings, social ratings and the bridge keep entries of their own beside the trades.
--
-- How the code corresponds to the files:
--   contract/src/lib.rs         Escrow/Trades (the operations on a trade), Escrow/CrossChain,
--                               Escrow/Admin, Escrow/Insurance; their theorems in Escrow/Status,
--                               Escrow/Traces, Escrow/Money, Escrow/Receipt, Escrow/Fees
--   contract/src/storage.rs and contract/src/types.rs
--                               Escrow/State: one field for each key or key prefix
--   contract/src/partial_release.rs   Escrow/PartialRelease
--   contract/src/amm.rs         Amm/Pool, Amm/Sqrt, Amm/Swap, Amm/Liquidity, with their theorems below
--   contract/src/upgrade.rs     Upgrade, Upgrade/Timelock, Upgrade/Guard
--   contract/src/oracle.rs      Oracle, Oracle/Price, Oracle/Registry; its sort in Prelude/Sort
--   contract/src/multisig.rs    Multisig, Multisig/Consensus
--   contract/src/reputation.rs  Reputation
--   contract/src/tiers.rs       Tiers, Tiers/Promotion
--   contract/src/analytics.rs   Analytics, Analytics/Rates, Analytics/Windows
--   contract/src/queries.rs     Queries, Queries/Pages
--   contract/src/governance.rs  Governance, Governance/Calls, Governance/Steps, Governance/Effects,
--                               Governance/Votes, Governance/Execution, Governance/Delegation
--   contract/src/bridge.rs      Bridge, Bridge/Calls, Bridge/Providers, Bridge/Attestations,
--                               Bridge/Retries
--   contract/src/subscription.rs      Subscription, Subscription/Renewal
--   contract/src/templates.rs   Templates, Templates/Versions, Templates/Resolution
--   contract/src/privacy.rs     Privacy, Privacy/Access
--   contract/src/social.rs      Social, Social/Ratings, Social/Follows
--   contract/src/insurance.rs   Escrow/FlatInsurance
--   contract/src/emergency.rs   Escrow/Emergency
--   contract/src/errors.rs      Errors
--   indexer/src/rate_limit.rs   Indexer/RateLimit, with Lists and Window
--   indexer/src/webhook_service       Indexer/Webhooks, with Delivery and Failures
--   indexer/src/compliance_service    Indexer/Compliance, with Decision
--   indexer/src/gateway.rs and indexer/src/auth.rs
--                               Indexer/Gateway, with Access and RoundRobin
--   indexer/src/bridge_service  Indexer/Coordinator, with Failures
--   indexer/src/job_queue       Indexer/Jobs, with Dequeue and Retries
--
-- A function has its name in the source. A call is a function from the storage to a `Result`: `ok`
-- with the new storage, `err` with a ContractError, or `trap` for a panic (a refused authorisation, a
-- transfer that the token refuses, an overflow of a plain operator: the release profile checks
-- overflows). An error or a panic rolls the storage back, so neither carries one. The machine integers
-- are natural numbers with their checks written out (Soroban/Machine); amounts that are `i128` in a
-- transfer come from `u64` values and are never negative. Addresses, strings and hashes are numbers.
-- The token contracts are the parameter `Token`, over any type of ledgers; `TokenLaws` states what a
-- transfer does to balances. What an oracle contract answers is the parameter `lastprice`, and the
-- tier thresholds, which no file defines, are parameters too. Events are left out.
--
-- The constants of governance, subscriptions, templates and privacy, which types.rs is said to define
-- and does not, are parameters, and so is what the mint of the governance token does. In the indexer
-- the answers of HTTP requests and the clock are arguments, Redis is the parameter `Redis` with
-- `LpopLaws`, and no database is modelled.
--
-- The only loop without a structural measure is Newton's iteration; it is a recursion on `Acc` and
-- needs no fuel. The loops over vectors recurse on lists, and the delivery of a webhook on the number
-- of attempts that are left.
--
-- Not modelled: create_trade and create_multisig_trade of lib.rs, which are fragments of several
-- versions run together; proxy.rs and events.rs; the rest of indexer/, which is SQL, HTTP and
-- configuration around the parts above, and the event monitor and the fraud rules; and everything else, which is services and user interfaces
-- around the contract. The source in the repository does not compile as it stands: where two versions
-- of a function are both complete, the comment above the definition says which is taken.
pub mod Prelude
pub mod Errors
pub mod Soroban
pub mod Amm
pub mod Tiers
pub mod Analytics
pub mod Upgrade
pub mod Oracle
pub mod Escrow
pub mod Reputation
pub mod Multisig
pub mod Queries
pub mod Governance
pub mod Subscription
pub mod Templates
pub mod Bridge
pub mod Social
pub mod Privacy
pub mod Indexer
pub mod Tests
