-- ===== src/Indexer/Coordinator.antt =====
-- indexer/src/bridge_service: the validation of an attestation (validator.rs), the deposits and retries of
-- bridge trades (coordinator.rs), and how a failure is handled (mod.rs). Whether an insertion into
-- the database succeeds is the argument `stored`; the trade states are memory, which an error leaves as
-- they are by then. What the JSON of an attestation and the client of the provider answer are fields.
pub mod Failures
use stellar_escrow.Prelude.{
  ℕ, ◌+◌, ◌%◌, Bool, true, false, not, ◌&&◌, Option, none, some, ltb, ◌==◌, update, if◌then◌else◌,
}
use stellar_escrow.Soroban.{u32_mod, u64_mod}

pub data TradeStage : Type 0 where
  confirmed : TradeStage
  retrying : TradeStage

pub record BridgeTradeState : Type 0 where
  pub trade_id : ℕ
  pub retry_count : ℕ
  pub last_retry_time : ℕ
  pub status : TradeStage

abbrev pub TradeStates : Type 0
TradeStates = ℕ → Option BridgeTradeState

-- `well_formed` says that the fields are there and of their types; `known` is what the search for the
-- same attestation answers, `none` where it fails.
pub record Attestation : Type 0 where
  pub well_formed : Bool
  pub amount : ℕ
  pub timestamp : ℕ
  pub known : Option Bool

abbrev pub is_false : Option Bool → Bool
is_false none = false
is_false (some b) = not b

abbrev pub is_true : Option Bool → Bool
is_true none = false
is_true (some b) = b

-- The sums wrap.
unfoldable pub validate_timestamp : ℕ → ℕ → Bool
validate_timestamp now timestamp =
    not (ltb ((timestamp + 3600) % u64_mod) now) && not (ltb ((now + 300) % u64_mod) timestamp)

-- `true` is `Ok`.
unfoldable pub validate_attestation : ℕ → Attestation → Bool
unfolding validate_timestamp
validate_attestation now a =
    a.well_formed && not (a.amount == 0) && validate_timestamp now a.timestamp && is_false a.known

-- What the attestation and the provider's client say of a deposit, with `none` for an error.
pub record Deposit : Type 0 where
  pub provider_given : Bool
  pub client_ready : Bool
  pub parses : Bool
  pub verified : Option Bool
  pub source_tx_hash_given : Bool
  pub finalized : Option Bool

abbrev pub is_accepted : Deposit → Bool
is_accepted d =
    d.provider_given
    && d.client_ready
    && d.parses
    && is_true d.verified
    && d.source_tx_hash_given
    && is_true d.finalized

-- the states, and whether the call succeeds
unfoldable pub confirm_deposit : ℕ → Bool → Deposit → ℕ → TradeStates → TradeStates × Bool
confirm_deposit now stored d trade_id s =
    if is_accepted d && stored
    then (
      update s trade_id (
          some (record {
            trade_id = trade_id;
            retry_count = 0;
            last_retry_time = now;
            status = confirmed;
          })),
      true,
    )
    else (s, false)

abbrev pub retry_due : ℕ → Option BridgeTradeState → Bool
retry_due now none = false
retry_due now (some st) = ltb st.retry_count 3 && ltb (st.last_retry_time + 300) now

unfoldable pub should_retry : ℕ → ℕ → TradeStates → Bool
should_retry now trade_id s = retry_due now (s trade_id)

abbrev pub retried : ℕ → BridgeTradeState → BridgeTradeState
retried now st = record st {
  retry_count = (st.retry_count + 1) % u32_mod;
  last_retry_time = now;
  status = retrying;
}

abbrev pub retry_found : ℕ → Bool → ℕ → TradeStates → Option BridgeTradeState → TradeStates × Bool
retry_found now stored trade_id s none = (s, true)
retry_found now stored trade_id s (some st) = (update s trade_id (some (retried now st)), stored)

unfoldable pub retry_attestation : ℕ → Bool → ℕ → TradeStates → TradeStates × Bool
retry_attestation now stored trade_id s = retry_found now stored trade_id s (s trade_id)

unfoldable pub rollback_trade : Bool → ℕ → TradeStates → TradeStates × Bool
rollback_trade stored trade_id s = (update s trade_id none, stored)

unfoldable pub process_attestation :
    ℕ → Bool → Attestation → Deposit → ℕ → TradeStates → TradeStates × Bool
unfolding validate_attestation confirm_deposit
process_attestation now stored a d trade_id s =
    if validate_attestation now a then confirm_deposit now stored d trade_id s else (s, false)

unfoldable pub handle_bridge_failure : ℕ → Bool → ℕ → TradeStates → TradeStates × Bool
unfolding should_retry retry_attestation rollback_trade
handle_bridge_failure now stored trade_id s =
    if should_retry now trade_id s
    then retry_attestation now stored trade_id s
    else rollback_trade stored trade_id s
