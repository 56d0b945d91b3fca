-- ===== src/Indexer/Coordinator/Failures.antt =====
-- How often a bridge trade is retried after it was confirmed.
use stellar_escrow.Prelude.{ℕ, suc, ◌≡◌, ◌≢◌, Bool, true, false, Option, none, some}
use stellar_escrow.Indexer.Coordinator.{
  BridgeTradeState, TradeStates, Attestation, Deposit, should_retry, process_attestation,
  handle_bridge_failure,
}

-- Failures and attestations in any order, none of which confirms `id`, with the number of retries of `id`.
pub data Trace (id : ℕ) (s : TradeStates) : ℕ → TradeStates → Type 0 where
  start : Trace id s 0 s
  retrying_it :
      {n : ℕ} {s' : TradeStates} (now : ℕ) (stored : Bool)
      → Trace id s n s'
      → should_retry now id s' ≡ true
      → Trace id s (suc n) (handle_bridge_failure now stored id s').0
  giving_up :
      {n : ℕ} {s' : TradeStates} (now : ℕ) (stored : Bool)
      → Trace id s n s'
      → should_retry now id s' ≡ false
      → Trace id s n (handle_bridge_failure now stored id s').0
  other_fails :
      {n : ℕ} {s' : TradeStates} (now : ℕ) (stored : Bool) (j : ℕ)
      → Trace id s n s'
      → id ≢ j
      → Trace id s n (handle_bridge_failure now stored j s').0
  other_attested :
      {n : ℕ} {s' : TradeStates} (now : ℕ) (stored : Bool) (a : Attestation) (d : Deposit) (j : ℕ)
      → Trace id s n s'
      → id ≢ j
      → Trace id s n (process_attestation now stored a d j s').0

-- The trade is forgotten, or its state counts the retries.
abbrev pub Counts : ℕ → Option BridgeTradeState → Type 0
Counts n none = Unit
Counts n (some st) = st.retry_count ≡ n
