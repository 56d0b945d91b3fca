-- ===== src/Tests/Bridge.antt =====
-- Attestations and a pending trade of the bridge, and privacy settings, on small inputs.
use stellar_escrow.Prelude.{
  ℕ, ◌≤◌, ◌≡◌, refl, arith, true, none, some, [], ◌∷◌, if◌then◌else◌, ◌==◌,
}
use stellar_escrow.Errors.{invalid_status}
use stellar_escrow.Soroban.{ok, err, Ctx, fail_if, ok_or, within_or_trap}
use stellar_escrow.Bridge.{
  wormhole, pending, CrossChainTrade, BridgeProviderConfig, BridgeAttestation, BridgeValidation,
  Bridge, is_some, bridge_retry_limit, validate_bridge_attestation, retry_bridge_attestation,
  rollback_cross_chain_trade,
}
use stellar_escrow.Bridge.Calls.{Call, Trace, LateTrace}
use stellar_escrow.Bridge.Attestations.{Distinct, listed, trace_attested_once}
use stellar_escrow.Bridge.Retries.{late_pending_stays}
use stellar_escrow.Privacy.{Privacy, grant_disclosure}
use stellar_escrow.Privacy.Access as PrivacyAccess
use stellar_escrow.Tests.Ledger.{the, ctx}
use stellar_escrow.Tests.Trades.{start}

abbrev provider : BridgeProviderConfig
provider = record {
  provider = wormhole;
  oracle_address = 6;
  is_active = true;
  fee_bps = 10;
  supported_chains = 3;
  max_trade_amount = 9000;
  min_trade_amount = 1;
}

abbrev waiting : CrossChainTrade
waiting = record {
  trade_id = 1;
  source_chain = 2;
  source_tx_hash = 0;
  bridge_provider = wormhole;
  attestation_id = 5;
  attestation_status = pending;
  attestation_timestamp = 0;
  retry_count = 0;
  min_confirmations = 12;
  current_confirmations = 0;
  bridge_fee = 3;
  bridge_metadata = none;
}

abbrev bridge : Bridge
bridge = record {
  providers = some (provider ∷ []);
  trades = λ id. if id == 1 then some waiting else none;
  attestations = λ _. none;
  nonce = none;
  paused = none;
}

abbrev attestation : BridgeAttestation
attestation = record {
  attestation_id = 5;
  trade_id = 1;
  source_chain = 2;
  source_tx_hash = 0;
  amount = 1000;
  recipient = 3;
  timestamp = 12;
  signature = 1 ∷ [];
  provider = wormhole;
}

abbrev answer : BridgeValidation
answer = record { valid = true; error_code = none; confirmations = 12 }

abbrev attested : Bridge
attested = (the (validate_bridge_attestation attestation bridge) (bridge, answer)).0

attesting_runs : validate_bridge_attestation attestation bridge ≡ ok (attested, answer)
unfolding validate_bridge_attestation ok_or
attesting_runs = refl

trace_attested_once_example :
    Distinct (5 ∷ [])
    × ((n : ℕ) → listed n (5 ∷ []) ≡ true → is_some (attested.attestations n) ≡ true)
trace_attested_once_example =
    trace_attested_once bridge attested (5 ∷ [])
      (Trace.accepting attestation answer Trace.start attesting_runs refl)

abbrev late : Ctx
late = record ctx { timestamp = 5000 }

abbrev retried : Bridge
retried = the (retry_bridge_attestation 1 bridge) bridge

retrying_runs : retry_bridge_attestation 1 bridge ≡ ok retried
unfolding retry_bridge_attestation ok_or fail_if within_or_trap
retrying_runs = refl

late_pending_stays_example :
    (y : CrossChainTrade) × (retried.trades 1 ≡ some y)
    × (y.attestation_status ≡ pending)
    × (y.retry_count ≤ bridge_retry_limit)
    × (rollback_cross_chain_trade 1 retried ≡ err invalid_status)
late_pending_stays_example =
    late_pending_stays 4000 1 bridge retried waiting refl refl (omega arith) (omega arith) (
      LateTrace.late_call late LateTrace.begin (omega arith) (Call.retrying 1 retrying_runs)
        (λ r. r))

abbrev secrets : Privacy
secrets = record { trades = start.trades; privacy = λ _. none; grants = λ _ _. none }

abbrev disclosed : Privacy
disclosed = the (grant_disclosure 64 2 1 8 (7 ∷ []) secrets) secrets

disclosing_runs : grant_disclosure 64 2 1 8 (7 ∷ []) secrets ≡ ok disclosed
unfolding grant_disclosure ok_or fail_if
disclosing_runs = refl

Call-ByParty_example : PrivacyAccess.ByParty 2 1 secrets disclosed
Call-ByParty_example =
    PrivacyAccess.Call-ByParty 64 2 1 secrets disclosed
      (PrivacyAccess.Call.granting 8 (7 ∷ []) disclosing_runs)
