-- ===== src/Bridge/Calls.antt =====
-- Sequences of the calls of bridge.rs, with the attestations that were accepted.
use stellar_escrow.Prelude.{ℕ, ◌≤◌, ◌≡◌, true, false, List, [], ◌∷◌}
use stellar_escrow.Soroban.{ok, Ctx}
use stellar_escrow.Bridge.{
  BridgeProvider, AttestationStatus, CrossChainTrade, BridgeProviderConfig, BridgeAttestation,
  BridgeValidation, Bridge, register_bridge_provider, deactivate_bridge_provider,
  create_cross_chain_trade, update_attestation_status, validate_bridge_attestation, pause_bridge,
  resume_bridge, get_next_bridge_nonce, retry_bridge_attestation, rollback_cross_chain_trade,
}

-- One successful call that is no validation of an attestation.
pub data Call (c : Ctx) (s s' : Bridge) : Type 0 where
  registering :
      (config : BridgeProviderConfig) → register_bridge_provider config s ≡ ok s' → Call c s s'
  deactivating : (p : BridgeProvider) → deactivate_bridge_provider p s ≡ ok s' → Call c s s'
  creating :
      (id chain hash : ℕ) (p : BridgeProvider) (attestation fee : ℕ) (x : CrossChainTrade)
      → create_cross_chain_trade c id chain hash p attestation fee s ≡ ok (s', x)
      → Call c s s'
  updating :
      (id : ℕ) (status : AttestationStatus) (confirmations : ℕ)
      → update_attestation_status c id status confirmations s ≡ ok s'
      → Call c s s'
  pausing : s' ≡ pause_bridge s → Call c s s'
  resuming : s' ≡ resume_bridge s → Call c s s'
  numbering : (n : ℕ) → get_next_bridge_nonce s ≡ ok (s', n) → Call c s s'
  retrying : (id : ℕ) → retry_bridge_attestation id s ≡ ok s' → Call c s s'
  rolling_back :
      (id : ℕ) (x : CrossChainTrade) → rollback_cross_chain_trade id s ≡ ok (s', x) → Call c s s'

-- The call writes a new entry for the trade.
abbrev pub Creates : {c : Ctx} {s s' : Bridge} → Call c s s' → ℕ → Type 0
Creates (creating id _ _ _ _ _ _ _) j = j ≡ id
Creates _ j = ⊥

-- Calls one after the other, with the ids of the attestations that were found valid, the last first.
pub data Trace (s : Bridge) : List ℕ → Bridge → Type 0 where
  start : Trace s [] s
  call :
      {ids : List ℕ} {s' s'' : Bridge} (c : Ctx) → Trace s ids s' → Call c s' s'' → Trace s ids s''
  accepting :
      {ids : List ℕ} {s' s'' : Bridge} (a : BridgeAttestation) (v : BridgeValidation)
      → Trace s ids s'
      → validate_bridge_attestation a s' ≡ ok (s'', v)
      → v.valid ≡ true
      → Trace s (a.attestation_id ∷ ids) s''
  refusing :
      {ids : List ℕ} {s' s'' : Bridge} (a : BridgeAttestation) (v : BridgeValidation)
      → Trace s ids s'
      → validate_bridge_attestation a s' ≡ ok (s'', v)
      → v.valid ≡ false
      → Trace s ids s''

-- Calls at times from `n` on, none of which creates the trade `id`.
pub data LateTrace (n id : ℕ) (s : Bridge) : Bridge → Type 0 where
  begin : LateTrace n id s s
  late_call :
      {s' s'' : Bridge} (c : Ctx)
      → LateTrace n id s s'
      → n ≤ c.timestamp
      → (k : Call c s' s'') → ¬ Creates k id
      → LateTrace n id s s''
  late_check :
      {s' s'' : Bridge} (a : BridgeAttestation) (v : BridgeValidation)
      → LateTrace n id s s'
      → validate_bridge_attestation a s' ≡ ok (s'', v)
      → LateTrace n id s s''
