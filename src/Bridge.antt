-- ===== src/Bridge.antt =====
-- contract/src/bridge.rs: the bridge providers, the cross-chain trades with their attestations, and
-- retries. The destination chain, always the same text, is left out. A chain, a hash, an attestation id, an oracle and the name of a custom provider are numbers.
-- The sum with the attestation timeout is a plain `+`, which traps where it does not fit.
pub mod Providers
pub mod Calls
pub mod Attestations
pub mod Retries
use stellar_escrow.Prelude.{
  ℕ, ◌+◌, Bool, true, false, not, ◌&&◌, ◌||◌, Option, none, some, List, [], ◌∷◌, ◌++◌, length, ltb,
  leb, ◌==◌, update, if◌then◌else◌, get_or,
}
use stellar_escrow.Errors.{
  bridge_provider_not_found, bridge_provider_already_registered, bridge_provider_limit_exceeded,
  bridge_trade_not_found, bridge_trade_expired, bridge_retry_limit_exceeded, invalid_status,
}
use stellar_escrow.Soroban.{
  Result, ok, err, ◌>>=◌, ◌>>◌, fail_if, ok_or, u32_mod, u64_mod, checked_add, within_or_trap,
  as_u32, Ctx,
}

abbrev pub max_bridge_providers : ℕ
max_bridge_providers = 10

abbrev pub bridge_attestation_timeout_secs : ℕ
bridge_attestation_timeout_secs = 3600

abbrev pub bridge_retry_limit : ℕ
bridge_retry_limit = 3

abbrev pub bridge_confirmation_blocks : ℕ
bridge_confirmation_blocks = 12

pub data BridgeProvider : Type 0 where
  wormhole : BridgeProvider
  ibc : BridgeProvider
  axelar : BridgeProvider
  layer_zero : BridgeProvider
  custom : ℕ → BridgeProvider

pub data AttestationStatus : Type 0 where
  pending : AttestationStatus
  confirmed : AttestationStatus
  failed : AttestationStatus
  expired : AttestationStatus

pub record CrossChainTrade : Type 0 where
  pub trade_id : ℕ
  pub source_chain : ℕ
  pub source_tx_hash : ℕ
  pub bridge_provider : BridgeProvider
  pub attestation_id : ℕ
  pub attestation_status : AttestationStatus
  pub attestation_timestamp : ℕ
  pub retry_count : ℕ
  pub min_confirmations : ℕ
  pub current_confirmations : ℕ
  pub bridge_fee : ℕ
  pub bridge_metadata : Option ℕ

pub record BridgeProviderConfig : Type 0 where
  pub provider : BridgeProvider
  pub oracle_address : ℕ
  pub is_active : Bool
  pub fee_bps : ℕ
  pub supported_chains : ℕ
  pub max_trade_amount : ℕ
  pub min_trade_amount : ℕ

pub record BridgeAttestation : Type 0 where
  pub attestation_id : ℕ
  pub trade_id : ℕ
  pub source_chain : ℕ
  pub source_tx_hash : ℕ
  pub amount : ℕ
  pub recipient : ℕ
  pub timestamp : ℕ
  pub signature : List ℕ
  pub provider : BridgeProvider

-- The message that goes with an error code is left out.
pub record BridgeValidation : Type 0 where
  pub valid : Bool
  pub error_code : Option ℕ
  pub confirmations : ℕ

pub record Bridge : Type 0 where
  pub providers : Option (List BridgeProviderConfig)
  pub trades : ℕ → Option CrossChainTrade
  pub attestations : ℕ → Option BridgeAttestation
  pub nonce : Option ℕ
  pub paused : Option Bool

-- `==` of the derived `PartialEq`
abbrev pub same_provider : BridgeProvider → BridgeProvider → Bool
same_provider wormhole wormhole = true
same_provider ibc ibc = true
same_provider axelar axelar = true
same_provider layer_zero layer_zero = true
same_provider (custom a) (custom b) = a == b
same_provider _ _ = false

abbrev pub is_failed : AttestationStatus → Bool
is_failed failed = true
is_failed _ = false

abbrev pub is_expired : AttestationStatus → Bool
is_expired expired = true
is_expired _ = false

abbrev pub is_some : {A : Type 0} → Option A → Bool
is_some none = false
is_some (some _) = true

unfoldable pub get_bridge_providers : Bridge → List BridgeProviderConfig
get_bridge_providers s = get_or s.providers []

-- the loop of register_bridge_provider
unfoldable pub has_provider : BridgeProvider → List BridgeProviderConfig → Bool
has_provider p [] = false
has_provider p (q ∷ qs) = same_provider q.provider p || has_provider p qs

unfoldable pub register_bridge_provider : BridgeProviderConfig → Bridge → Result Bridge
unfolding get_bridge_providers has_provider
register_bridge_provider config s = do
  let providers = get_bridge_providers s
  fail_if (leb max_bridge_providers (length providers)) bridge_provider_limit_exceeded
  fail_if (has_provider config.provider providers) bridge_provider_already_registered
  ok (record s { providers = some (providers ++ config ∷ []) })

-- the loop of get_bridge_provider
unfoldable pub find_active :
    BridgeProvider → List BridgeProviderConfig → Option BridgeProviderConfig
find_active p [] = none
find_active p (q ∷ qs) =
    if same_provider q.provider p && q.is_active then some q else find_active p qs

unfoldable pub get_bridge_provider : BridgeProvider → Bridge → Result BridgeProviderConfig
unfolding find_active get_bridge_providers
get_bridge_provider p s = ok_or (find_active p (get_bridge_providers s)) bridge_provider_not_found

-- the loop of deactivate_bridge_provider, which stops at the first match
unfoldable pub deactivate_first :
    BridgeProvider → List BridgeProviderConfig → List BridgeProviderConfig
deactivate_first p [] = []
deactivate_first p (q ∷ qs) =
    if same_provider q.provider p
    then record q { is_active = false } ∷ qs
    else q ∷ deactivate_first p qs

unfoldable pub deactivate_bridge_provider : BridgeProvider → Bridge → Result Bridge
unfolding has_provider deactivate_first get_bridge_providers
deactivate_bridge_provider p s = do
  let providers = get_bridge_providers s
  fail_if (not (has_provider p providers)) bridge_provider_not_found
  ok (record s { providers = some (deactivate_first p providers) })

abbrev pub save_trade : ℕ → CrossChainTrade → Bridge → Bridge
save_trade trade_id trade s = record s { trades = update s.trades trade_id (some trade) }

unfoldable pub get_cross_chain_trade : ℕ → Bridge → Result CrossChainTrade
get_cross_chain_trade trade_id s = ok_or (s.trades trade_id) bridge_trade_not_found

-- the new state and the trade
unfoldable pub create_cross_chain_trade :
    Ctx → ℕ → ℕ → ℕ → BridgeProvider → ℕ → ℕ → Bridge → Result (Bridge × CrossChainTrade)
unfolding get_bridge_provider
create_cross_chain_trade c trade_id source_chain source_tx_hash p attestation_id bridge_fee s = do
  config ← get_bridge_provider p s
  let trade : CrossChainTrade = record {
    trade_id = trade_id;
    source_chain = source_chain;
    source_tx_hash = source_tx_hash;
    bridge_provider = p;
    attestation_id = attestation_id;
    attestation_status = pending;
    attestation_timestamp = c.timestamp;
    retry_count = 0;
    min_confirmations = bridge_confirmation_blocks;
    current_confirmations = 0;
    bridge_fee = bridge_fee;
    bridge_metadata = none;
  }
  ok (save_trade trade_id trade s, trade)

-- The status `Expired` is set on a local copy only, since the error rolls back.
unfoldable pub update_attestation_status : Ctx → ℕ → AttestationStatus → ℕ → Bridge → Result Bridge
unfolding get_cross_chain_trade
update_attestation_status c trade_id status confirmations s = do
  trade ← get_cross_chain_trade trade_id s
  deadline ← within_or_trap u64_mod (trade.attestation_timestamp + bridge_attestation_timeout_secs)
  fail_if (ltb deadline c.timestamp) bridge_trade_expired
  ok (
      save_trade trade_id
        (record trade { attestation_status = status; current_confirmations = confirmations }) s)

abbrev pub invalid : ℕ → BridgeValidation
invalid code = record { valid = false; error_code = some code; confirmations = 0 }

-- the new state and the answer
unfoldable pub validate_bridge_attestation :
    BridgeAttestation → Bridge → Result (Bridge × BridgeValidation)
unfolding get_bridge_provider
validate_bridge_attestation a s = do
  config ← get_bridge_provider a.provider s
  if length a.signature == 0
      then ok (s, invalid 1)
      else if ltb a.amount config.min_trade_amount || ltb config.max_trade_amount a.amount
      then ok (s, invalid 2)
      else if is_some (s.attestations a.attestation_id)
      then ok (s, invalid 3)
      else ok (
        record s { attestations = update s.attestations a.attestation_id (some a) },
        record { valid = true; error_code = none; confirmations = as_u32 a.timestamp },
      )

unfoldable pub pause_bridge : Bridge → Bridge
pause_bridge s = record s { paused = some true }

unfoldable pub resume_bridge : Bridge → Bridge
resume_bridge s = record s { paused = some false }

unfoldable pub is_bridge_paused : Bridge → Bool
is_bridge_paused s = get_or s.paused false

-- the new state and the nonce
unfoldable pub get_next_bridge_nonce : Bridge → Result (Bridge × ℕ)
get_next_bridge_nonce s = do
  next ← checked_add u64_mod (get_or s.nonce 0) 1
  ok (record s { nonce = some next }, next)

-- The status `Failed` that is saved at the retry limit is rolled back with the error.
unfoldable pub retry_bridge_attestation : ℕ → Bridge → Result Bridge
unfolding get_cross_chain_trade
retry_bridge_attestation trade_id s = do
  trade ← get_cross_chain_trade trade_id s
  fail_if (leb bridge_retry_limit trade.retry_count) bridge_retry_limit_exceeded
  count ← within_or_trap u32_mod (trade.retry_count + 1)
  ok (save_trade trade_id (record trade { retry_count = count; attestation_status = pending }) s)

-- the new state and the trade
unfoldable pub rollback_cross_chain_trade : ℕ → Bridge → Result (Bridge × CrossChainTrade)
unfolding get_cross_chain_trade
rollback_cross_chain_trade trade_id s = do
  trade ← get_cross_chain_trade trade_id s
  fail_if (not (is_failed trade.attestation_status) && not (is_expired trade.attestation_status))
      invalid_status
  let rolled_back : CrossChainTrade = record trade { attestation_status = failed }
  ok (save_trade trade_id rolled_back s, rolled_back)
