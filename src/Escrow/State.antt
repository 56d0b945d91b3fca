-- ===== src/Escrow/State.antt =====
-- The trades of contract/src/types.rs, the entries of contract/src/storage.rs, and the guards that
-- the operations of contract/src/lib.rs share. An address, a string and a currency are numbers.
use stellar_escrow.Prelude.{
  ℕ, Bool, true, false, not, ◌&&◌, Option, some, ltb, update, get_or, ◌≡◌, arith,
}
use stellar_escrow.Errors.{
  not_initialized, contract_paused, trade_not_found, compliance_data_missing, kyc_not_verified,
  aml_not_cleared, jurisdiction_restricted, trade_amount_limit_exceeded,
}
use stellar_escrow.Soroban.{
  Result, ok, ◌>>=◌, ◌>>◌, fail_if, ok_or, ok_or-ok, u64_mod, checked_add, checked_mul, checked_div,
}
use stellar_escrow.Tiers.{Tiers}
use stellar_escrow.Analytics.{Analytics}
use stellar_escrow.Oracle.{Oracles, PriceTrigger}

pub data TradeStatus : Type 0 where
  created : TradeStatus
  funded : TradeStatus
  completed : TradeStatus
  disputed : TradeStatus
  cancelled : TradeStatus
  awaiting_bridge : TradeStatus
  bridge_failed : TradeStatus
  triggered : TradeStatus

pub data DisputeResolution : Type 0 where
  release_to_buyer : DisputeResolution
  release_to_seller : DisputeResolution
  partial : ℕ → DisputeResolution

pub record Trade : Type 0 where
  pub id : ℕ
  pub seller : ℕ
  pub buyer : ℕ
  pub amount : ℕ
  pub fee : ℕ
  pub arbitrator : Option ℕ
  pub status : TradeStatus
  pub expiry_time : Option ℕ
  pub currency : ℕ
  pub metadata : Option ℕ
  pub trigger : Option PriceTrigger

pub data KycStatus : Type 0 where
  unverified : KycStatus
  pending : KycStatus
  verified : KycStatus
  rejected : KycStatus

pub record UserCompliance : Type 0 where
  pub kyc_status : KycStatus
  pub aml_cleared : Bool
  pub jurisdiction : ℕ

pub record CrossChainInfo : Type 0 where
  pub source_chain : ℕ
  pub source_tx_hash : ℕ
  pub expires_at_ledger : ℕ

pub record InsurancePolicy : Type 0 where
  pub provider : ℕ
  pub premium : ℕ
  pub coverage : ℕ
  pub claimed : Bool

-- The storage of the contract, one field for each key or key prefix, with the state of tiers.rs,
-- analytics.rs and oracle.rs and the ledgers of the token contracts. contract/src/storage.rs runs two
-- versions of its functions together, one over the keys of `DataKey` and one over prefixes; the first
-- is taken, also for has_arbitrator and get_insurance_policy, of which it is cut off from its head.
pub record Escrow (L : Type 0) : Type 0 where
  pub initialized : Option Bool
  pub paused : Option Bool
  pub admin : Option ℕ
  pub usdc_token : Option ℕ
  pub fee_bps : Option ℕ
  pub trade_counter : Option ℕ
  pub accumulated_fees : Option ℕ
  pub version : Option ℕ
  pub global_trade_limit : Option ℕ
  pub bridge_oracle : Option ℕ
  pub trades : ℕ → Option Trade
  pub arbitrators : ℕ → Bool
  pub currency_fees : ℕ → Option ℕ
  pub compliance : ℕ → Option UserCompliance
  pub user_limits : ℕ → Option ℕ
  pub jurisdictions : ℕ → Option Bool
  pub cross_chain : ℕ → Option CrossChainInfo
  pub providers : ℕ → Bool
  pub policies : ℕ → Option InsurancePolicy
  pub tiers : Tiers
  pub analytics : Analytics
  pub oracles : Oracles
  pub ledger : L

-- `==` of the derived `PartialEq`
abbrev pub is : TradeStatus → TradeStatus → Bool
is created created = true
is funded funded = true
is completed completed = true
is disputed disputed = true
is cancelled cancelled = true
is awaiting_bridge awaiting_bridge = true
is bridge_failed bridge_failed = true
is triggered triggered = true
is _ _ = false

abbrev pub is_verified : KycStatus → Bool
is_verified verified = true
is_verified _ = false

module _ {L : Type 0} where
  -- Where storage.rs defines an accessor twice, under a short key and under a `DataKey`, either pair of
  -- reader and writer is this entry of the state.
  unfoldable pub is_initialized : Escrow L → Bool
  is_initialized s = get_or s.initialized false

  unfoldable pub is_paused : Escrow L → Bool
  is_paused s = get_or s.paused false

  unfoldable pub require_initialized : Escrow L → Result (Unit {0})
  unfolding is_initialized
  require_initialized s = fail_if (not (is_initialized s)) not_initialized

  unfoldable pub require_not_paused : Escrow L → Result (Unit {0})
  unfolding is_paused
  require_not_paused s = fail_if (is_paused s) contract_paused

  unfoldable pub get_admin : Escrow L → Result ℕ
  get_admin s = ok_or s.admin not_initialized

  unfoldable pub get_usdc_token : Escrow L → Result ℕ
  get_usdc_token s = ok_or s.usdc_token not_initialized

  unfoldable pub get_fee_bps : Escrow L → Result ℕ
  get_fee_bps s = ok_or s.fee_bps not_initialized

  -- the new counter and the state with it
  unfoldable pub increment_trade_counter : Escrow L → Result (Escrow L × ℕ)
  increment_trade_counter s = do
    next ← checked_add u64_mod (get_or s.trade_counter 0) 1
    ok (record s { trade_counter = some next }, next)

  unfoldable pub get_trade : Escrow L → ℕ → Result Trade
  get_trade s trade_id = ok_or (s.trades trade_id) trade_not_found

  abbrev pub save_trade : ℕ → Trade → Escrow L → Escrow L
  save_trade trade_id trade s = record s { trades = update s.trades trade_id (some trade) }

  unfoldable pub add_accumulated_fees : ℕ → Escrow L → Result (Escrow L)
  add_accumulated_fees delta s = do
    fees ← checked_add u64_mod (get_or s.accumulated_fees 0) delta
    ok (record s { accumulated_fees = some fees })

  unfoldable pub get_currency_fees : Escrow L → ℕ → ℕ
  get_currency_fees s currency = get_or (s.currency_fees currency) 0

  abbrev pub set_currency_fees : ℕ → ℕ → Escrow L → Escrow L
  set_currency_fees currency fees s = record s {
    currency_fees = update s.currency_fees currency (some fees);
  }

  unfoldable pub add_currency_fees : ℕ → ℕ → Escrow L → Result (Escrow L)
  add_currency_fees currency delta s = do
    fees ← checked_add u64_mod (get_or (s.currency_fees currency) 0) delta
    ok (set_currency_fees currency fees s)

  unfoldable pub is_jurisdiction_allowed : Escrow L → ℕ → Bool
  is_jurisdiction_allowed s jurisdiction = get_or (s.jurisdictions jurisdiction) true

  unfoldable pub get_user_trade_limit : Escrow L → ℕ → ℕ
  get_user_trade_limit s user = get_or (s.user_limits user) 0

  unfoldable pub get_global_trade_limit : Escrow L → ℕ
  get_global_trade_limit s = get_or s.global_trade_limit 18446744073709551615

  unfoldable pub validate_user_compliance : Escrow L → ℕ → ℕ → Result (Unit {0})
  unfolding is_jurisdiction_allowed get_user_trade_limit get_global_trade_limit
  validate_user_compliance s user amount = do
    compliance ← ok_or (s.compliance user) compliance_data_missing
    fail_if (not (is_verified compliance.kyc_status)) kyc_not_verified
    fail_if (not compliance.aml_cleared) aml_not_cleared
    fail_if (not (is_jurisdiction_allowed s compliance.jurisdiction)) jurisdiction_restricted
    let user_limit = get_user_trade_limit s user
    fail_if (ltb 0 user_limit && ltb user_limit amount) trade_amount_limit_exceeded
    fail_if (ltb (get_global_trade_limit s) amount) trade_amount_limit_exceeded

  unfoldable pub calc_fee : Escrow L → ℕ → Result ℕ
  calc_fee s amount = do
    bps ← get_fee_bps s
    product ← checked_mul u64_mod amount bps
    checked_div product 10000

  pub get_trade-ok :
      (s : Escrow L) (id : ℕ) {t : Trade} → get_trade s id ≡ ok t → s.trades id ≡ some t
  unfolding get_trade
  get_trade-ok s id h = ok_or-ok (s.trades id) _ h

  pub get_trade_found :
      (s : Escrow L) (id : ℕ) (trade : Trade) {found : Trade}
      → s.trades id ≡ some trade
      → get_trade s id ≡ ok found
      → found ≡ trade
  get_trade_found s id trade e h = ground (arith, get_trade-ok s id h)
