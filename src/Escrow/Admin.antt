-- ===== src/Escrow/Admin.antt =====
-- The operations of the administrator and of the arbitrators in contract/src/lib.rs. `version` is
-- read as 1 where it was never set.
use stellar_escrow.Prelude.{
  ℕ, zero, suc, ◌-◌, Bool, true, false, not, some, ltb, ◌==◌, if◌then◌else◌, update, get_or, ℤ, pos,
  negsuc,
}
use stellar_escrow.Errors.{
  already_initialized, invalid_fee_bps, unauthorized, no_fees_to_withdraw,
  migration_version_mismatch, not_initialized,
}
use stellar_escrow.Soroban.{
  Result, ok, err, ◌>>=◌, ◌>>◌, fail_if, ok_or, u32_mod, checked_add, Ctx, require_auth, Token,
  transfer,
}
use stellar_escrow.Escrow.State.{
  Escrow, UserCompliance, is_initialized, require_initialized, require_not_paused, get_admin,
  get_usdc_token, get_currency_fees, set_currency_fees,
}

-- `amount <= 0`, and the amount where it is positive
unfoldable pub positive : ℤ → Result ℕ
positive (negsuc n) = err no_fees_to_withdraw
positive (pos zero) = err no_fees_to_withdraw
positive (pos (suc n)) = ok (suc n)

module _ {L : Type 0} (c : Ctx) where
  unfoldable pub initialize : ℕ → ℕ → ℕ → Escrow L → Result (Escrow L)
  initialize admin usdc_token fee_bps s = do
    fail_if (is_initialized s) already_initialized
    fail_if (ltb 10000 fee_bps) invalid_fee_bps
    require_auth c admin
    ok (record s {
      admin = some admin;
      usdc_token = some usdc_token;
      fee_bps = some fee_bps;
      trade_counter = some 0;
      accumulated_fees = some 0;
      version = some 1;
      initialized = some true;
    })

  unfoldable pub register_arbitrator : ℕ → Escrow L → Result (Escrow L)
  register_arbitrator arbitrator s = do
    require_initialized s
    require_not_paused s
    admin ← get_admin s
    require_auth c admin
    ok (record s { arbitrators = update s.arbitrators arbitrator true })

  unfoldable pub remove_arbitrator_fn : ℕ → Escrow L → Result (Escrow L)
  remove_arbitrator_fn arbitrator s = do
    require_initialized s
    require_not_paused s
    admin ← get_admin s
    require_auth c admin
    ok (record s { arbitrators = update s.arbitrators arbitrator false })

  unfoldable pub update_fee : ℕ → Escrow L → Result (Escrow L)
  update_fee fee_bps s = do
    require_initialized s
    require_not_paused s
    fail_if (ltb 10000 fee_bps) invalid_fee_bps
    admin ← get_admin s
    require_auth c admin
    ok (record s { fee_bps = some fee_bps })

  -- the guards that the compliance setters share
  unfoldable pub admin_only : ℕ → Escrow L → Result (Unit {0})
  admin_only admin s = do
    require_initialized s
    require_not_paused s
    stored ← get_admin s
    fail_if (not (admin == stored)) unauthorized
    require_auth c admin

  unfoldable pub set_user_compliance : ℕ → ℕ → UserCompliance → Escrow L → Result (Escrow L)
  set_user_compliance admin user compliance s = do
    admin_only admin s
    ok (record s { compliance = update s.compliance user (some compliance) })

  unfoldable pub set_user_trade_limit : ℕ → ℕ → ℕ → Escrow L → Result (Escrow L)
  set_user_trade_limit admin user limit s = do
    admin_only admin s
    ok (record s { user_limits = update s.user_limits user (some limit) })

  unfoldable pub set_jurisdiction_rule : ℕ → ℕ → Bool → Escrow L → Result (Escrow L)
  set_jurisdiction_rule admin jurisdiction allowed s = do
    admin_only admin s
    ok (record s { jurisdictions = update s.jurisdictions jurisdiction (some allowed) })

  unfoldable pub set_global_trade_limit : ℕ → ℕ → Escrow L → Result (Escrow L)
  set_global_trade_limit admin limit s = do
    admin_only admin s
    ok (record s { global_trade_limit = some limit })

  unfoldable pub pause : Escrow L → Result (Escrow L)
  pause s = do
    require_initialized s
    admin ← get_admin s
    require_auth c admin
    ok (record s { paused = some true })

  unfoldable pub unpause : Escrow L → Result (Escrow L)
  unpause s = do
    require_initialized s
    admin ← get_admin s
    require_auth c admin
    ok (record s { paused = some false })

  unfoldable pub set_bridge_oracle : ℕ → Escrow L → Result (Escrow L)
  set_bridge_oracle oracle s = do
    require_initialized s
    admin ← get_admin s
    require_auth c admin
    ok (record s { bridge_oracle = some oracle })

  unfoldable pub migrate : ℕ → Escrow L → Result (Escrow L)
  migrate expected_version s = do
    require_initialized s
    let current = get_or s.version 1
    fail_if (not (current == expected_version)) migration_version_mismatch
    next ← checked_add u32_mod current 1
    ok (record s { version = some next })

  module _ (t : Token L) where
    unfoldable pub withdraw_fees : ℕ → ℕ → ℤ → ℕ → Escrow L → Result (Escrow L)
    withdraw_fees admin currency amount recipient s = do
      require_initialized s
      require_auth c admin
      stored ← get_admin s
      fail_if (not (admin == stored)) unauthorized
      n ← positive amount
      let available = get_currency_fees s currency
      fail_if (ltb available n) no_fees_to_withdraw
      let lowered : Escrow L = set_currency_fees currency (available - n) s
      sent ← transfer t currency c.contract recipient n lowered.ledger
      ok (record lowered { ledger = sent })

    unfoldable pub withdraw_fees_legacy : ℕ → Escrow L → Result (Escrow L)
    withdraw_fees_legacy to s = do
      require_initialized s
      admin ← get_admin s
      require_auth c admin
      fees ← ok_or s.accumulated_fees not_initialized
      fail_if (fees == 0) no_fees_to_withdraw
      usdc ← get_usdc_token s
      sent ← transfer t usdc c.contract to fees s.ledger
      ok (record s { accumulated_fees = some 0; ledger = sent })

    unfoldable pub emergency_withdraw : ℕ → Escrow L → Result (Escrow L)
    emergency_withdraw to s = do
      require_initialized s
      admin ← get_admin s
      require_auth c admin
      usdc ← get_usdc_token s
      let balance = t.balance usdc c.contract s.ledger
      sent ← (if ltb 0 balance then transfer t usdc c.contract to balance s.ledger else ok s.ledger)
      ok (record s { accumulated_fees = some 0; ledger = sent })
