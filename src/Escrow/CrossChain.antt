-- ===== src/Escrow/CrossChain.antt =====
-- The cross-chain trades of contract/src/lib.rs. The literal that sets up the trade names `currency`
-- and `metadata` twice, with the same values.
use stellar_escrow.Prelude.{
  ℕ, ◌≡◌, arith, Bool, true, not, Option, none, some, ltb, leb, ◌==◌, update,
}
use stellar_escrow.Errors.{
  invalid_amount, bridge_oracle_not_set, arbitrator_not_registered, invalid_status, trade_not_found,
  bridge_trade_expired, bridge_trade_not_expired,
}
use stellar_escrow.Soroban.{
  Result, ok, ◌>>=◌, ◌>>◌, fail_if, ok_or, u32_mod, checked_add, Ctx, require_auth, Ensures, step,
  returned,
}
use stellar_escrow.Analytics.{on_trade_created, on_trade_funded, on_trade_cancelled}
use stellar_escrow.Escrow.State.{
  awaiting_bridge, funded, cancelled, is, Trade, CrossChainInfo, Escrow, require_initialized,
  require_not_paused, get_trade, get_trade-ok, save_trade, increment_trade_counter, calc_fee,
  get_usdc_token,
}
use stellar_escrow.Escrow.Trades.{with_status, is_none}
use stellar_escrow.Escrow.Status.{AllMove, saved-Moves, was, bridging, expiring}

module _ {L : Type 0} (c : Ctx) where
  abbrev save_cross_chain_info : ℕ → CrossChainInfo → Escrow L → Escrow L
  save_cross_chain_info trade_id info s = record s {
    cross_chain = update s.cross_chain trade_id (some info);
  }

  -- `match arbitrator`: one that is named must be registered. `has_arbitrator` is taken to read the
  -- entry that `save_arbitrator` writes, as its second body in storage.rs does.
  abbrev registered : Escrow L → Option ℕ → Bool
  registered s none = true
  registered s (some a) = s.arbitrators a

  -- `no_hash` stands for the empty string.
  unfoldable pub create_cross_chain_trade :
      (no_hash seller buyer amount : ℕ)
      → Option ℕ
      → (source_chain expiry_ledgers : ℕ) → Escrow L
      → Result (Escrow L × ℕ)
  create_cross_chain_trade no_hash seller buyer amount arbitrator source_chain expiry_ledgers s = do
    require_initialized s
    require_not_paused s
    fail_if (amount == 0) invalid_amount
    fail_if (is_none s.bridge_oracle) bridge_oracle_not_set
    require_auth c seller
    fail_if (not (registered s arbitrator)) arbitrator_not_registered
    (counted, trade_id) ← increment_trade_counter s
    expires ← checked_add u32_mod c.sequence expiry_ledgers
    fee ← calc_fee counted amount
    currency ← get_usdc_token counted
    let trade : Trade = record {
      id = trade_id;
      seller = seller;
      buyer = buyer;
      amount = amount;
      fee = fee;
      arbitrator = arbitrator;
      status = awaiting_bridge;
      expiry_time = none;
      currency = currency;
      metadata = none;
      trigger = none;
    }
    let info : CrossChainInfo = record {
      source_chain = source_chain;
      source_tx_hash = no_hash;
      expires_at_ledger = expires;
    }
    let saved : Escrow L = save_cross_chain_info trade_id info (save_trade trade_id trade counted)
    ok (
      record saved { analytics = on_trade_created c amount seller buyer saved.analytics },
      trade_id,
    )

  unfoldable pub confirm_bridge_deposit : ℕ → ℕ → Escrow L → Result (Escrow L)
  confirm_bridge_deposit trade_id source_tx_hash s = do
    require_initialized s
    oracle ← ok_or s.bridge_oracle bridge_oracle_not_set
    require_auth c oracle
    trade ← get_trade s trade_id
    fail_if (not (is trade.status awaiting_bridge)) invalid_status
    info ← ok_or (s.cross_chain trade_id) trade_not_found
    fail_if (ltb info.expires_at_ledger c.sequence) bridge_trade_expired
    let noted : Escrow L =
        save_cross_chain_info trade_id (record info { source_tx_hash = source_tx_hash }) s
    let saved : Escrow L = save_trade trade_id (with_status funded trade) noted
    ok (record saved { analytics = on_trade_funded saved.analytics })

  unfoldable pub expire_bridge_trade : ℕ → Escrow L → Result (Escrow L)
  expire_bridge_trade trade_id s = do
    require_initialized s
    trade ← get_trade s trade_id
    fail_if (not (is trade.status awaiting_bridge)) invalid_status
    info ← ok_or (s.cross_chain trade_id) trade_not_found
    fail_if (leb c.sequence info.expires_at_ledger) bridge_trade_not_expired
    require_auth c trade.seller
    let saved : Escrow L = save_trade trade_id (with_status cancelled trade) s
    ok (record saved { analytics = on_trade_cancelled c saved.analytics })

  pub confirm_bridge_deposit-Moves :
      (trade_id hash : ℕ) (s : Escrow L)
      → Ensures (AllMove s) (confirm_bridge_deposit trade_id hash s)
  unfolding confirm_bridge_deposit
  confirm_bridge_deposit-Moves trade_id hash s = step (require_initialized s) λ _ _.
      step (ok_or s.bridge_oracle bridge_oracle_not_set) λ oracle _.
        step (require_auth c oracle) λ _ _. step (get_trade s trade_id) λ trade found.
          step (fail_if (not (is trade.status awaiting_bridge)) invalid_status) λ _ e.
            step (ok_or (s.cross_chain trade_id) trade_not_found) λ info _.
              step (fail_if (ltb info.expires_at_ledger c.sequence) bridge_trade_expired) λ _ _.
                returned (
                  saved-Moves s.trades trade_id trade funded (get_trade-ok s trade_id found)
                    (rw (was trade.status awaiting_bridge _ e) bridging))

  pub expire_bridge_trade-Moves :
      (trade_id : ℕ) (s : Escrow L) → Ensures (AllMove s) (expire_bridge_trade trade_id s)
  unfolding expire_bridge_trade
  expire_bridge_trade-Moves trade_id s = step (require_initialized s) λ _ _.
      step (get_trade s trade_id) λ trade found.
        step (fail_if (not (is trade.status awaiting_bridge)) invalid_status) λ _ e.
          step (ok_or (s.cross_chain trade_id) trade_not_found) λ info _.
            step (fail_if (leb c.sequence info.expires_at_ledger) bridge_trade_not_expired) λ _ _.
              step (require_auth c trade.seller) λ _ _. returned (
                saved-Moves s.trades trade_id trade cancelled (get_trade-ok s trade_id found)
                  (rw (was trade.status awaiting_bridge _ e) expiring))

-- At one ledger a cross-chain trade can be confirmed or expired, but never both.
pub confirm-expire_excluded :
    {L : Type 0} (c d : Ctx) (trade_id hash : ℕ) (s s' s'' : Escrow L)
    → c.sequence ≡ d.sequence
    → confirm_bridge_deposit c trade_id hash s ≡ ok s'
    → ¬ (expire_bridge_trade d trade_id s ≡ ok s'')
unfolding confirm_bridge_deposit expire_bridge_trade fail_if ok_or get_trade
confirm-expire_excluded c d trade_id hash s s' s'' e h k = ground arith
