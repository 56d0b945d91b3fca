-- ===== src/Escrow/Numbering.antt =====
-- The counter that numbers the trades: who leaves it alone, and that a new trade takes the next number.
use stellar_escrow.Prelude.{ℕ, ◌+◌, ◌≡◌, ◌≢◌, arith, Option, some, get_or}
use stellar_escrow.Soroban.{ok, Ctx, Token, checked_add}
use stellar_escrow.Oracle.{PriceData}
use stellar_escrow.Escrow.State.{
  add_currency_fees, DisputeResolution, Escrow, add_accumulated_fees, increment_trade_counter,
  calc_fee,
}
use stellar_escrow.Escrow.Trades.{
  fund_trade, complete_trade, confirm_receipt, cancel_trade, raise_dispute, resolve_dispute,
  execute_price_trigger, trigger_cancel, trigger_release,
}
use stellar_escrow.Escrow.CrossChain.{
  create_cross_chain_trade, confirm_bridge_deposit, expire_bridge_trade,
}

module _ {L : Type 0} (t : Token L) (c : Ctx) (id : ℕ) (s s' : Escrow L) where
  pub fund_trade_numbers : fund_trade t c id s ≡ ok s' → s'.trade_counter ≡ s.trade_counter
  unfolding fund_trade
  fund_trade_numbers h = ground arith

  pub complete_trade_numbers : complete_trade t c id s ≡ ok s' → s'.trade_counter ≡ s.trade_counter
  unfolding complete_trade
  complete_trade_numbers h = ground arith

  pub cancel_trade_numbers : cancel_trade t c id s ≡ ok s' → s'.trade_counter ≡ s.trade_counter
  unfolding cancel_trade
  cancel_trade_numbers h = ground arith

  pub raise_dispute_numbers :
      (caller : ℕ) → raise_dispute t c id caller s ≡ ok s' → s'.trade_counter ≡ s.trade_counter
  unfolding raise_dispute
  raise_dispute_numbers caller h = ground arith

  pub resolve_dispute_numbers :
      (r : DisputeResolution)
      → resolve_dispute t c id r s ≡ ok s'
      → s'.trade_counter ≡ s.trade_counter
  unfolding resolve_dispute add_accumulated_fees
  resolve_dispute_numbers r h = ground arith

  pub confirm_receipt_numbers :
      (silver gold : ℕ)
      → confirm_receipt t c silver gold id s ≡ ok s'
      → s'.trade_counter ≡ s.trade_counter
  unfolding confirm_receipt add_accumulated_fees add_currency_fees
  confirm_receipt_numbers silver gold h = ground arith

  pub expire_bridge_trade_numbers :
      expire_bridge_trade c id s ≡ ok s' → s'.trade_counter ≡ s.trade_counter
  unfolding expire_bridge_trade
  expire_bridge_trade_numbers h = ground arith

  pub confirm_bridge_deposit_numbers :
      (hash : ℕ) → confirm_bridge_deposit c id hash s ≡ ok s' → s'.trade_counter ≡ s.trade_counter
  unfolding confirm_bridge_deposit
  confirm_bridge_deposit_numbers hash h = ground arith

  pub execute_price_trigger_numbers :
      (lastprice : ℕ → ℕ → ℕ → Option (Option PriceData))
      → execute_price_trigger t c lastprice id s ≡ ok s'
      → s'.trade_counter ≡ s.trade_counter
  unfolding execute_price_trigger trigger_cancel trigger_release add_accumulated_fees
  execute_price_trigger_numbers lastprice h = ground arith

  -- A cross-chain trade that is created takes the number after the counter, which it becomes, and no
  -- other trade is changed.
  pub create_cross_chain_trade_numbers :
      (no_hash seller buyer amount : ℕ) (arbitrator : Option ℕ) (source_chain expiry_ledgers : ℕ)
      → create_cross_chain_trade c no_hash seller buyer amount arbitrator source_chain
          expiry_ledgers s
        ≡ ok (s', id)
      → (id ≡ get_or s.trade_counter 0 + 1)
        × (s'.trade_counter ≡ some id)
        × ((j : ℕ) → j ≢ id → s'.trades j ≡ s.trades j)
  unfolding create_cross_chain_trade increment_trade_counter checked_add calc_fee
  create_cross_chain_trade_numbers no_hash seller buyer amount arbitrator source_chain
        expiry_ledgers h =
      (ground arith, ground arith, λ j ne. ground arith)
