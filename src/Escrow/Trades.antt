-- ===== src/Escrow/Trades.antt =====
-- The operations of contract/src/lib.rs on one trade. What they publish as events is left out.
use stellar_escrow.Prelude.{
  ℕ, ◌-◌, Bool, true, false, not, ◌&&◌, Option, none, some, ltb, ◌==◌, if◌then◌else◌,
}
use stellar_escrow.Errors.{
  invalid_status, arbitrator_not_registered, unauthorized, no_arbitrator, invalid_split_bps,
  no_trigger, price_condition_not_met,
}
use stellar_escrow.Soroban.{
  Result, ok, ◌>>=◌, ◌>>◌, fail_if, ok_or, u64_mod, checked_add, checked_sub, checked_mul,
  checked_div, Ctx, require_auth, Token, transfer,
}
use stellar_escrow.Tiers.{record_volume}
use stellar_escrow.Analytics.{
  on_trade_funded, on_trade_completed, on_trade_disputed, on_trade_cancelled,
}
use stellar_escrow.Oracle.{PriceData, TriggerAction, cancel, release, check_trigger}
use stellar_escrow.Escrow.State.{
  TradeStatus, created, funded, completed, disputed, cancelled, triggered, is, DisputeResolution,
  release_to_buyer, release_to_seller, partial, Trade, Escrow, require_initialized,
  require_not_paused, get_trade, save_trade, add_accumulated_fees, get_currency_fees,
  set_currency_fees, add_currency_fees,
}

abbrev pub with_status : TradeStatus → Trade → Trade
with_status status trade = record trade { status = status }

-- `match` on a trigger's action inside `execute_price_trigger`
abbrev pub by_action : {A : Type 0} → TriggerAction → A → A → A
by_action cancel x y = x
by_action release x y = y

abbrev pub is_none : Option ℕ → Bool
is_none none = true
is_none (some _) = false

module _ {L : Type 0} (t : Token L) (c : Ctx) where
  unfoldable pub fund_trade : ℕ → Escrow L → Result (Escrow L)
  fund_trade trade_id s = do
    require_initialized s
    require_not_paused s
    trade ← get_trade s trade_id
    fail_if (not (is trade.status created)) invalid_status
    require_auth c trade.buyer
    paid ← transfer t trade.currency trade.buyer c.contract trade.amount s.ledger
    let saved : Escrow L =
        save_trade trade_id (with_status funded trade) (record s { ledger = paid })
    ok (record saved { analytics = on_trade_funded saved.analytics })

  unfoldable pub complete_trade : ℕ → Escrow L → Result (Escrow L)
  complete_trade trade_id s = do
    require_initialized s
    require_not_paused s
    trade ← get_trade s trade_id
    fail_if (not (is trade.status funded)) invalid_status
    require_auth c trade.seller
    ok (save_trade trade_id (with_status completed trade) s)

  -- The transfer from the buyer where the contract holds less than the amount of the trade.
  unfoldable pub top_up : Trade → L → Result L
  top_up trade l =
      let held = t.balance trade.currency c.contract l in
      if ltb held trade.amount
      then transfer t trade.currency trade.buyer c.contract (trade.amount - held) l
      else ok l

  -- Two versions of the operation stand one after the other in the source, and both run. `silver`
  -- and `gold` are the tier thresholds.
  unfoldable pub confirm_receipt : ℕ → ℕ → ℕ → Escrow L → Result (Escrow L)
  confirm_receipt silver gold trade_id s = do
    require_initialized s
    require_not_paused s
    trade ← get_trade s trade_id
    fail_if (not (is trade.status completed)) invalid_status
    require_auth c trade.buyer
    payout ← checked_sub trade.amount trade.fee
    sent ← transfer t trade.currency c.contract trade.seller payout s.ledger
    credited ← add_currency_fees trade.currency trade.fee (record s { ledger = sent })
    sold ← record_volume silver gold trade.seller trade.amount credited.tiers
    bought ← record_volume silver gold trade.buyer trade.amount sold
    payout_again ← checked_sub trade.amount trade.fee
    topped ← top_up trade credited.ledger
    sent_again ← transfer t trade.currency c.contract trade.seller payout_again topped
    collected ←
        add_accumulated_fees trade.fee (record credited { tiers = bought; ledger = sent_again })
    ok (record collected { analytics = on_trade_completed c trade.fee collected.analytics })

  -- The source has the head of an older `raise_dispute` in the middle of this body, which is left
  -- out.
  unfoldable pub cancel_trade : ℕ → Escrow L → Result (Escrow L)
  cancel_trade trade_id s = do
    require_initialized s
    require_not_paused s
    trade ← get_trade s trade_id
    fail_if (not (is trade.status created)) invalid_status
    require_auth c trade.seller
    let saved : Escrow L = save_trade trade_id (with_status cancelled trade) s
    ok (record saved { analytics = on_trade_cancelled c saved.analytics })

  unfoldable pub raise_dispute : ℕ → ℕ → Escrow L → Result (Escrow L)
  raise_dispute trade_id caller s = do
    require_initialized s
    require_not_paused s
    trade ← get_trade s trade_id
    fail_if (not (is trade.status funded) && not (is trade.status completed)) invalid_status
    fail_if (is_none trade.arbitrator) arbitrator_not_registered
    require_auth c caller
    fail_if (not (caller == trade.buyer) && not (caller == trade.seller)) unauthorized
    let saved : Escrow L = save_trade trade_id (with_status disputed trade) s
    ok (record saved { analytics = on_trade_disputed c saved.analytics })

  -- `if amount > 0 { transfer }`
  unfoldable pub pay_share : ℕ → ℕ → ℕ → L → Result L
  pay_share currency to amount l =
      if ltb 0 amount then transfer t currency c.contract to amount l else ok l

  unfoldable pub pay_resolution : Trade → ℕ → DisputeResolution → L → Result L
  pay_resolution trade net release_to_buyer l =
      transfer t trade.currency c.contract trade.buyer net l
  pay_resolution trade net release_to_seller l =
      transfer t trade.currency c.contract trade.seller net l
  pay_resolution trade net (partial buyer_bps) l = do
    fail_if (ltb 10000 buyer_bps) invalid_split_bps
    product ← checked_mul u64_mod net buyer_bps
    buyer_amount ← checked_div product 10000
    seller_amount ← checked_sub net buyer_amount
    paid ← pay_share trade.currency trade.buyer buyer_amount l
    pay_share trade.currency trade.seller seller_amount paid

  unfoldable pub resolve_dispute : ℕ → DisputeResolution → Escrow L → Result (Escrow L)
  resolve_dispute trade_id resolution s = do
    require_initialized s
    require_not_paused s
    trade ← get_trade s trade_id
    fail_if (not (is trade.status disputed)) invalid_status
    arbitrator ← ok_or trade.arbitrator no_arbitrator
    require_auth c arbitrator
    net ← checked_sub trade.amount trade.fee
    paid ← pay_resolution trade net resolution s.ledger
    add_accumulated_fees trade.fee (record s { ledger = paid })

  unfoldable pub trigger_cancel : Trade → Escrow L → Result (Escrow L × TradeStatus)
  trigger_cancel trade s = do
    sent ← transfer t trade.currency c.contract trade.buyer trade.amount s.ledger
    ok (record s { ledger = sent }, cancelled)

  unfoldable pub trigger_release : Trade → Escrow L → Result (Escrow L × TradeStatus)
  trigger_release trade s = do
    payout ← checked_sub trade.amount trade.fee
    sent ← transfer t trade.currency c.contract trade.seller payout s.ledger
    fees ← checked_add u64_mod (get_currency_fees s trade.currency) trade.fee
    credited ←
        add_accumulated_fees trade.fee
          (set_currency_fees trade.currency fees (record s { ledger = sent }))
    ok (credited, triggered)

  -- `lastprice` is what the oracle contracts answer, or `none` where they trap.
  unfoldable pub execute_price_trigger :
      (ℕ → ℕ → ℕ → Option (Option PriceData)) → ℕ → Escrow L → Result (Escrow L)
  execute_price_trigger lastprice trade_id s = do
    require_initialized s
    require_not_paused s
    trade ← get_trade s trade_id
    trigger ← ok_or trade.trigger no_trigger
    fail_if (not (is trade.status funded)) invalid_status
    met ← check_trigger lastprice c trigger s.oracles
    fail_if (not met) price_condition_not_met
    (paid, status) ← by_action trigger.action (trigger_cancel trade s) (trigger_release trade s)
    ok (save_trade trade_id (with_status status trade) paid)
