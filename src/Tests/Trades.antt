-- ===== src/Tests/Trades.antt =====
-- Trades that are funded, disputed, resolved and confirmed.
use stellar_escrow.Prelude.{
  ℕ, ◌+◌, ◌-◌, ◌*◌, ◌<◌, get_or, ◌≡◌, refl, true, false, Option, none, some, ◌==◌, if◌then◌else◌,
  arith, inl, pos,
}
use stellar_escrow.Queries.{by_amount, desc, TradeFilter, PageParams, query_trades}
use stellar_escrow.Queries.Pages.{PageOf, query_trades-PageOf}
use stellar_escrow.Soroban.{
  Result, ok, err, trap, fail_if, ok_or, or_trap, trap_unless, require_auth, transfer, within,
  checked_add, checked_sub, checked_mul, checked_div,
}
use stellar_escrow.Errors.{contract_paused}
use stellar_escrow.Tiers.{record_volume, promoted, volume_tier, save_user_tier, default_info}
use stellar_escrow.Oracle.{PriceData}
use stellar_escrow.Escrow.State.{
  TradeStatus, created, completed, disputed, cancelled, release_to_buyer, partial, Trade, Escrow,
  is_initialized, is_paused, require_initialized, require_not_paused, get_trade, get_admin,
  add_accumulated_fees, get_currency_fees, add_currency_fees, increment_trade_counter, calc_fee,
  get_fee_bps, get_usdc_token,
}
use stellar_escrow.Escrow.Trades.{
  with_status, fund_trade, complete_trade, confirm_receipt, top_up, cancel_trade, raise_dispute,
  resolve_dispute, pay_resolution, pay_share, execute_price_trigger,
}
use stellar_escrow.Escrow.CrossChain.{create_cross_chain_trade}
use stellar_escrow.Escrow.Admin.{withdraw_fees, positive}
use stellar_escrow.Escrow.Fees.{paused_refuses, withdraw_fees_lowers}
use stellar_escrow.Escrow.Receipt.{confirm_receipt_pays}
use stellar_escrow.Escrow.Status.{Moves}
use stellar_escrow.Escrow.Traces.{Call, Trace, Call-Moves, trace_final, resolve_dispute_keeps}
use stellar_escrow.Escrow.Money.{Paid, Split, fund_trade-Paid, resolve_dispute-Split}
use stellar_escrow.Tests.Ledger.{Ledger, token, token_laws, the, ctx, move}

abbrev no_price : ℕ → ℕ → ℕ → Option (Option PriceData)
no_price _ _ _ = some none

abbrev pub trade : Trade
trade = record {
  id = 1;
  seller = 2;
  buyer = 3;
  amount = 1000;
  fee = 10;
  arbitrator = some 4;
  status = created;
  expiry_time = none;
  currency = 7;
  metadata = none;
  trigger = none;
}

abbrev pub start : Escrow Ledger
start = record {
  initialized = some true;
  paused = none;
  admin = some 5;
  usdc_token = some 7;
  fee_bps = some 100;
  trade_counter = some 1;
  accumulated_fees = some 0;
  version = some 1;
  global_trade_limit = none;
  bridge_oracle = some 6;
  trades = λ id. if id == 1 then some trade else none;
  arbitrators = λ a. a == 4;
  currency_fees = λ _. none;
  compliance = λ _. none;
  user_limits = λ _. none;
  jurisdictions = λ _. none;
  cross_chain = λ _. none;
  providers = λ a. a == 8;
  policies = λ _. none;
  tiers = record { config = none; users = λ _. none };
  analytics = record {
    metrics = none;
    windows = λ _. none;
    unique_count = none;
    unique_addr = λ _. false;
    arb_stats = λ _. none;
  };
  oracles = λ _ _. none;
  ledger = λ k h. if k == 7 then 5000 else 0;
}

abbrev funded_state : Escrow Ledger
funded_state = the (fund_trade token ctx 1 start) start

funding_runs : fund_trade token ctx 1 start ≡ ok funded_state
unfolding fund_trade require_initialized is_initialized require_not_paused is_paused get_trade
    fail_if ok_or require_auth trap_unless transfer or_trap move
funding_runs = refl

fund_trade-Paid_example : Paid token 7 3 9 1000 start.ledger funded_state.ledger
fund_trade-Paid_example =
    fund_trade-Paid token token_laws ctx 1 start funded_state trade refl (λ e. ground arith)
      funding_runs

Call-Moves_example : Moves (start.trades 1) (funded_state.trades 1)
Call-Moves_example =
    Call-Moves token no_price 0 0 start funded_state 1 (Call.fund ctx 1 funding_runs)

-- One trade is cancelled, every other is created.
abbrev one_cancelled : Escrow Ledger
one_cancelled = record start {
  trades = λ id. if id == 1 then some (with_status cancelled trade) else some trade;
}

abbrev other_funded : Escrow Ledger
other_funded = the (fund_trade token ctx 2 one_cancelled) start

other_funding_runs : fund_trade token ctx 2 one_cancelled ≡ ok other_funded
unfolding fund_trade require_initialized is_initialized require_not_paused is_paused get_trade
    fail_if ok_or require_auth trap_unless transfer or_trap move
other_funding_runs = refl

abbrev created_in : Result (Escrow Ledger × ℕ) → Escrow Ledger
created_in (ok (s, _)) = s
created_in (err _) = start
created_in trap = start

abbrev one_more : Escrow Ledger
one_more = created_in (create_cross_chain_trade ctx 0 2 3 500 none 1 50 other_funded)

creation_runs : create_cross_chain_trade ctx 0 2 3 500 none 1 50 other_funded ≡ ok (one_more, 2)
unfolding create_cross_chain_trade require_initialized fail_if fund_trade require_not_paused
    get_trade ok_or require_auth transfer move increment_trade_counter checked_add calc_fee
    get_fee_bps checked_mul checked_div get_usdc_token
creation_runs = refl

trace_final_example : one_more.trades 1 ≡ some (with_status cancelled trade)
trace_final_example =
    trace_final token no_price 0 0 one_cancelled one_more 1 (with_status cancelled trade) refl
      (omega arith) (inl refl)
      (Trace.creation ctx 0 2 3 500 none 1 50 2
        (Trace.call Trace.start (Call.fund ctx 2 other_funding_runs)) creation_runs)

abbrev with_trade : TradeStatus → Escrow Ledger
with_trade status = record start {
  trades = λ id. if id == 1 then some (with_status status trade) else none;
}

abbrev resolved_state : Escrow Ledger
resolved_state = the (resolve_dispute token ctx 1 (partial 6000) (with_trade disputed)) start

resolving_runs :
    resolve_dispute token ctx 1 (partial 6000) (with_trade disputed) ≡ ok resolved_state
unfolding resolve_dispute pay_resolution pay_share add_accumulated_fees require_initialized
    is_initialized require_not_paused is_paused get_trade fail_if ok_or require_auth trap_unless
    transfer or_trap move checked_sub checked_mul checked_div checked_add within
resolving_runs = refl

resolve_dispute-Split_example :
    Split token 9 (with_status disputed trade) 990 (partial 6000) start.ledger resolved_state.ledger
    × (get_or resolved_state.accumulated_fees 0 ≡ 0 + 10)
resolve_dispute-Split_example =
    resolve_dispute-Split token token_laws ctx 1 (partial 6000) (with_trade disputed) resolved_state
      (with_status disputed trade) refl (λ e. ground arith) (λ e. ground arith) (λ e. ground arith)
      resolving_runs

abbrev confirmed_state : Escrow Ledger
confirmed_state = the (confirm_receipt token ctx 500 5000 1 (with_trade completed)) start

confirming_runs : confirm_receipt token ctx 500 5000 1 (with_trade completed) ≡ ok confirmed_state
unfolding confirm_receipt top_up add_accumulated_fees add_currency_fees record_volume promoted
    volume_tier save_user_tier default_info require_initialized is_initialized require_not_paused
    is_paused get_trade fail_if ok_or require_auth trap_unless transfer or_trap move checked_sub
    checked_add within
confirming_runs = refl

confirm_receipt_pays_example :
    token.balance 7 2 confirmed_state.ledger ≡ token.balance 7 2 start.ledger + 2 * (1000 - 10)
confirm_receipt_pays_example =
    confirm_receipt_pays token token_laws ctx 500 5000 1 (with_trade completed) confirmed_state
      (with_status completed trade) refl (λ e. ground arith) (λ e. ground arith) (λ e. ground arith)
      confirming_runs

paused_refuses_example :
    (fund_trade token ctx 1 (record start { paused = some true }) ≡ err contract_paused)
    × (complete_trade token ctx 1 (record start { paused = some true }) ≡ err contract_paused)
    × (confirm_receipt token ctx 5 6 1 (record start { paused = some true }) ≡ err contract_paused)
    × (cancel_trade token ctx 1 (record start { paused = some true }) ≡ err contract_paused)
    × (raise_dispute token ctx 1 2 (record start { paused = some true }) ≡ err contract_paused)
    × (resolve_dispute token ctx 1 release_to_buyer (record start { paused = some true })
        ≡ err contract_paused)
    × (execute_price_trigger token ctx no_price 1 (record start { paused = some true })
        ≡ err contract_paused)
    × (create_cross_chain_trade ctx 0 2 3 500 none 1 50 (record start { paused = some true })
        ≡ err contract_paused)
paused_refuses_example =
    paused_refuses token ctx no_price 5 6 1 2 release_to_buyer 0 2 3 500 none 1 50
      (record start { paused = some true }) refl refl

abbrev rich : Escrow Ledger
rich = record start { currency_fees = λ k. some 300 }

abbrev withdrawn_state : Escrow Ledger
withdrawn_state = the (withdraw_fees ctx token 5 7 (pos 200) 6 rich) rich

withdrawing_runs : withdraw_fees ctx token 5 7 (pos 200) 6 rich ≡ ok withdrawn_state
unfolding withdraw_fees positive get_currency_fees get_admin require_initialized is_initialized
    fail_if ok_or require_auth trap_unless transfer or_trap move
withdrawing_runs = refl

withdraw_fees_lowers_example :
    (rich.admin ≡ some 5)
    × (ctx.auth 5 ≡ true)
    × (0 < 200)
    × (get_currency_fees withdrawn_state 7 + 200 ≡ get_currency_fees rich 7)
    × Paid token 7 9 6 200 rich.ledger withdrawn_state.ledger
withdraw_fees_lowers_example =
    withdraw_fees_lowers token token_laws ctx 5 7 200 6 rich withdrawn_state (λ e. ground arith)
      withdrawing_runs

abbrev large_trades : TradeFilter
large_trades = record {
  status = none;
  participant = some 2;
  min_amount = some 500;
  max_amount = none;
  from_trade_id = none;
  to_trade_id = none;
}

abbrev first_page : PageParams
first_page = record { offset = 0; limit = 200; sort_by = by_amount; direction = desc }

query_trades-PageOf_example :
    PageOf start 1 large_trades first_page (query_trades start 1 large_trades first_page)
query_trades-PageOf_example = query_trades-PageOf start 1 large_trades first_page

resolve_dispute_keeps_example : resolved_state.trades ≡ (with_trade disputed).trades
resolve_dispute_keeps_example =
    resolve_dispute_keeps token ctx 1 (with_trade disputed) resolved_state (partial 6000)
      resolving_runs
