-- ===== src/Escrow/Traces.antt =====
-- Sequences of calls of the escrow, and what no sequence of them changes.
use stellar_escrow.Prelude.{ℕ, ◌≤◌, get_or, ◌≡◌, refl, ◌∙◌, ap, arith, Option, none, some, ◌⊎◌}
use stellar_escrow.Soroban.{ok, Ctx, Token, at_ok}
use stellar_escrow.Oracle.{PriceData}
use stellar_escrow.Escrow.State.{
  TradeStatus, cancelled, triggered, DisputeResolution, Trade, Escrow,
}
use stellar_escrow.Escrow.Trades.{
  with_status, fund_trade, complete_trade, confirm_receipt, cancel_trade, raise_dispute,
  resolve_dispute, execute_price_trigger,
}
use stellar_escrow.Escrow.CrossChain.{
  create_cross_chain_trade, confirm_bridge_deposit, expire_bridge_trade,
  confirm_bridge_deposit-Moves, expire_bridge_trade-Moves,
}
use stellar_escrow.Escrow.Numbering.{
  fund_trade_numbers, complete_trade_numbers, cancel_trade_numbers, raise_dispute_numbers,
  resolve_dispute_numbers, confirm_receipt_numbers, expire_bridge_trade_numbers,
  confirm_bridge_deposit_numbers, execute_price_trigger_numbers, create_cross_chain_trade_numbers,
}
use stellar_escrow.Escrow.Status.{
  Edge, stays, funding, completing, cancelling, disputing, disputing_late, refunding, releasing,
  bridging, expiring, Moves, Moves-refl, AllMove, fund_trade-Moves, complete_trade-Moves,
  cancel_trade-Moves, raise_dispute-Moves, resolve_dispute-trades, confirm_receipt-trades,
  execute_price_trigger-Moves,
}

final-Edge : (a b : TradeStatus) → (a ≡ cancelled) ⊎ (a ≡ triggered) → Edge a b → b ≡ a
final-Edge a b f stays = refl
final-Edge a b f funding = ground arith
final-Edge a b f completing = ground arith
final-Edge a b f cancelling = ground arith
final-Edge a b f disputing = ground arith
final-Edge a b f disputing_late = ground arith
final-Edge a b f refunding = ground arith
final-Edge a b f releasing = ground arith
final-Edge a b f bridging = ground arith
final-Edge a b f expiring = ground arith

same_final :
    (o p : Option Trade) (trade : Trade)
    → o ≡ some trade
    → (trade.status ≡ cancelled) ⊎ (trade.status ≡ triggered)
    → Moves o p
    → p ≡ some trade
same_final none p trade e f m = ground arith
same_final (some a) none trade e f m = absurd m
same_final (some a) (some b) trade e f (edge, same) =
    let at : a ≡ trade = ground (arith, e) in
    let final : (a.status ≡ cancelled) ⊎ (a.status ≡ triggered) = rw at f in
    let q : b.status ≡ a.status = final-Edge a.status b.status final edge in
    ap some (same ∙ ap (λ st. with_status st a) q ∙ at)

same_terms :
    (o p : Option Trade) (trade : Trade) (status : TradeStatus)
    → o ≡ some (with_status status trade)
    → Moves o p
    → (later : TradeStatus) × (p ≡ some (with_status later trade))
same_terms none p trade status e m = ground arith
same_terms (some a) none trade status e m = absurd m
same_terms (some a) (some b) trade status e (edge, same) =
    let at : a ≡ with_status status trade = ground (arith, e) in
    (b.status, ap some (same ∙ ap (with_status b.status) at))

module _ {L : Type 0} (t : Token L) (lastprice : ℕ → ℕ → ℕ → Option (Option PriceData))
    (silver gold : ℕ) where
  -- One successful call that settles or moves a trade.
  pub data Call (s s' : Escrow L) : Type 0 where
    fund : (c : Ctx) (id : ℕ) → fund_trade t c id s ≡ ok s' → Call s s'
    complete : (c : Ctx) (id : ℕ) → complete_trade t c id s ≡ ok s' → Call s s'
    confirm : (c : Ctx) (id : ℕ) → confirm_receipt t c silver gold id s ≡ ok s' → Call s s'
    cancel : (c : Ctx) (id : ℕ) → cancel_trade t c id s ≡ ok s' → Call s s'
    dispute : (c : Ctx) (id caller : ℕ) → raise_dispute t c id caller s ≡ ok s' → Call s s'
    resolve :
        (c : Ctx) (id : ℕ) (r : DisputeResolution) → resolve_dispute t c id r s ≡ ok s' → Call s s'
    trigger : (c : Ctx) (id : ℕ) → execute_price_trigger t c lastprice id s ≡ ok s' → Call s s'
    bridge : (c : Ctx) (id hash : ℕ) → confirm_bridge_deposit c id hash s ≡ ok s' → Call s s'
    expire : (c : Ctx) (id : ℕ) → expire_bridge_trade c id s ≡ ok s' → Call s s'

  -- Such calls and creations of cross-chain trades, in any order.
  pub data Trace (s : Escrow L) : Escrow L → Type 0 where
    start : Trace s s
    call : {s' s'' : Escrow L} → Trace s s' → Call s' s'' → Trace s s''
    creation :
        {s' s'' : Escrow L} (c : Ctx) (no_hash seller buyer amount : ℕ) (arbitrator : Option ℕ)
        (source_chain expiry_ledgers id : ℕ)
        → Trace s s'
        → create_cross_chain_trade c no_hash seller buyer amount arbitrator source_chain
            expiry_ledgers s'
          ≡ ok (s'', id)
        → Trace s s''

  kept : (s s' : Escrow L) → s'.trades ≡ s.trades → AllMove s s'
  kept s s' e j = rw (ap (λ (m : ℕ → Option Trade). m j) e) (Moves-refl (s.trades j))

  -- Every call moves every trade along an edge of the status graph and changes nothing else of it;
  -- no trade appears or disappears.
  pub Call-Moves : (s s' : Escrow L) (j : ℕ) → Call s s' → Moves (s.trades j) (s'.trades j)
  Call-Moves s s' j (fund c id h) = at_ok (fund_trade-Moves t c id s) h j
  Call-Moves s s' j (complete c id h) = at_ok (complete_trade-Moves t c id s) h j
  Call-Moves s s' j (confirm c id h) =
      kept s s' (at_ok (confirm_receipt-trades t c id s silver gold) h) j
  Call-Moves s s' j (cancel c id h) = at_ok (cancel_trade-Moves t c id s) h j
  Call-Moves s s' j (dispute c id caller h) = at_ok (raise_dispute-Moves t c id s caller) h j
  Call-Moves s s' j (resolve c id r h) = kept s s' (at_ok (resolve_dispute-trades t c id s r) h) j
  Call-Moves s s' j (trigger c id h) = at_ok (execute_price_trigger-Moves t c id s lastprice) h j
  Call-Moves s s' j (bridge c id hash h) = at_ok (confirm_bridge_deposit-Moves c id hash s) h j
  Call-Moves s s' j (expire c id h) = at_ok (expire_bridge_trade-Moves c id s) h j

  Call_numbers : (s s' : Escrow L) → Call s s' → s'.trade_counter ≡ s.trade_counter
  Call_numbers s s' (fund c id h) = fund_trade_numbers t c id s s' h
  Call_numbers s s' (complete c id h) = complete_trade_numbers t c id s s' h
  Call_numbers s s' (confirm c id h) = confirm_receipt_numbers t c id s s' silver gold h
  Call_numbers s s' (cancel c id h) = cancel_trade_numbers t c id s s' h
  Call_numbers s s' (dispute c id caller h) = raise_dispute_numbers t c id s s' caller h
  Call_numbers s s' (resolve c id r h) = resolve_dispute_numbers t c id s s' r h
  Call_numbers s s' (trigger c id h) = execute_price_trigger_numbers t c id s s' lastprice h
  Call_numbers s s' (bridge c id hash h) = confirm_bridge_deposit_numbers t c id s s' hash h
  Call_numbers s s' (expire c id h) = expire_bridge_trade_numbers t c id s s' h

  -- The counter of trades never falls.
  trace_counts :
      (s s' : Escrow L) → Trace s s' → get_or s.trade_counter 0 ≤ get_or s'.trade_counter 0
  trace_counts s s' start = omega arith
  trace_counts s s'' (call {s' = s'} tr k) = rw (Call_numbers s' s'' k) (trace_counts s s' tr)
  trace_counts s s''
        (creation {s' = s'} c no_hash seller buyer amount arbitrator chain ledgers id tr h) =
      let (next, counted, _) =
        create_cross_chain_trade_numbers t c id s' s'' no_hash seller buyer amount arbitrator chain
          ledgers h in
      let before = trace_counts s s' tr in rw counted (omega (arith, next, before))

  -- A creation leaves a trade alone that the counter has reached.
  creation_keeps :
      (s s' s'' : Escrow L) (j : ℕ) (c : Ctx) (no_hash seller buyer amount : ℕ)
      (arbitrator : Option ℕ) (source_chain expiry_ledgers id : ℕ)
      → j ≤ get_or s.trade_counter 0
      → Trace s s'
      → create_cross_chain_trade c no_hash seller buyer amount arbitrator source_chain
          expiry_ledgers s'
        ≡ ok (s'', id)
      → s''.trades j ≡ s'.trades j
  creation_keeps s s' s'' j c no_hash seller buyer amount arbitrator chain ledgers id le tr h =
      let (next, _, others) =
        create_cross_chain_trade_numbers t c id s' s'' no_hash seller buyer amount arbitrator chain
          ledgers h in
      let before = trace_counts s s' tr in
      others j (λ e. absurd (omega (arith, e, next, before, le)))

  -- A trade that is cancelled or triggered, and whose number the counter of trades has reached, stays
  -- exactly as it is whatever calls follow that fund, complete, confirm, cancel, dispute, resolve or
  -- price-trigger a trade or that create, confirm or expire a cross-chain trade, in any order.
  pub trace_final :
      (s s' : Escrow L) (j : ℕ) (trade : Trade)
      → s.trades j ≡ some trade
      → j ≤ get_or s.trade_counter 0
      → (trade.status ≡ cancelled) ⊎ (trade.status ≡ triggered)
      → Trace s s'
      → s'.trades j ≡ some trade
  trace_final s s' j trade e le f start = e
  trace_final s s'' j trade e le f (call {s' = s'} tr k) =
      same_final (s'.trades j) (s''.trades j) trade (trace_final s s' j trade e le f tr) f
        (Call-Moves s' s'' j k)
  trace_final s s'' j trade e le f
        (creation {s' = s'} c no_hash seller buyer amount arbitrator chain ledgers id tr h) =
      creation_keeps s s' s'' j c no_hash seller buyer amount arbitrator chain ledgers id le tr h
      ∙ trace_final s s' j trade e le f tr

  -- Along the same calls a trade whose number the counter has reached keeps the terms that it had: only
  -- the status may differ.
  pub trace_terms :
      (s s' : Escrow L) (j : ℕ) (trade : Trade)
      → s.trades j ≡ some trade
      → j ≤ get_or s.trade_counter 0
      → Trace s s'
      → (status : TradeStatus) × (s'.trades j ≡ some (with_status status trade))
  trace_terms s s' j trade e le start = (trade.status, e)
  trace_terms s s'' j trade e le (call {s' = s'} tr k) =
      let (status, found) = trace_terms s s' j trade e le tr in
      same_terms (s'.trades j) (s''.trades j) trade status found (Call-Moves s' s'' j k)
  trace_terms s s'' j trade e le
        (creation {s' = s'} c no_hash seller buyer amount arbitrator chain ledgers id tr h) =
      let (status, found) = trace_terms s s' j trade e le tr in
      (
        status,
        creation_keeps s s' s'' j c no_hash seller buyer amount arbitrator chain ledgers id le tr h
            ∙ found,
      )

module _ {L : Type 0} (t : Token L) (c : Ctx) (trade_id : ℕ) (s s' : Escrow L) where
  -- A dispute that is resolved leaves every trade as it was: the trade stays disputed.
  pub resolve_dispute_keeps :
      (r : DisputeResolution) → resolve_dispute t c trade_id r s ≡ ok s' → s'.trades ≡ s.trades
  resolve_dispute_keeps r h = at_ok (resolve_dispute-trades t c trade_id s r) h

  -- A receipt that is confirmed leaves every trade as it was: the trade stays completed.
  pub confirm_receipt_keeps :
      (silver gold : ℕ) → confirm_receipt t c silver gold trade_id s ≡ ok s' → s'.trades ≡ s.trades
  confirm_receipt_keeps silver gold h = at_ok (confirm_receipt-trades t c trade_id s silver gold) h
