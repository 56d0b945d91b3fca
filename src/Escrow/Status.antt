-- ===== src/Escrow/Status.antt =====
-- The life of a trade: which statuses the operations of contract/src/lib.rs lead to, and what of a
-- trade they leave alone.
use stellar_escrow.Prelude.{
  ℕ, ◌≡◌, refl, ◌∙◌, ap, arith, true, not, ◌&&◌, Option, none, some, ◌==◌, update, Bool-cases, inl,
  inr, ==→eq, get_or,
}
use stellar_escrow.Errors.{
  ContractError, invalid_status, arbitrator_not_registered, unauthorized, no_arbitrator, no_trigger,
  price_condition_not_met,
}
use stellar_escrow.Soroban.{
  ok, Ctx, Token, Ensures, step, returned, at_ok, fail_if, fail_if-ok, ok_or, require_auth,
  transfer, checked_sub, checked_add, u64_mod,
}
use stellar_escrow.Tiers.{record_volume}
use stellar_escrow.Oracle.{PriceData, TriggerAction, cancel, release, check_trigger}
use stellar_escrow.Escrow.State.{
  TradeStatus, created, funded, completed, disputed, cancelled, triggered, awaiting_bridge,
  bridge_failed, is, DisputeResolution, Trade, Escrow, get_trade, get_trade-ok, require_initialized,
  require_not_paused, add_accumulated_fees, add_currency_fees, get_currency_fees, set_currency_fees,
}
use stellar_escrow.Escrow.Trades.{
  with_status, by_action, fund_trade, complete_trade, top_up, confirm_receipt, cancel_trade,
  is_none, raise_dispute, pay_resolution, resolve_dispute, trigger_cancel, trigger_release,
  execute_price_trigger,
}

pub data Edge : TradeStatus → TradeStatus → Type 0 where
  stays : {a : TradeStatus} → Edge a a
  funding : Edge created funded
  completing : Edge funded completed
  cancelling : Edge created cancelled
  disputing : Edge funded disputed
  disputing_late : Edge completed disputed
  refunding : Edge funded cancelled
  releasing : Edge funded triggered
  bridging : Edge awaiting_bridge funded
  expiring : Edge awaiting_bridge cancelled

-- What may become of a trade: its status moves along an edge, and nothing else of it changes.
abbrev pub Moves : Option Trade → Option Trade → Type 0
Moves none none = Unit
Moves none (some _) = ⊥
Moves (some _) none = ⊥
Moves (some a) (some b) = Edge a.status b.status × (b ≡ with_status b.status a)

is-eq : (a b : TradeStatus) → is a b ≡ true → a ≡ b
is-eq a b h = ground arith

pub Moves-refl : (o : Option Trade) → Moves o o
Moves-refl none = tt
Moves-refl (some a) = (stays, refl)

pub saved-Moves :
    (trades : ℕ → Option Trade) (id : ℕ) (trade : Trade) (status : TradeStatus)
    → trades id ≡ some trade
    → Edge trade.status status
    → (j : ℕ) → Moves (trades j) (update trades id (some (with_status status trade)) j)
saved-Moves trades id trade status found edge j = elim (Bool-cases (j == id)) [
  | inl e ↦
      let at : trades j ≡ some trade = ap trades (==→eq j id e) ∙ found in rw (e, at) (edge, refl)
  | inr e ↦ rw e (Moves-refl (trades j))
]

pub was :
    (a b : TradeStatus) {u : Unit {0}} (e : ContractError) → fail_if (not (is a b)) e ≡ ok u → a ≡ b
was a b e h = is-eq a b (ground (arith, fail_if-ok _ _ h))

was_either :
    (a : TradeStatus) {u : Unit {0}} (e : ContractError)
    → fail_if (not (is a funded) && not (is a completed)) e ≡ ok u
    → Edge a disputed
was_either funded e h = disputing
was_either completed e h = disputing_late
was_either created e h = ground (arith, fail_if-ok _ _ h)
was_either disputed e h = stays
was_either cancelled e h = ground (arith, fail_if-ok _ _ h)
was_either awaiting_bridge e h = ground (arith, fail_if-ok _ _ h)
was_either bridge_failed e h = ground (arith, fail_if-ok _ _ h)
was_either triggered e h = ground (arith, fail_if-ok _ _ h)

-- The trades of a later state, each moved along an edge.
abbrev pub AllMove : {L : Type 0} → Escrow L → Escrow L → Type 0
AllMove s s' = (j : ℕ) → Moves (s.trades j) (s'.trades j)

module _ {L : Type 0} (t : Token L) (c : Ctx) (trade_id : ℕ) (s : Escrow L) where
  pub fund_trade-Moves : Ensures (AllMove s) (fund_trade t c trade_id s)
  unfolding fund_trade
  fund_trade-Moves = step (require_initialized s) λ _ _. step (require_not_paused s) λ _ _.
      step (get_trade s trade_id) λ trade found.
        step (fail_if (not (is trade.status created)) invalid_status) λ _ e.
          step (require_auth c trade.buyer) λ _ _.
            step (transfer t trade.currency trade.buyer c.contract trade.amount s.ledger) λ _ _.
              returned (
                saved-Moves s.trades trade_id trade funded (get_trade-ok s trade_id found)
                  (rw (was trade.status created _ e) funding))

  pub complete_trade-Moves : Ensures (AllMove s) (complete_trade t c trade_id s)
  unfolding complete_trade
  complete_trade-Moves = step (require_initialized s) λ _ _. step (require_not_paused s) λ _ _.
      step (get_trade s trade_id) λ trade found.
        step (fail_if (not (is trade.status funded)) invalid_status) λ _ e.
          step (require_auth c trade.seller) λ _ _. returned (
            saved-Moves s.trades trade_id trade completed (get_trade-ok s trade_id found)
              (rw (was trade.status funded _ e) completing))

  pub cancel_trade-Moves : Ensures (AllMove s) (cancel_trade t c trade_id s)
  unfolding cancel_trade
  cancel_trade-Moves = step (require_initialized s) λ _ _. step (require_not_paused s) λ _ _.
      step (get_trade s trade_id) λ trade found.
        step (fail_if (not (is trade.status created)) invalid_status) λ _ e.
          step (require_auth c trade.seller) λ _ _. returned (
            saved-Moves s.trades trade_id trade cancelled (get_trade-ok s trade_id found)
              (rw (was trade.status created _ e) cancelling))

  pub raise_dispute-Moves : (caller : ℕ) → Ensures (AllMove s) (raise_dispute t c trade_id caller s)
  unfolding raise_dispute
  raise_dispute-Moves caller = step (require_initialized s) λ _ _.
      step (require_not_paused s) λ _ _. step (get_trade s trade_id) λ trade found.
        step
          (fail_if (not (is trade.status funded) && not (is trade.status completed)) invalid_status)
          λ _ e. step (fail_if (is_none trade.arbitrator) arbitrator_not_registered) λ _ _.
            step (require_auth c caller) λ _ _.
              step
                (fail_if (not (caller == trade.buyer) && not (caller == trade.seller)) unauthorized)
                λ _ _. returned (
                  saved-Moves s.trades trade_id trade disputed (get_trade-ok s trade_id found)
                    (was_either trade.status _ e))

  add_accumulated_fees-trades :
      (fee : ℕ) (r : Escrow L)
      → r.trades ≡ s.trades
      → Ensures (λ (s' : Escrow L). s'.trades ≡ s.trades) (add_accumulated_fees fee r)
  unfolding add_accumulated_fees
  add_accumulated_fees-trades fee r e =
      step (checked_add u64_mod (get_or r.accumulated_fees 0) fee) λ _ _. returned e

  -- A dispute that is resolved leaves every trade as it was, its status included.
  pub resolve_dispute-trades :
      (resolution : DisputeResolution)
      → Ensures
          (λ (s' : Escrow L). s'.trades ≡ s.trades)
          (resolve_dispute t c trade_id resolution s)
  unfolding resolve_dispute
  resolve_dispute-trades resolution = step (require_initialized s) λ _ _.
      step (require_not_paused s) λ _ _. step (get_trade s trade_id) λ trade found.
        step (fail_if (not (is trade.status disputed)) invalid_status) λ _ e.
          step (ok_or trade.arbitrator no_arbitrator) λ arbitrator _.
            step (require_auth c arbitrator) λ _ _.
              step (checked_sub trade.amount trade.fee) λ net _.
                step (pay_resolution t c trade net resolution s.ledger)
                  λ paid _. add_accumulated_fees-trades trade.fee (record s { ledger = paid }) refl

  add_currency_fees-trades :
      (currency fee : ℕ) (r s' : Escrow L)
      → add_currency_fees currency fee r ≡ ok s'
      → s'.trades ≡ r.trades
  unfolding add_currency_fees
  add_currency_fees-trades currency fee r s' h =
      at_ok {P = λ (q : Escrow L). q.trades ≡ r.trades}
        (step (checked_add u64_mod (get_or (r.currency_fees currency) 0) fee) λ _ _. returned refl)
        h

  pub confirm_receipt-trades :
      (silver gold : ℕ)
      → Ensures
          (λ (s' : Escrow L). s'.trades ≡ s.trades)
          (confirm_receipt t c silver gold trade_id s)
  unfolding confirm_receipt
  confirm_receipt-trades silver gold = step (require_initialized s) λ _ _.
      step (require_not_paused s) λ _ _. step (get_trade s trade_id) λ trade found.
        step (fail_if (not (is trade.status completed)) invalid_status) λ _ _.
          step (require_auth c trade.buyer) λ _ _.
            step (checked_sub trade.amount trade.fee) λ payout _.
              step (transfer t trade.currency c.contract trade.seller payout s.ledger) λ sent _.
                step (add_currency_fees trade.currency trade.fee (record s { ledger = sent }))
                  λ credited e.
                    step (record_volume silver gold trade.seller trade.amount credited.tiers)
                      λ sold _.
                        step (record_volume silver gold trade.buyer trade.amount sold) λ bought _.
                          step (checked_sub trade.amount trade.fee) λ payout_again _.
                            step (top_up t c trade credited.ledger) λ topped _.
                              step
                                (transfer t trade.currency c.contract trade.seller payout_again
                                  topped)
                                λ again _.
                                  step
                                    (add_accumulated_fees trade.fee
                                      (record credited { tiers = bought; ledger = again }))
                                    λ collected e'. returned (
                                      at_ok
                                        (add_accumulated_fees-trades trade.fee
                                          (record credited { tiers = bought; ledger = again })
                                          (add_currency_fees-trades trade.currency trade.fee
                                            (record s { ledger = sent }) credited e))
                                        e')

  settled_by :
      (trade : Trade) (action : TriggerAction)
      → trade.status ≡ funded
      → Ensures
          (λ (x : Escrow L × TradeStatus). (x.0.trades ≡ s.trades) × Edge trade.status x.1)
          (by_action action (trigger_cancel t c trade s) (trigger_release t c trade s))
  unfolding trigger_cancel trigger_release
  settled_by trade cancel e =
      step (transfer t trade.currency c.contract trade.buyer trade.amount s.ledger)
        λ _ _. returned (refl, rw e refunding)
  settled_by trade release e = step (checked_sub trade.amount trade.fee) λ payout _.
      step (transfer t trade.currency c.contract trade.seller payout s.ledger) λ sent _.
        step (checked_add u64_mod (get_currency_fees s trade.currency) trade.fee) λ fees _.
          step
            (add_accumulated_fees trade.fee
              (set_currency_fees trade.currency fees (record s { ledger = sent })))
            λ r e'. returned (
              at_ok
                  (add_accumulated_fees-trades trade.fee
                    (set_currency_fees trade.currency fees (record s { ledger = sent })) refl)
                  e',
              rw e releasing,
            )

  pub execute_price_trigger-Moves :
      (lastprice : ℕ → ℕ → ℕ → Option (Option PriceData))
      → Ensures (AllMove s) (execute_price_trigger t c lastprice trade_id s)
  unfolding execute_price_trigger
  execute_price_trigger-Moves lastprice = step (require_initialized s) λ _ _.
      step (require_not_paused s) λ _ _. step (get_trade s trade_id) λ trade found.
        step (ok_or trade.trigger no_trigger) λ trigger _.
          step (fail_if (not (is trade.status funded)) invalid_status) λ _ e.
            step (check_trigger lastprice c trigger s.oracles) λ met _.
              step (fail_if (not met) price_condition_not_met) λ _ _.
                step
                  (by_action trigger.action (trigger_cancel t c trade s)
                    (trigger_release t c trade s))
                  λ x e'.
                    let (same, edge) =
                      at_ok (settled_by trade trigger.action (was trade.status funded _ e)) e' in
                    returned (
                      rw same (
                        saved-Moves s.trades trade_id trade x.1 (get_trade-ok s trade_id found)
                          edge))
