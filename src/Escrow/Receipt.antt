-- ===== src/Escrow/Receipt.antt =====
-- What `confirm_receipt` pays.
use mathlib.Core.Path.{subst}
use stellar_escrow.Prelude.{
  ℕ, ◌+◌, ◌-◌, ◌*◌, ◌≡◌, ◌≢◌, refl, sym, ap, arith, not, some, ltb, get_or, Bool-cases, inl, inr,
}
use stellar_escrow.Errors.{invalid_status}
use stellar_escrow.Soroban.{
  ok, Ctx, Token, TokenLaws, transfer, Ensures, step, returned, at_ok, ensured, fail_if,
  require_auth, checked_sub, checked_sub-ok, checked_add, u64_mod,
}
use stellar_escrow.Tiers.{record_volume}
use stellar_escrow.Escrow.State.{
  completed, is, Trade, Escrow, require_initialized, require_not_paused, get_trade, get_trade_found,
  add_accumulated_fees, add_currency_fees,
}
use stellar_escrow.Escrow.Trades.{top_up, confirm_receipt}
use stellar_escrow.Escrow.Money.{transfer-Paid}

module _ {L : Type 0} (t : Token L) (laws : TokenLaws t) (c : Ctx) where
  -- A top-up leaves the seller's balance alone.
  top_up-seller :
      (trade : Trade) (l : L)
      → trade.seller ≢ c.contract
      → trade.seller ≢ trade.buyer
      → trade.buyer ≢ c.contract
      → Ensures
          (λ l'. t.balance trade.currency trade.seller l' ≡ t.balance trade.currency trade.seller l)
          (top_up t c trade l)
  unfolding top_up
  top_up-seller trade l ns diff nb =
      let held = t.balance trade.currency c.contract l in
      elim (Bool-cases (ltb held trade.amount)) [
        | inl e ↦ rw e (
            ensured (transfer t trade.currency trade.buyer c.contract (trade.amount - held) l)
              λ l' h.
                (transfer-Paid t laws trade.currency trade.buyer c.contract (trade.amount - held) l
                    l' nb h).others
                  trade.seller diff ns)
        | inr e ↦ rw e (returned refl)
      ]

  credited-ledger :
      (currency fee : ℕ) (r s' : Escrow L)
      → add_currency_fees currency fee r ≡ ok s'
      → s'.ledger ≡ r.ledger
  unfolding add_currency_fees
  credited-ledger currency fee r s' h =
      at_ok {P = λ (q : Escrow L). q.ledger ≡ r.ledger}
        (step (checked_add u64_mod (get_or (r.currency_fees currency) 0) fee) λ _ _. returned refl)
        h

  collected-ledger :
      (fee : ℕ) (r s' : Escrow L) → add_accumulated_fees fee r ≡ ok s' → s'.ledger ≡ r.ledger
  unfolding add_accumulated_fees
  collected-ledger fee r s' h =
      at_ok {P = λ (q : Escrow L). q.ledger ≡ r.ledger}
        (step (checked_add u64_mod (get_or r.accumulated_fees 0) fee) λ _ _. returned refl) h

  -- A receipt that is confirmed pays the seller twice the amount less the fee, where the seller is
  -- neither the contract nor the buyer, and the buyer is not the contract.
  pub confirm_receipt_pays :
      (silver gold trade_id : ℕ) (s s' : Escrow L) (trade : Trade)
      → s.trades trade_id ≡ some trade
      → trade.seller ≢ c.contract
      → trade.seller ≢ trade.buyer
      → trade.buyer ≢ c.contract
      → confirm_receipt t c silver gold trade_id s ≡ ok s'
      → t.balance trade.currency trade.seller s'.ledger
        ≡ t.balance trade.currency trade.seller s.ledger + 2 * (trade.amount - trade.fee)
  unfolding confirm_receipt
  confirm_receipt_pays silver gold trade_id s s' trade found ns diff nb h =
      at_ok
        {P = λ (s' : Escrow L).
          t.balance trade.currency trade.seller s'.ledger
          ≡ t.balance trade.currency trade.seller s.ledger + 2 * (trade.amount - trade.fee)}
        (step (require_initialized s) λ _ _. step (require_not_paused s) λ _ _.
          step (get_trade s trade_id) λ x e.
            step (fail_if (not (is x.status completed)) invalid_status) λ _ _.
              step (require_auth c x.buyer) λ _ _. step (checked_sub x.amount x.fee) λ payout e_p.
                step (transfer t x.currency c.contract x.seller payout s.ledger) λ sent e_s.
                  step (add_currency_fees x.currency x.fee (record s { ledger = sent }))
                    λ credited e_c.
                      step (record_volume silver gold x.seller x.amount credited.tiers) λ sold _.
                        step (record_volume silver gold x.buyer x.amount sold) λ bought _.
                          step (checked_sub x.amount x.fee) λ again e_p'.
                            step (top_up t c x credited.ledger) λ topped e_t.
                              step (transfer t x.currency c.contract x.seller again topped)
                                λ last e_l.
                                  step
                                    (add_accumulated_fees x.fee
                                      (record credited { tiers = bought; ledger = last }))
                                    λ collected e_a.
                                      let q : x ≡ trade =
                                        get_trade_found s trade_id trade found e in
                                      let first =
                                        transfer-Paid t laws x.currency c.contract x.seller payout
                                          s.ledger sent (rw q (λ k. ns (sym k))) e_s in
                                      let second =
                                        transfer-Paid t laws x.currency c.contract x.seller again
                                          topped last (rw q (λ k. ns (sym k))) e_l in
                                      let middle =
                                        at_ok
                                          (top_up-seller x credited.ledger (rw q ns) (rw q diff)
                                            (rw q nb))
                                          e_t in
                                      let e1 = credited-ledger x.currency x.fee _ credited e_c in
                                      let e2 = collected-ledger x.fee _ collected e_a in
                                      let b = t.balance x.currency x.seller in
                                      let total : b collected.ledger
                                          ≡ b s.ledger + 2 * (x.amount - x.fee) =
                                        omega (
                                          arith,
                                          ap b e2,
                                          second.credit,
                                          middle,
                                          ap b e1,
                                          first.credit,
                                          checked_sub-ok _ _ e_p,
                                          checked_sub-ok _ _ e_p',
                                        ) in
                                      returned (
                                        subst
                                          (λ (x : Trade).
                                            t.balance x.currency x.seller collected.ledger
                                            ≡ t.balance x.currency x.seller s.ledger
                                              + 2 * (x.amount - x.fee))
                                          q total))
        h
