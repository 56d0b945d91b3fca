-- ===== src/Escrow/Money.antt =====
-- Where the tokens go when a trade is funded and when a dispute is resolved.
use mathlib.Core.Path.{subst}
use native.Mathlib.Nat.{div-mul-le_self, mul-le-mul_left}
use stellar_escrow.Prelude.{
  ℕ, ◌+◌, ◌-◌, ◌*◌, ◌/◌, ◌≤◌, ◌≡◌, ◌≢◌, refl, sym, ◌∙◌, ap, arith, not, some, ltb, get_or,
  Bool-cases, inl, inr,
}
use stellar_escrow.Errors.{invalid_status, no_arbitrator, invalid_split_bps}
use stellar_escrow.Soroban.{
  ok, Ctx, Token, TokenLaws, transfer, transfer-ok, Ensures, step, returned, at_ok, ensured,
  fail_if, fail_if-ok, ok_or, require_auth, checked_sub, checked_sub-ok, checked_mul,
  checked_mul-ok, checked_div, checked_div-ok, checked_add, checked_add-ok, u64_mod,
}
use stellar_escrow.Escrow.State.{
  created, disputed, is, DisputeResolution, release_to_buyer, release_to_seller, partial, Trade,
  Escrow, require_initialized, require_not_paused, get_trade, get_trade_found, add_accumulated_fees,
}
use stellar_escrow.Escrow.Trades.{fund_trade, pay_share, pay_resolution, resolve_dispute}

-- A payment of `n` from one holder to another, seen in the balances of one token.
pub record Paid {L : Type 0} (t : Token L) (k from to n : ℕ) (l l' : L) : Type 0 where
  pub debit : t.balance k from l' + n ≡ t.balance k from l
  pub credit : t.balance k to l' ≡ t.balance k to l + n
  pub others : (h : ℕ) → h ≢ from → h ≢ to → t.balance k h l' ≡ t.balance k h l

module _ {L : Type 0} (t : Token L) (laws : TokenLaws t) where
  pub transfer-Paid :
      (k from to n : ℕ) (l l' : L)
      → from ≢ to
      → transfer t k from to n l ≡ ok l'
      → Paid t k from to n l l'
  transfer-Paid k from to n l l' ne h =
      let m = transfer-ok t k from to n l h in
      record {
        debit = laws.debit k from to n l l' ne m;
        credit = laws.credit k from to n l l' ne m;
        others = λ j. laws.others k from to n l l' k j m;
      }

  pub pay_share-Paid :
      (c : Ctx) (k to n : ℕ) (l : L)
      → c.contract ≢ to
      → Ensures (Paid t k c.contract to n l) (pay_share t c k to n l)
  unfolding pay_share
  pay_share-Paid c k to n l ne = elim (Bool-cases (ltb 0 n)) [
    | inl e ↦
        rw e (
          ensured (transfer t k c.contract to n l)
            λ l' h. transfer-Paid k c.contract to n l l' ne h)
    | inr e ↦
        let nothing : n ≡ 0 = ground arith in
        rw e (
          returned (record {
            debit = omega (arith, nothing);
            credit = omega (arith, nothing);
            others = λ h _ _. refl;
          }))
  ]

  -- Where the buyer is not the contract itself, funding a trade that returns takes the amount from the buyer and gives it to the contract, and
  -- leaves every other holder's balance of the currency as it was.
  pub fund_trade-Paid :
      (c : Ctx) (trade_id : ℕ) (s s' : Escrow L) (trade : Trade)
      → s.trades trade_id ≡ some trade
      → trade.buyer ≢ c.contract
      → fund_trade t c trade_id s ≡ ok s'
      → Paid t trade.currency trade.buyer c.contract trade.amount s.ledger s'.ledger
  unfolding fund_trade
  fund_trade-Paid c trade_id s s' trade found ne h =
      at_ok
        {P = λ (s' : Escrow L).
          Paid t trade.currency trade.buyer c.contract trade.amount s.ledger s'.ledger}
        (step (require_initialized s) λ _ _. step (require_not_paused s) λ _ _.
          step (get_trade s trade_id) λ x e.
            step (fail_if (not (is x.status created)) invalid_status) λ _ _.
              step (require_auth c x.buyer) λ _ _.
                step (transfer t x.currency x.buyer c.contract x.amount s.ledger) λ paid m.
                  let q : x ≡ trade = get_trade_found s trade_id trade found e in
                  returned (
                    subst
                      (λ (x : Trade). Paid t x.currency x.buyer c.contract x.amount s.ledger paid) q
                      (transfer-Paid x.currency x.buyer c.contract x.amount s.ledger paid (rw q ne)
                        m)))
        h

-- The buyer's share of a net amount under a resolution.
pub buyer_share : DisputeResolution → ℕ → ℕ
buyer_share release_to_buyer net = net
buyer_share release_to_seller net = 0
buyer_share (partial buyer_bps) net = net * buyer_bps / 10000

-- What a resolution has done with the net amount.
pub record Split {L : Type 0} (t : Token L) (contract : ℕ) (trade : Trade) (net : ℕ)
    (r : DisputeResolution) (l l' : L) : Type 0 where
  pub share_le : buyer_share r net ≤ net
  pub held : t.balance trade.currency contract l' + net ≡ t.balance trade.currency contract l
  pub to_buyer :
      t.balance trade.currency trade.buyer l'
      ≡ t.balance trade.currency trade.buyer l + buyer_share r net
  pub to_seller :
      t.balance trade.currency trade.seller l'
      ≡ t.balance trade.currency trade.seller l + (net - buyer_share r net)

share_le : (net bps : ℕ) → bps ≤ 10000 → net * bps / 10000 ≤ net
share_le net bps le =
    let a : net * bps / 10000 * 10000 ≤ net * bps = div-mul-le_self (net * bps) 10000 in
    let b : net * bps ≤ net * 10000 = mul-le-mul_left net le in omega arith

module _ {L : Type 0} (t : Token L) (laws : TokenLaws t) (c : Ctx) where
  both-Paid :
      (trade : Trade) (net share : ℕ) (l m l' : L)
      → trade.buyer ≢ c.contract
      → trade.seller ≢ c.contract
      → trade.buyer ≢ trade.seller
      → share ≤ net
      → Paid t trade.currency c.contract trade.buyer share l m
      → Paid t trade.currency c.contract trade.seller (net - share) m l'
      → (t.balance trade.currency c.contract l' + net ≡ t.balance trade.currency c.contract l)
        × (t.balance trade.currency trade.buyer l' ≡ t.balance trade.currency trade.buyer l + share)
        × (t.balance trade.currency trade.seller l'
            ≡ t.balance trade.currency trade.seller l + (net - share))
  both-Paid trade net share l m l' nb ns diff le p q =
      let a = p.debit in
      let b = q.debit in
      let kept = p.others trade.seller ns (λ e. diff (sym e)) in
      let kept' = q.others trade.buyer nb diff in
      (omega (arith, a, b), kept' ∙ p.credit, q.credit ∙ ap (λ n. n + (net - share)) kept)

  pay_resolution-Split :
      (trade : Trade) (net : ℕ) (r : DisputeResolution) (l : L)
      → trade.buyer ≢ c.contract
      → trade.seller ≢ c.contract
      → trade.buyer ≢ trade.seller
      → Ensures (Split t c.contract trade net r l) (pay_resolution t c trade net r l)
  unfolding pay_resolution buyer_share
  pay_resolution-Split trade net release_to_buyer l nb ns diff =
      ensured (transfer t trade.currency c.contract trade.buyer net l) λ l' e.
        let p =
          transfer-Paid t laws trade.currency c.contract trade.buyer net l l' (λ k. nb (sym k)) e in
        let zero_left : net - net ≡ 0 = omega arith in
        record {
          share_le = omega arith;
          held = p.debit;
          to_buyer = p.credit;
          to_seller = rw zero_left (p.others trade.seller ns (λ k. diff (sym k)) ∙ omega arith);
        }
  pay_resolution-Split trade net release_to_seller l nb ns diff =
      ensured (transfer t trade.currency c.contract trade.seller net l) λ l' e.
        let p =
          transfer-Paid t laws trade.currency c.contract trade.seller net l l' (λ k. ns (sym k))
            e in
        record {
          share_le = omega arith;
          held = p.debit;
          to_buyer = p.others trade.buyer nb diff ∙ omega arith;
          to_seller = p.credit ∙ omega arith;
        }
  pay_resolution-Split trade net (partial bps) l nb ns diff =
      step (fail_if (ltb 10000 bps) invalid_split_bps) λ _ e.
        step (checked_mul u64_mod net bps) λ product e_p.
          step (checked_div product 10000) λ share e_s. step (checked_sub net share) λ rest e_r.
            step (pay_share t c trade.currency trade.buyer share l) λ m e_m.
              ensured (pay_share t c trade.currency trade.seller rest m) λ l' e_l.
                let small = fail_if-ok _ _ e in
                let le : net * bps / 10000 ≤ net = share_le net bps (ground arith) in
                let e_share : share ≡ net * bps / 10000 =
                  (checked_div-ok _ _ e_s).1 ∙ ap (λ n. n / 10000) (checked_mul-ok _ _ _ e_p).1 in
                let e_rest : rest ≡ net - net * bps / 10000 =
                  (checked_sub-ok _ _ e_r).1 ∙ ap (λ n. net - n) e_share in
                let p =
                  at_ok
                    (pay_share-Paid t laws c trade.currency trade.buyer share l (λ k. nb (sym k)))
                    e_m in
                let q =
                  at_ok
                    (pay_share-Paid t laws c trade.currency trade.seller rest m (λ k. ns (sym k)))
                    e_l in
                let (held, buyer, seller) =
                  both-Paid trade net (net * bps / 10000) l m l' nb ns diff le (rw e_share at p)
                    (rw e_rest at q) in
                record { share_le = le; held = held; to_buyer = buyer; to_seller = seller }

  -- A dispute that is resolved pays exactly the amount less the fee out of the contract, the buyer's
  -- share of it to the buyer and the rest to the seller, and adds the fee to the fees collected,
  -- where the three parties differ.
  pub resolve_dispute-Split :
      (trade_id : ℕ) (r : DisputeResolution) (s s' : Escrow L) (trade : Trade)
      → s.trades trade_id ≡ some trade
      → trade.buyer ≢ c.contract
      → trade.seller ≢ c.contract
      → trade.buyer ≢ trade.seller
      → resolve_dispute t c trade_id r s ≡ ok s'
      → Split t c.contract trade (trade.amount - trade.fee) r s.ledger s'.ledger
        × (get_or s'.accumulated_fees 0 ≡ get_or s.accumulated_fees 0 + trade.fee)
  unfolding resolve_dispute add_accumulated_fees
  resolve_dispute-Split trade_id r s s' trade found nb ns diff h =
      at_ok
        {P = λ (s' : Escrow L).
          Split t c.contract trade (trade.amount - trade.fee) r s.ledger s'.ledger
          × (get_or s'.accumulated_fees 0 ≡ get_or s.accumulated_fees 0 + trade.fee)}
        (step (require_initialized s) λ _ _. step (require_not_paused s) λ _ _.
          step (get_trade s trade_id) λ x e.
            step (fail_if (not (is x.status disputed)) invalid_status) λ _ _.
              step (ok_or x.arbitrator no_arbitrator) λ arbitrator _.
                step (require_auth c arbitrator) λ _ _.
                  step (checked_sub x.amount x.fee) λ net e_net.
                    step (pay_resolution t c x net r s.ledger) λ paid e_paid.
                      step (checked_add u64_mod (get_or s.accumulated_fees 0) x.fee) λ fees e_fees.
                        let q : x ≡ trade = get_trade_found s trade_id trade found e in
                        let e_n : net ≡ trade.amount - trade.fee =
                          (checked_sub-ok _ _ e_net).1 ∙ ap (λ (y : Trade). y.amount - y.fee) q in
                        let split =
                          at_ok
                            (pay_resolution-Split x net r s.ledger (rw q nb) (rw q ns) (rw q diff))
                            e_paid in
                        returned (
                          rw (q, e_n) at split,
                          (checked_add-ok _ _ _ e_fees).1
                              ∙ ap (λ (y : Trade). get_or s.accumulated_fees 0 + y.fee) q,
                        ))
        h
