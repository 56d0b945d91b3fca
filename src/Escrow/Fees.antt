-- ===== src/Escrow/Fees.antt =====
-- The fee of a trade, the fees that the contract has collected, and the pause.
use native.Mathlib.Nat.{div-mul-le_self, mul-le-mul_left}
use stellar_escrow.Prelude.{
  ℕ, zero, suc, ◌+◌, ◌-◌, ◌*◌, ◌/◌, ◌≤◌, ◌<◌, ◌≡◌, ◌≢◌, refl, ◌∙◌, ap, arith, true, not, Option,
  none, some, ltb, ◌==◌, ==-refl, update, get_or, pos,
}
use stellar_escrow.Errors.{
  contract_paused, already_initialized, invalid_fee_bps, not_initialized, unauthorized,
  no_fees_to_withdraw,
}
use stellar_escrow.Soroban.{
  ok, err, Ctx, Token, TokenLaws, transfer, fail_if, fail_if-ok, ok_or, ok_or-ok, require_auth,
  require_auth-ok, checked_mul, checked_mul-ok, checked_div, checked_div-ok, u64_mod, step,
  returned, at_ok, ensured,
}
use stellar_escrow.Oracle.{PriceData}
use stellar_escrow.Escrow.State.{
  Escrow, DisputeResolution, calc_fee, get_fee_bps, get_admin, get_currency_fees,
  require_initialized, require_not_paused, is_initialized, is_paused,
}
use stellar_escrow.Escrow.Admin.{initialize, update_fee, withdraw_fees, positive}
use stellar_escrow.Escrow.Trades.{
  fund_trade, complete_trade, confirm_receipt, cancel_trade, raise_dispute, resolve_dispute,
  execute_price_trigger,
}
use stellar_escrow.Escrow.CrossChain.{create_cross_chain_trade}
use stellar_escrow.Escrow.Money.{Paid, transfer-Paid}

-- The fee rate, where there is one, is at most 10 000 basis points.
abbrev pub RateInRange : Option ℕ → Type 0
RateInRange none = Unit
RateInRange (some bps) = bps ≤ 10000

fee_le : (amount bps : ℕ) → bps ≤ 10000 → amount * bps / 10000 ≤ amount
fee_le amount bps le =
    let a : amount * bps / 10000 * 10000 ≤ amount * bps = div-mul-le_self (amount * bps) 10000 in
    let b : amount * bps ≤ amount * 10000 = mul-le-mul_left amount le in omega arith

positive-ok : (n : ℕ) {m : ℕ} → positive (pos n) ≡ ok m → (m ≡ n) × (0 < n)
unfolding positive
positive-ok zero h = ground arith
positive-ok (suc n) h = ground arith

module _ {L : Type 0} where
  -- At a rate in range the fee of an amount never exceeds it.
  pub calc_fee_le :
      (s : Escrow L) (amount fee : ℕ)
      → RateInRange s.fee_bps
      → calc_fee s amount ≡ ok fee
      → fee ≤ amount
  unfolding calc_fee get_fee_bps
  calc_fee_le s amount fee r h =
      at_ok {P = λ fee. fee ≤ amount}
        (step (ok_or s.fee_bps not_initialized) λ bps e.
          step (checked_mul u64_mod amount bps) λ product e_p.
            ensured (checked_div product 10000) λ q e_q.
              let in_range : bps ≤ 10000 = rw (ok_or-ok s.fee_bps _ e) at r in
              let small = fee_le amount bps in_range in
              rw ((checked_div-ok _ _ e_q).1, (checked_mul-ok _ _ _ e_p).1) small)
        h

  -- After the contract is initialised with a rate, the fee of an amount never exceeds it.
  pub initialize-calc_fee_le :
      (c : Ctx) (admin usdc bps amount fee : ℕ) (s s' : Escrow L)
      → initialize c admin usdc bps s ≡ ok s'
      → calc_fee s' amount ≡ ok fee
      → fee ≤ amount
  unfolding initialize
  initialize-calc_fee_le c admin usdc bps amount fee s s' h k =
      let in_range : RateInRange s'.fee_bps =
        at_ok {P = λ (s' : Escrow L). RateInRange s'.fee_bps}
          (step (fail_if (is_initialized s) already_initialized) λ _ _.
            step (fail_if (ltb 10000 bps) invalid_fee_bps)
              λ _ e. step (require_auth c admin) λ _ _. returned (ground (arith, fail_if-ok _ _ e)))
          h in
      calc_fee_le s' amount fee in_range k

  -- After the admin has changed the rate, the fee of an amount never exceeds it.
  pub update_fee-calc_fee_le :
      (c : Ctx) (bps amount fee : ℕ) (s s' : Escrow L)
      → update_fee c bps s ≡ ok s'
      → calc_fee s' amount ≡ ok fee
      → fee ≤ amount
  unfolding update_fee
  update_fee-calc_fee_le c bps amount fee s s' h k =
      let in_range : RateInRange s'.fee_bps =
        at_ok {P = λ (s' : Escrow L). RateInRange s'.fee_bps}
          (step (require_initialized s) λ _ _. step (require_not_paused s) λ _ _.
            step (fail_if (ltb 10000 bps) invalid_fee_bps) λ _ e. step (get_admin s) λ admin _.
              step (require_auth c admin) λ _ _. returned (ground (arith, fail_if-ok _ _ e)))
          h in
      calc_fee_le s' amount fee in_range k

  admin-ok : (s : Escrow L) {admin : ℕ} → get_admin s ≡ ok admin → s.admin ≡ some admin
  unfolding get_admin
  admin-ok s h = ok_or-ok s.admin _ h

  -- A withdrawal of fees that returns carries the authorisation of the stored admin, lowers the fees collected in the
  -- currency by exactly a positive amount, and pays it to the recipient, where the recipient is not
  -- the contract.
  pub withdraw_fees_lowers :
      (t : Token L)
      → TokenLaws t
      → (c : Ctx) (admin currency n recipient : ℕ) (s s' : Escrow L) → c.contract ≢ recipient
      → withdraw_fees c t admin currency (pos n) recipient s ≡ ok s'
      → (s.admin ≡ some admin)
        × (c.auth admin ≡ true)
        × (0 < n)
        × (get_currency_fees s' currency + n ≡ get_currency_fees s currency)
        × Paid t currency c.contract recipient n s.ledger s'.ledger
  unfolding withdraw_fees get_currency_fees
  withdraw_fees_lowers t laws c admin currency n recipient s s' ne h =
      at_ok
        {P = λ (s' : Escrow L).
          (s.admin ≡ some admin)
          × (c.auth admin ≡ true)
          × (0 < n)
          × (get_currency_fees s' currency + n ≡ get_currency_fees s currency)
          × Paid t currency c.contract recipient n s.ledger s'.ledger}
        (step (require_initialized s) λ _ _. step (require_auth c admin) λ _ e_auth.
          step (get_admin s) λ stored e_a.
            step (fail_if (not (admin == stored)) unauthorized) λ _ e_s.
              step (positive (pos n)) λ m e_m.
                step (fail_if (ltb (get_currency_fees s currency) m) no_fees_to_withdraw) λ _ e_f.
                  step (transfer t currency c.contract recipient m s.ledger) λ sent e_t.
                    let (same, some_n) = positive-ok n e_m in
                    let who : stored ≡ admin = ground (arith, fail_if-ok _ _ e_s) in
                    let lowered : get_or
                            (update s.currency_fees currency
                              (some (get_currency_fees s currency - m)) currency)
                            0
                          + n
                        ≡ get_currency_fees s currency =
                      rw (==-refl currency) (ground (arith, fail_if-ok _ _ e_f)) in
                    returned (
                      admin-ok s e_a ∙ ap some who,
                      require_auth-ok c admin e_auth,
                      some_n,
                      lowered,
                      transfer-Paid t laws currency c.contract recipient n s.ledger sent ne
                          (rw same at e_t),
                    ))
        h

  -- While the contract is paused, funding, completing, cancelling and disputing a trade, confirming its
  -- receipt, resolving its dispute, running its price trigger and creating a cross-chain trade are each
  -- refused with the error of the pause. Confirming and expiring a cross-chain trade are not among them.
  pub paused_refuses :
      (t : Token L) (c : Ctx) (lastprice : ℕ → ℕ → ℕ → Option (Option PriceData))
      (silver gold id caller : ℕ) (r : DisputeResolution) (no_hash seller buyer amount : ℕ)
      (arbitrator : Option ℕ) (source_chain expiry_ledgers : ℕ) (s : Escrow L)
      → s.initialized ≡ some true
      → s.paused ≡ some true
      → (fund_trade t c id s ≡ err contract_paused)
        × (complete_trade t c id s ≡ err contract_paused)
        × (confirm_receipt t c silver gold id s ≡ err contract_paused)
        × (cancel_trade t c id s ≡ err contract_paused)
        × (raise_dispute t c id caller s ≡ err contract_paused)
        × (resolve_dispute t c id r s ≡ err contract_paused)
        × (execute_price_trigger t c lastprice id s ≡ err contract_paused)
        × (create_cross_chain_trade c no_hash seller buyer amount arbitrator source_chain
              expiry_ledgers s
            ≡ err contract_paused)
  unfolding fund_trade complete_trade confirm_receipt cancel_trade raise_dispute resolve_dispute
      execute_price_trigger create_cross_chain_trade require_initialized require_not_paused
      is_initialized is_paused fail_if
  paused_refuses t c lastprice silver gold id caller r no_hash seller buyer amount arbitrator
        source_chain expiry_ledgers s e p =
      (
        rw (e, p) refl,
        rw (e, p) refl,
        rw (e, p) refl,
        rw (e, p) refl,
        rw (e, p) refl,
        rw (e, p) refl,
        rw (e, p) refl,
        rw (e, p) refl,
      )
