-- ===== src/Escrow/PartialRelease.antt =====
-- contract/src/partial_release.rs, and its agreement with `resolve_dispute`.
use stellar_escrow.Prelude.{ℕ, ◌+◌, ◌≡◌, arith, not, some, ltb}
use stellar_escrow.Errors.{invalid_split_bps, invalid_status}
use stellar_escrow.Soroban.{
  Result, ok, ◌>>=◌, ◌>>◌, fail_if, u64_mod, checked_sub, checked_sub-ok, checked_mul, checked_div,
  Ensures, step, returned, at_ok,
}
use stellar_escrow.Escrow.State.{disputed, is, Trade, Escrow, get_trade, get_trade_found}

module _ {L : Type 0} where
  unfoldable pub calculate_partial_amounts : ℕ → ℕ → Escrow L → Result (ℕ × ℕ)
  calculate_partial_amounts trade_id buyer_bps s = do
    fail_if (ltb 10000 buyer_bps) invalid_split_bps
    trade ← get_trade s trade_id
    net ← checked_sub trade.amount trade.fee
    product ← checked_mul u64_mod net buyer_bps
    buyer_amount ← checked_div product 10000
    seller_amount ← checked_sub net buyer_amount
    ok (buyer_amount, seller_amount)

  unfoldable pub validate_partial_release : ℕ → ℕ → Escrow L → Result (Unit {0})
  validate_partial_release trade_id buyer_bps s = do
    fail_if (ltb 10000 buyer_bps) invalid_split_bps
    trade ← get_trade s trade_id
    fail_if (not (is trade.status disputed)) invalid_status
    amounts ← calculate_partial_amounts trade_id buyer_bps s
    ok tt

  unfoldable pub get_partial_release_fee : ℕ → Escrow L → Result ℕ
  get_partial_release_fee trade_id s = do trade ← get_trade s trade_id; ok trade.fee

  calculate_total :
      (trade_id buyer_bps : ℕ) (s : Escrow L) (trade : Trade)
      → s.trades trade_id ≡ some trade
      → Ensures
          (λ (x : ℕ × ℕ). x.0 + x.1 + trade.fee ≡ trade.amount)
          (calculate_partial_amounts trade_id buyer_bps s)
  unfolding calculate_partial_amounts
  calculate_total trade_id buyer_bps s trade found =
      step (fail_if (ltb 10000 buyer_bps) invalid_split_bps) λ _ _.
        step (get_trade s trade_id) λ x e. step (checked_sub x.amount x.fee) λ net e_net.
          step (checked_mul u64_mod net buyer_bps) λ product _.
            step (checked_div product 10000) λ buyer_amount _.
              step (checked_sub net buyer_amount) λ seller_amount e_rest.
                let q : x ≡ trade = get_trade_found s trade_id trade found e in
                let total : buyer_amount + seller_amount + x.fee ≡ x.amount =
                  omega (arith, checked_sub-ok _ _ e_net, checked_sub-ok _ _ e_rest) in
                returned (rw q at total)

  -- A partial release that `validate_partial_release` accepts has amounts, and they split the
  -- trade's amount without a remainder: the buyer's, the seller's and the fee add up to it.
  pub validate_partial_release_total :
      (trade_id buyer_bps : ℕ) (s : Escrow L) (trade : Trade)
      → s.trades trade_id ≡ some trade
      → validate_partial_release trade_id buyer_bps s ≡ ok tt
      → (a : ℕ) × (b : ℕ) × (calculate_partial_amounts trade_id buyer_bps s ≡ ok (a, b))
        × (a + b + trade.fee ≡ trade.amount)
  unfolding validate_partial_release
  validate_partial_release_total trade_id buyer_bps s trade found h =
      at_ok
        {P = λ (u : Unit {0}).
          (a : ℕ) × (b : ℕ) × (calculate_partial_amounts trade_id buyer_bps s ≡ ok (a, b))
          × (a + b + trade.fee ≡ trade.amount)}
        (step (fail_if (ltb 10000 buyer_bps) invalid_split_bps) λ _ _.
          step (get_trade s trade_id) λ x _.
            step (fail_if (not (is x.status disputed)) invalid_status) λ _ _.
              step (calculate_partial_amounts trade_id buyer_bps s) λ amounts e. returned (
                amounts.0,
                amounts.1,
                e,
                at_ok (calculate_total trade_id buyer_bps s trade found) e,
              ))
        h
