-- ===== src/Escrow/FlatInsurance.antt =====
-- contract/src/insurance.rs: the second version of the insurance of a trade, with a flat premium. Its
-- products are plain `*`, which trap where they do not fit.
use mathlib.Core.Path.{subst}
use stellar_escrow.Prelude.{
  ℕ, ◌*◌, ◌/◌, ◌≡◌, ◌≢◌, refl, ap, arith, Bool, true, false, not, Option, none, some, ltb, ◌==◌,
  ==-refl, update,
}
use stellar_escrow.Errors.{
  insurance_premium_too_high, insurance_provider_not_registered, invalid_status, unauthorized,
  trade_not_insured, insurance_already_claimed,
}
use stellar_escrow.Soroban.{
  Result, ok, ◌>>=◌, ◌>>◌, fail_if, fail_if-ok, ok_or, u64_mod, within_or_trap, within_or_trap-ok,
  Ctx, require_auth, Token, TokenLaws, transfer, Ensures, step, returned, at_ok,
}
use stellar_escrow.Escrow.State.{
  created, disputed, is, Trade, InsurancePolicy, Escrow, get_trade, get_trade_found,
}
use stellar_escrow.Escrow.Money.{Paid, transfer-Paid}
use stellar_escrow.Escrow.Insurance.{max_insurance_premium_bps}

abbrev pub is_some : Option InsurancePolicy → Bool
is_some none = false
is_some (some _) = true

unfoldable pub calculate_premium : ℕ → Result ℕ
calculate_premium amount = do product ← within_or_trap u64_mod (amount * 200); ok (product / 10000)

abbrev pub save_policy : {L : Type 0} → ℕ → InsurancePolicy → Escrow L → Escrow L
save_policy trade_id policy s = record s { policies = update s.policies trade_id (some policy) }

module _ {L : Type 0} (t : Token L) (c : Ctx) where
  unfoldable pub purchase_insurance : ℕ → ℕ → ℕ → Escrow L → Result (Escrow L)
  unfolding calculate_premium
  purchase_insurance trade_id buyer provider s = do
    fail_if (not (s.providers provider)) insurance_provider_not_registered
    trade ← get_trade s trade_id
    fail_if (not (is trade.status created)) invalid_status
    fail_if (not (trade.buyer == buyer)) unauthorized
    require_auth c buyer
    fail_if (is_some (s.policies trade_id)) invalid_status
    premium ← calculate_premium trade.amount
    most ← within_or_trap u64_mod (trade.amount * max_insurance_premium_bps)
    fail_if (ltb (most / 10000) premium) insurance_premium_too_high
    paid ← transfer t trade.currency buyer c.contract premium s.ledger
    let policy : InsurancePolicy = record {
      provider = provider;
      premium = premium;
      coverage = trade.amount;
      claimed = false;
    }
    ok (save_policy trade_id policy (record s { ledger = paid }))

  unfoldable pub claim_insurance : ℕ → ℕ → Escrow L → Result (Escrow L)
  claim_insurance trade_id recipient s = do
    policy ← ok_or (s.policies trade_id) trade_not_insured
    fail_if policy.claimed insurance_already_claimed
    trade ← get_trade s trade_id
    fail_if (not (is trade.status disputed)) invalid_status
    require_auth c recipient
    paid ← transfer t trade.currency policy.provider recipient policy.coverage s.ledger
    ok (save_policy trade_id (record policy { claimed = true }) (record s { ledger = paid }))

-- What a purchase has done: the buyer paid a fiftieth of the amount, rounded down, to the contract, for
-- a policy that covers the whole amount.
pub record Insured {L : Type 0} (t : Token L) (contract provider trade_id : ℕ) (trade : Trade)
    (s s' : Escrow L) : Type 0 where
  pub premium : ℕ
  pub premium_is : premium ≡ trade.amount * 200 / 10000
  pub paid : Paid t trade.currency trade.buyer contract premium s.ledger s'.ledger
  pub policy :
      s'.policies trade_id
      ≡ some (record {
        provider = provider;
        premium = premium;
        coverage = trade.amount;
        claimed = false;
      })
  pub unclaimed_before : s.policies trade_id ≡ none

not_some : (o : Option InsurancePolicy) → is_some o ≡ false → o ≡ none
not_some none h = refl
not_some (some p) h = ground arith

premium_lem :
    (amount : ℕ) → Ensures (λ (n : ℕ). n ≡ amount * 200 / 10000) (calculate_premium amount)
unfolding calculate_premium
premium_lem amount = step (within_or_trap u64_mod (amount * 200)) λ product e.
    let is = (within_or_trap-ok u64_mod (amount * 200) e).1 in returned (ap (λ n. n / 10000) is)

module _ {L : Type 0} (t : Token L) (laws : TokenLaws t) (c : Ctx) where
  -- A purchase that returns was made by the buyer of a trade without a policy: the buyer has paid a
  -- fiftieth of the amount, rounded down, to the contract, for a policy that covers the whole amount.
  pub purchase_insurance-Insured :
      (trade_id buyer provider : ℕ) (s s' : Escrow L) (trade : Trade)
      → s.trades trade_id ≡ some trade
      → buyer ≢ c.contract
      → purchase_insurance t c trade_id buyer provider s ≡ ok s'
      → (trade.buyer ≡ buyer) × Insured t c.contract provider trade_id trade s s'
  unfolding purchase_insurance calculate_premium
  purchase_insurance-Insured trade_id buyer provider s s' trade found ne h =
      at_ok
        {P = λ (s' : Escrow L).
          (trade.buyer ≡ buyer) × Insured t c.contract provider trade_id trade s s'}
        (step (fail_if (not (s.providers provider)) insurance_provider_not_registered) λ _ _.
          step (get_trade s trade_id) λ x e.
            step (fail_if (not (is x.status created)) invalid_status) λ _ _.
              step (fail_if (not (x.buyer == buyer)) unauthorized) λ _ own.
                step (require_auth c buyer) λ _ _.
                  step (fail_if (is_some (s.policies trade_id)) invalid_status) λ _ new.
                    step (calculate_premium x.amount) λ premium p.
                      step (within_or_trap u64_mod (x.amount * max_insurance_premium_bps)) λ most _.
                        step (fail_if (ltb (most / 10000) premium) insurance_premium_too_high)
                          λ _ _.
                            step (transfer t x.currency buyer c.contract premium s.ledger) λ paid m.
                              let same : x ≡ trade = get_trade_found s trade_id trade found e in
                              let mine = fail_if-ok _ _ own in
                              let is_buyer : x.buyer ≡ buyer = ground arith in
                              returned (
                                subst
                                  (λ (y : Trade).
                                    (y.buyer ≡ buyer)
                                    × Insured t c.contract provider trade_id y s (
                                        save_policy trade_id
                                          (record {
                                            provider = provider;
                                            premium = premium;
                                            coverage = x.amount;
                                            claimed = false;
                                          })
                                          (record s { ledger = paid })))
                                  same
                                  (
                                    is_buyer,
                                    record {
                                      premium = premium;
                                      premium_is = at_ok (premium_lem x.amount) p;
                                      paid = rw is_buyer (
                                          transfer-Paid t laws x.currency buyer c.contract premium
                                            s.ledger paid ne m);
                                      policy = rw (==-refl trade_id) refl;
                                      unclaimed_before = not_some _ (fail_if-ok _ _ new);
                                    },
                                  )))
        h
