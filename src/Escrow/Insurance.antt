-- ===== src/Escrow/Insurance.antt =====
-- The insurance of a trade in contract/src/lib.rs. contract/src/insurance.rs holds another version
-- of the same operations, which is modelled in Escrow/FlatInsurance.antt.
use stellar_escrow.Prelude.{
  ℕ, ◌≡◌, ◌≢◌, refl, arith, min, true, false, not, ◌&&◌, some, ltb, ==-refl, if◌then◌else◌, update,
}
use stellar_escrow.Errors.{
  insurance_premium_too_high, insurance_provider_not_registered, invalid_status,
  insurance_claim_not_eligible, trade_not_insured, insurance_already_claimed, not_initialized,
}
use stellar_escrow.Soroban.{
  Result, ok, err, ◌>>=◌, ◌>>◌, fail_if, ok_or, u64_mod, checked_mul, checked_div, Ctx,
  require_auth, Token, TokenLaws, transfer, fail_if-ok, ok_or-ok, Ensures, step, returned, at_ok,
}
use stellar_escrow.Escrow.State.{
  funded, completed, disputed, is, Trade, InsurancePolicy, Escrow, require_initialized,
  require_not_paused, get_admin, get_usdc_token, get_trade,
}
use stellar_escrow.Escrow.Money.{Paid, transfer-Paid}

abbrev pub max_insurance_premium_bps : ℕ
max_insurance_premium_bps = 1000

module _ {L : Type 0} (c : Ctx) where
  unfoldable pub register_insurance_provider : ℕ → Escrow L → Result (Escrow L)
  register_insurance_provider provider s = do
    require_initialized s
    admin ← get_admin s
    require_auth c admin
    ok (record s { providers = update s.providers provider true })

  unfoldable pub remove_insurance_provider : ℕ → Escrow L → Result (Escrow L)
  remove_insurance_provider provider s = do
    require_initialized s
    admin ← get_admin s
    require_auth c admin
    ok (record s { providers = update s.providers provider false })

  module _ (t : Token L) where
    abbrev save_insurance_policy : ℕ → InsurancePolicy → Escrow L → Escrow L
    save_insurance_policy trade_id policy s = record s {
      policies = update s.policies trade_id (some policy);
    }

    unfoldable pub purchase_insurance : ℕ → ℕ → ℕ → ℕ → Escrow L → Result (Escrow L)
    purchase_insurance trade_id provider premium_bps coverage s = do
      require_initialized s
      require_not_paused s
      fail_if (ltb max_insurance_premium_bps premium_bps) insurance_premium_too_high
      fail_if (not (s.providers provider)) insurance_provider_not_registered
      trade ← get_trade s trade_id
      fail_if (not (is trade.status funded) && not (is trade.status completed)) invalid_status
      require_auth c trade.buyer
      product ← checked_mul u64_mod trade.amount premium_bps
      premium ← checked_div product 10000
      usdc ← get_usdc_token s
      sent ← transfer t usdc trade.buyer provider premium s.ledger
      let policy : InsurancePolicy = record {
        provider = provider;
        premium = premium;
        coverage = coverage;
        claimed = false;
      }
      ok (save_insurance_policy trade_id policy (record s { ledger = sent }))

    unfoldable pub claim_insurance : ℕ → ℕ → ℕ → Escrow L → Result (Escrow L)
    claim_insurance trade_id recipient payout s = do
      require_initialized s
      trade ← get_trade s trade_id
      fail_if (not (is trade.status disputed) && not (is trade.status completed))
          insurance_claim_not_eligible
      policy ← ok_or (s.policies trade_id) trade_not_insured
      fail_if policy.claimed insurance_already_claimed
      require_auth c policy.provider
      let actual_payout = if ltb policy.coverage payout then policy.coverage else payout
      usdc ← get_usdc_token s
      sent ← transfer t usdc policy.provider recipient actual_payout s.ledger
      ok (
          save_insurance_policy trade_id (record policy { claimed = true })
            (record s { ledger = sent }))

-- What a claim leaves behind: an eligible trade with a policy that is claimed.
record Spent {L : Type 0} (trade_id : ℕ) (s : Escrow L) : Type 0 where
  trade : Trade
  policy : InsurancePolicy
  running : require_initialized s ≡ ok tt
  found : get_trade s trade_id ≡ ok trade
  eligible : (not (is trade.status disputed) && not (is trade.status completed)) ≡ false
  insured : s.policies trade_id ≡ some policy
  used : policy.claimed ≡ true

claim_insurance-Spent :
    {L : Type 0} (t : Token L) (c : Ctx) (trade_id recipient payout : ℕ) (s : Escrow L)
    → Ensures (Spent trade_id) (claim_insurance c t trade_id recipient payout s)
unfolding claim_insurance require_initialized get_trade
claim_insurance-Spent t c trade_id recipient payout s = step (require_initialized s) λ _ e_i.
    step (get_trade s trade_id) λ trade e_t.
      step
        (fail_if (not (is trade.status disputed) && not (is trade.status completed))
          insurance_claim_not_eligible)
        λ _ e_s. step (ok_or (s.policies trade_id) trade_not_insured) λ policy _.
          step (fail_if policy.claimed insurance_already_claimed) λ _ _.
            step (require_auth c policy.provider) λ _ _. step (get_usdc_token s) λ usdc _.
              step
                (transfer t usdc policy.provider recipient
                  (if ltb policy.coverage payout then policy.coverage else payout) s.ledger)
                λ sent _. returned (record {
                  trade = trade;
                  policy = record policy { claimed = true };
                  running = e_i;
                  found = e_t;
                  eligible = fail_if-ok _ _ e_s;
                  insured = rw (==-refl trade_id) refl;
                  used = refl;
                })

Spent-refuses :
    {L : Type 0} (t : Token L) (d : Ctx) (trade_id to n : ℕ) (s : Escrow L)
    → Spent trade_id s
    → claim_insurance d t trade_id to n s ≡ err insurance_already_claimed
unfolding claim_insurance fail_if ok_or
Spent-refuses t d trade_id to n s f = rw (f.running, f.found, f.eligible, f.insured, f.used) refl

-- After a claim that returns, every further claim on the trade is refused, whoever makes it.
pub claim_insurance_once :
    {L : Type 0} (t : Token L) (c d : Ctx) (trade_id recipient payout to n : ℕ) (s s' : Escrow L)
    → claim_insurance c t trade_id recipient payout s ≡ ok s'
    → claim_insurance d t trade_id to n s' ≡ err insurance_already_claimed
claim_insurance_once t c d trade_id recipient payout to n s s' h =
    Spent-refuses t d trade_id to n s'
      (at_ok (claim_insurance-Spent t c trade_id recipient payout s) h)

module _ {L : Type 0} (t : Token L) (laws : TokenLaws t) (c : Ctx) (trade_id recipient payout : ℕ)
    (s : Escrow L) where
  -- A claim that returns takes the payout asked for, cut to the coverage, from the provider's
  -- balance of the usdc token and gives it to the recipient, where the two differ.
  pub claim_insurance-Paid :
      (s' : Escrow L) (policy : InsurancePolicy) (usdc : ℕ)
      → s.policies trade_id ≡ some policy
      → s.usdc_token ≡ some usdc
      → policy.provider ≢ recipient
      → claim_insurance c t trade_id recipient payout s ≡ ok s'
      → Paid t usdc policy.provider recipient (min payout policy.coverage) s.ledger s'.ledger
  unfolding claim_insurance get_usdc_token
  claim_insurance-Paid s' policy usdc e_p e_u ne h =
      at_ok
        {P = λ (s' : Escrow L).
          Paid t usdc policy.provider recipient (min payout policy.coverage) s.ledger s'.ledger}
        (step (require_initialized s) λ _ _. step (get_trade s trade_id) λ trade _.
          step
            (fail_if (not (is trade.status disputed) && not (is trade.status completed))
              insurance_claim_not_eligible)
            λ _ _. step (ok_or (s.policies trade_id) trade_not_insured) λ p e.
              step (fail_if p.claimed insurance_already_claimed) λ _ _.
                step (require_auth c p.provider) λ _ _.
                  step (ok_or s.usdc_token not_initialized) λ u e'.
                    step
                      (transfer t u p.provider recipient
                        (if ltb p.coverage payout then p.coverage else payout) s.ledger)
                      λ sent m.
                        let q : p ≡ policy = ground (arith, ok_or-ok (s.policies trade_id) _ e) in
                        let r : u ≡ usdc = ground (arith, ok_or-ok s.usdc_token _ e') in
                        let cut : (if ltb policy.coverage payout then policy.coverage else payout)
                            ≡ min payout policy.coverage =
                          ground arith in
                        returned (
                          rw (← cut) (
                            transfer-Paid t laws usdc policy.provider recipient _ s.ledger sent ne
                              (rw (q, r) at m))))
        h
