-- ===== src/Amm/Liquidity/Removal.antt =====
-- What `remove_liquidity` and `claim_yield` have read, computed and written when they return.
use stellar_escrow.Prelude.{
  ℕ, ◌+◌, ◌-◌, ◌≤◌, ◌<◌, ◌≡◌, refl, inl, inr, some, arith, ltb, ◌==◌, ◌||◌, Bool-cases,
}
use stellar_escrow.Errors.{invalid_amount, amm_slippage_exceeded, amm_insufficient_shares}
use stellar_escrow.Soroban.{
  ok, Ctx, Token, Ensures, step, returned, at_ok, fail_if, require_auth, checked_sub, transfer,
  checked_add, checked_add-ok, u64_mod, fail_if-ok, checked_sub-ok, transfer-ok,
}
use stellar_escrow.Amm.Pool.{
  Pool, LpPosition, Amm, save_pool, load_pool, load_pool-ok, load_lp, save_lp,
}
use stellar_escrow.Amm.Liquidity.{
  scaled, pending_fees, pay_owed, claim_yield_inner, remove_liquidity,
}

pub record Removed {L : Type 0} (t : Token L) (c : Ctx) (pool_id provider shares : ℕ) (s s' : Amm L)
    (a b : ℕ) : Type 0 where
  pub pool : Pool
  pub claimed : LpPosition
  pub paid : L
  pub ledger : L
  pub found : s.pools pool_id ≡ some pool
  pub enough : shares ≤ (load_lp c s pool_id provider).shares
  pub a_is : scaled shares pool.reserve_a pool.total_shares ≡ ok a
  pub b_is : scaled shares pool.reserve_b pool.total_shares ≡ ok b
  pub claims :
      claim_yield_inner t c pool (load_lp c s pool_id provider) provider s.ledger
      ≡ ok (claimed, paid)
  pub a_le : a ≤ pool.reserve_a
  pub b_le : b ≤ pool.reserve_b
  pub shares_le : shares ≤ pool.total_shares
  pub written :
      let pool' : Pool = record pool {
        reserve_a = pool.reserve_a - a;
        reserve_b = pool.reserve_b - b;
        total_shares = pool.total_shares - shares;
      } in
      s'
      ≡ save_lp provider
          (record claimed { shares = claimed.shares - shares })
          (save_pool pool' (record s { ledger = ledger }))

module _ {L : Type 0} (t : Token L) (c : Ctx) (pool_id provider shares min_a min_b : ℕ)
    (s : Amm L) where
  remove_liquidity-Ensures :
      Ensures
        (λ x. Removed t c pool_id provider shares s x.0 x.1 x.2)
        (remove_liquidity t c pool_id provider shares min_a min_b s)
  unfolding remove_liquidity
  remove_liquidity-Ensures =
      let pos = load_lp c s pool_id provider in
      step (require_auth c provider) λ _ _. step (fail_if (shares == 0) invalid_amount) λ _ _.
        step (load_pool s pool_id) λ pool e_pool.
          step (fail_if (ltb pos.shares shares) amm_insufficient_shares) λ _ e_enough.
            step (scaled shares pool.reserve_a pool.total_shares) λ a e_a.
              step (scaled shares pool.reserve_b pool.total_shares) λ b e_b.
                step (fail_if (ltb a min_a || ltb b min_b) amm_slippage_exceeded) λ _ _.
                  step (claim_yield_inner t c pool pos provider s.ledger) λ claim e_claim.
                    step (checked_sub pool.reserve_a a) λ reserve_a e_ra.
                      step (checked_sub pool.reserve_b b) λ reserve_b e_rb.
                        step (checked_sub pool.total_shares shares) λ total e_total.
                          step (checked_sub claim.0.shares shares) λ left e_left.
                            step (transfer t pool.token_a c.contract provider a claim.1) λ sent_a _.
                              step (transfer t pool.token_b c.contract provider b sent_a)
                                λ sent_b _. returned (record {
                                  pool = pool;
                                  claimed = claim.0;
                                  paid = claim.1;
                                  ledger = sent_b;
                                  found = load_pool-ok s pool_id e_pool;
                                  enough = ground (arith, fail_if-ok _ _ e_enough);
                                  a_is = e_a;
                                  b_is = e_b;
                                  claims = e_claim;
                                  a_le = (checked_sub-ok _ _ e_ra).0;
                                  b_le = (checked_sub-ok _ _ e_rb).0;
                                  shares_le = (checked_sub-ok _ _ e_total).0;
                                  written = rw (
                                    (checked_sub-ok _ _ e_ra).1,
                                    (checked_sub-ok _ _ e_rb).1,
                                    (checked_sub-ok _ _ e_total).1,
                                    (checked_sub-ok _ _ e_left).1,
                                  );
                                })

  pub remove_liquidity-Removed :
      (s' : Amm L) (a b : ℕ)
      → remove_liquidity t c pool_id provider shares min_a min_b s ≡ ok (s', a, b)
      → Removed t c pool_id provider shares s s' a b
  remove_liquidity-Removed s' a b h = at_ok remove_liquidity-Ensures h

-- One side of a claim: the transfer of what is owed, or nothing at all.
pub record Paid {L : Type 0} (t : Token L) (c : Ctx) (token provider owed rewards : ℕ) (l l' : L)
    (total : ℕ) : Type 0 where
  pub rewards_is : total ≡ rewards + owed
  pub sends : (0 < owed → t.move token c.contract provider owed l ≡ some l') × (owed ≡ 0 → l' ≡ l)

pay_owed-Ensures :
    {L : Type 0} (t : Token L) (c : Ctx) (token provider owed rewards : ℕ) (l : L)
    → Ensures
        (λ x. Paid t c token provider owed rewards l x.0 x.1)
        (pay_owed t c token provider owed rewards l)
unfolding pay_owed
pay_owed-Ensures t c token provider owed rewards l = elim (Bool-cases (ltb 0 owed)) [
  | inl e ↦ rw e (
      step (transfer t token c.contract provider owed l) λ sent e_sent.
        step (checked_add u64_mod rewards owed) λ total e_total. returned (record {
          rewards_is = (checked_add-ok _ _ _ e_total).1;
          sends = (λ _. transfer-ok _ _ _ _ _ _ e_sent, λ z. absurd (ground arith));
        }))
  | inr e ↦
      let z : owed ≡ 0 = ground arith in
      rw e (
        returned
          (record { rewards_is = omega arith; sends = (λ h. absurd (omega arith), λ _. refl) }))
]

pub record Claimed {L : Type 0} (t : Token L) (c : Ctx) (pool : Pool) (pos : LpPosition)
    (provider : ℕ) (l : L) (pos' : LpPosition) (l' : L) : Type 0 where
  pub owed_a : ℕ
  pub owed_b : ℕ
  pub middle : L
  pub a_is : pending_fees pos.shares pool.fees_a pos.fee_debt_a pool.total_shares ≡ ok owed_a
  pub b_is : pending_fees pos.shares pool.fees_b pos.fee_debt_b pool.total_shares ≡ ok owed_b
  pub pays_a :
      Paid t c pool.token_a provider owed_a pos.total_rewards_a l middle pos'.total_rewards_a
  pub pays_b :
      Paid t c pool.token_b provider owed_b pos.total_rewards_b middle l' pos'.total_rewards_b
  pub settled : (pos'.fee_debt_a ≡ pool.fees_a) × (pos'.fee_debt_b ≡ pool.fees_b)
  pub kept : (pos'.shares ≡ pos.shares) × (pos'.pool_id ≡ pos.pool_id)

module _ {L : Type 0} (t : Token L) (c : Ctx) (pool : Pool) (pos : LpPosition) (provider : ℕ)
    (l : L) where
  claim-Ensures :
      Ensures
        (λ x. Claimed t c pool pos provider l x.0 x.1)
        (claim_yield_inner t c pool pos provider l)
  unfolding claim_yield_inner
  claim-Ensures =
      step (pending_fees pos.shares pool.fees_a pos.fee_debt_a pool.total_shares) λ a e_a.
        step (pending_fees pos.shares pool.fees_b pos.fee_debt_b pool.total_shares) λ b e_b.
          step (pay_owed t c pool.token_a provider a pos.total_rewards_a l) λ x e_x.
            step (pay_owed t c pool.token_b provider b pos.total_rewards_b x.0) λ y e_y.
              returned (record {
                owed_a = a;
                owed_b = b;
                middle = x.0;
                a_is = e_a;
                b_is = e_b;
                pays_a =
                    at_ok (pay_owed-Ensures t c pool.token_a provider a pos.total_rewards_a l) e_x;
                pays_b =
                    at_ok (pay_owed-Ensures t c pool.token_b provider b pos.total_rewards_b x.0)
                      e_y;
                settled = (refl, refl);
                kept = (refl, refl);
              })

  pub claim_yield_inner-Claimed :
      (pos' : LpPosition) (l' : L)
      → claim_yield_inner t c pool pos provider l ≡ ok (pos', l')
      → Claimed t c pool pos provider l pos' l'
  claim_yield_inner-Claimed pos' l' h = at_ok claim-Ensures h
