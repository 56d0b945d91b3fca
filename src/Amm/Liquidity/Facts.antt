-- ===== src/Amm/Liquidity/Facts.antt =====
-- What the liquidity operations have read, computed and written when they return.
use stellar_escrow.Prelude.{ℕ, ◌+◌, ◌*◌, ◌/◌, ◌%◌, ◌<◌, ◌≡◌, some, arith, ltb, ◌==◌, ◌||◌}
use stellar_escrow.Errors.{invalid_amount, amm_slippage_exceeded}
use stellar_escrow.Soroban.{
  ok, Ctx, Token, u64_mod, Ensures, step, returned, at_ok, fail_if, require_auth, checked_add,
  transfer, checked_add-ok, checked_mul, checked_div,
}
use stellar_escrow.Amm.Pool.{Pool, Amm, save_pool, load_pool, load_pool-ok, load_lp, save_lp}
use stellar_escrow.Amm.Liquidity.{scaled, actual_amounts, minted_shares, new_total, add_liquidity}

-- A scaled amount is the exact quotient, cut to a word.
pub scaled-ok : (x y z : ℕ) {r : ℕ} → scaled x y z ≡ ok r → (0 < z) × (r ≡ x * y / z % u64_mod)
unfolding scaled checked_mul checked_div
scaled-ok x y z h = ground arith

pub record Added {L : Type 0} (c : Ctx) (pool_id provider amount_a amount_b : ℕ) (s s' : Amm L)
    (shares : ℕ) : Type 0 where
  pub pool : Pool
  pub actual_a : ℕ
  pub actual_b : ℕ
  pub total : ℕ
  pub ledger : L
  pub found : s.pools pool_id ≡ some pool
  pub actual_is : actual_amounts pool amount_a amount_b ≡ ok (actual_a, actual_b)
  pub minted : minted_shares pool actual_a actual_b ≡ ok shares
  pub total_is : new_total pool shares ≡ ok total
  pub written :
      let pool' : Pool = record pool {
        reserve_a = pool.reserve_a + actual_a;
        reserve_b = pool.reserve_b + actual_b;
        total_shares = total;
      } in
      let pos = load_lp c s pool_id provider in
      s'
      ≡ save_lp provider
          (record pos {
            shares = pos.shares + shares;
            fee_debt_a = pool.fees_a;
            fee_debt_b = pool.fees_b;
          })
          (save_pool pool' (record s { ledger = ledger }))

module _ {L : Type 0} (t : Token L) (c : Ctx) (pool_id provider amount_a amount_b min_shares : ℕ)
    (s : Amm L) where
  add_liquidity-Ensures :
      Ensures
        (λ x. Added c pool_id provider amount_a amount_b s x.0 x.1)
        (add_liquidity t c pool_id provider amount_a amount_b min_shares s)
  unfolding add_liquidity
  add_liquidity-Ensures = step (require_auth c provider) λ _ _.
      step (fail_if (amount_a == 0 || amount_b == 0) invalid_amount) λ _ _.
        step (load_pool s pool_id) λ pool e_pool.
          step (actual_amounts pool amount_a amount_b) λ actual e_actual.
            step (minted_shares pool actual.0 actual.1) λ shares e_shares.
              step (fail_if (ltb shares min_shares) amm_slippage_exceeded) λ _ _.
                step (transfer t pool.token_a provider c.contract actual.0 s.ledger) λ paid_a _.
                  step (transfer t pool.token_b provider c.contract actual.1 paid_a) λ paid_b _.
                    step (checked_add u64_mod pool.reserve_a actual.0) λ reserve_a e_a.
                      step (checked_add u64_mod pool.reserve_b actual.1) λ reserve_b e_b.
                        step (new_total pool shares) λ total e_total.
                          step (checked_add u64_mod (load_lp c s pool_id provider).shares shares)
                            λ owned e_owned. returned (record {
                              pool = pool;
                              actual_a = actual.0;
                              actual_b = actual.1;
                              total = total;
                              ledger = paid_b;
                              found = load_pool-ok s pool_id e_pool;
                              actual_is = e_actual;
                              minted = e_shares;
                              total_is = e_total;
                              written = rw (
                                (checked_add-ok _ _ _ e_a).1,
                                (checked_add-ok _ _ _ e_b).1,
                                (checked_add-ok _ _ _ e_owned).1,
                              );
                            })

  pub add_liquidity-Added :
      (s' : Amm L) (shares : ℕ)
      → add_liquidity t c pool_id provider amount_a amount_b min_shares s ≡ ok (s', shares)
      → Added c pool_id provider amount_a amount_b s s' shares
  add_liquidity-Added s' shares h = at_ok add_liquidity-Ensures h
