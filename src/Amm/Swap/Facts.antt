-- ===== src/Amm/Swap/Facts.antt =====
-- What a successful `swap` has read, computed and written.
use stellar_escrow.Prelude.{
  ℕ, ltb, ◌==◌, ◌+◌, ◌-◌, ◌*◌, ◌/◌, ◌≤◌, ◌≡◌, refl, Bool, some, if◌then◌else◌, arith,
}
use stellar_escrow.Errors.{invalid_amount, amm_slippage_exceeded}
use stellar_escrow.Soroban.{
  ok, Ctx, Token, as_u64, u128_mod, Ensures, step, returned, at_ok, fail_if-ok, require_auth,
  fail_if, checked_sub, checked_mul, checked_add, checked_div, transfer, checked_add-ok,
  checked_sub-ok, checked_mul-ok, checked_div-ok, transfer-ok,
}
use stellar_escrow.Amm.Pool.{Pool, SwapResult, Amm, save_pool, load_pool, load_pool-ok}
use stellar_escrow.Amm.Swap.{swap, sides, bps_of, price_impact, settle}

-- The pool as it was found and as it was settled, the reserves by direction, and the ledger between
-- the two transfers.
pub record Swapped {L : Type 0} (t : Token L) (c : Ctx) (pool_id caller token_in n min_out : ℕ)
    (s s' : Amm L) (r : SwapResult) : Type 0 where
  pub pool : Pool
  pub settled : Pool
  pub rin : ℕ
  pub rout : ℕ
  pub a_in : Bool
  pub paid : L
  pub found : s.pools pool_id ≡ some pool
  pub side : sides pool token_in ≡ ok (rin, rout, a_in)
  pub fee_is : bps_of n pool.fee_bps ≡ ok r.fee_charged
  pub fee_le : r.fee_charged ≤ n
  pub out_is : r.amount_out ≡ as_u64 (rout * (n - r.fee_charged) / (rin + (n - r.fee_charged)))
  pub min_le : min_out ≤ r.amount_out
  pub settle_is : settle a_in n r.amount_out r.fee_charged pool ≡ ok settled
  pub pays : t.move token_in caller c.contract n s.ledger ≡ some paid
  pub sends :
      t.move (if a_in then pool.token_b else pool.token_a) c.contract caller r.amount_out paid
      ≡ some s'.ledger
  pub kept : s'.pools ≡ (save_pool (record settled { last_swap_at = c.timestamp }) s).pools

module _ {L : Type 0} (t : Token L) (c : Ctx) (pool_id caller token_in n min_out : ℕ)
    (s : Amm L) where
  swap-Ensures :
      Ensures
        (λ x. Swapped t c pool_id caller token_in n min_out s x.0 x.1)
        (swap t c pool_id caller token_in n min_out s)
  unfolding swap
  swap-Ensures = step (require_auth c caller) λ _ _. step (fail_if (n == 0) invalid_amount) λ _ _.
      step (load_pool s pool_id) λ pool e_pool. step (sides pool token_in) λ side e_side.
        step (bps_of n pool.fee_bps) λ fee e_fee. step (checked_sub n fee) λ after e_after.
          step (checked_mul u128_mod side.1 after) λ num e_num.
            step (checked_add u128_mod side.0 after) λ den e_den.
              step (checked_div num den) λ quot e_quot.
                step (fail_if (ltb (as_u64 quot) min_out) amm_slippage_exceeded) λ _ e_min.
                  step (price_impact (as_u64 quot) side.1) λ impact e_impact.
                    step (transfer t token_in caller c.contract n s.ledger) λ paid e_paid.
                      step
                        (transfer t (if side.2 then pool.token_b else pool.token_a) c.contract
                          caller (as_u64 quot) paid)
                        λ sent e_sent.
                          step (settle side.2 n (as_u64 quot) fee pool) λ settled e_settled.
                            returned (record {
                              pool = pool;
                              settled = settled;
                              rin = side.0;
                              rout = side.1;
                              a_in = side.2;
                              paid = paid;
                              found = load_pool-ok s pool_id e_pool;
                              side = e_side;
                              fee_is = e_fee;
                              fee_le = (checked_sub-ok _ _ e_after).0;
                              out_is = ground (
                                arith,
                                checked_sub-ok _ _ e_after,
                                checked_mul-ok _ _ _ e_num,
                                checked_add-ok _ _ _ e_den,
                                checked_div-ok _ _ e_quot,
                              );
                              min_le = ground (arith, fail_if-ok _ _ e_min);
                              settle_is = e_settled;
                              pays = transfer-ok _ _ _ _ _ _ e_paid;
                              sends = transfer-ok _ _ _ _ _ _ e_sent;
                              kept = refl;
                            })

  pub swap-Swapped :
      (s' : Amm L) (r : SwapResult)
      → swap t c pool_id caller token_in n min_out s ≡ ok (s', r)
      → Swapped t c pool_id caller token_in n min_out s s' r
  swap-Swapped s' r h = at_ok swap-Ensures h
