-- ===== src/Amm/Swap.antt =====
-- `swap` and `quote_swap` of contract/src/amm.rs.
mod Facts
pub mod Invariant
use stellar_escrow.Prelude.{ℕ, ◌-◌, Bool, true, false, ltb, ◌==◌, if◌then◌else◌}
use stellar_escrow.Errors.{overflow, invalid_amount, amm_pool_not_found, amm_slippage_exceeded}
use stellar_escrow.Soroban.{
  Result, ok, err, ◌>>=◌, ◌>>◌, fail_if, u64_mod, u128_mod, checked_add, checked_sub, checked_mul,
  checked_div, as_u64, as_u32, Ctx, require_auth, Token, transfer,
}
use stellar_escrow.Amm.Pool.{Pool, SwapResult, Amm, load_pool, save_pool}

-- `(reserve_in, reserve_out, is_a_in)`
unfoldable pub sides : Pool → ℕ → Result (ℕ × ℕ × Bool)
sides pool token_in =
    if token_in == pool.token_a
    then ok (pool.reserve_a, pool.reserve_b, true)
    else if token_in == pool.token_b
    then ok (pool.reserve_b, pool.reserve_a, false)
    else err amm_pool_not_found

-- `amount * bps / 10_000`, computed in u128 and cut to u64
unfoldable pub bps_of : ℕ → ℕ → Result ℕ
bps_of amount bps = do
  product ← checked_mul u128_mod amount bps
  share ← checked_div product 10000
  ok (as_u64 share)

-- `amount_out * 10_000 / reserve_out`, cut to u32
unfoldable pub price_impact : ℕ → ℕ → Result ℕ
price_impact amount_out reserve_out = do
  product ← checked_mul u128_mod amount_out 10000
  share ← checked_div product reserve_out
  ok (as_u32 share)

-- The writes of a swap to the pool, by the side on which the tokens come in.
unfoldable pub settle : Bool → ℕ → ℕ → ℕ → Pool → Result Pool
settle true amount_in amount_out fee pool = do
  reserve_a ← checked_add u64_mod pool.reserve_a amount_in
  reserve_b ← checked_sub pool.reserve_b amount_out
  fees_a ← checked_add u64_mod pool.fees_a fee
  volume_a ← checked_add u64_mod pool.volume_a amount_in
  ok (record pool {
    reserve_a = reserve_a;
    reserve_b = reserve_b;
    fees_a = fees_a;
    volume_a = volume_a;
  })
settle false amount_in amount_out fee pool = do
  reserve_b ← checked_add u64_mod pool.reserve_b amount_in
  reserve_a ← checked_sub pool.reserve_a amount_out
  fees_b ← checked_add u64_mod pool.fees_b fee
  volume_b ← checked_add u64_mod pool.volume_b amount_in
  ok (record pool {
    reserve_a = reserve_a;
    reserve_b = reserve_b;
    fees_b = fees_b;
    volume_b = volume_b;
  })

unfoldable pub swap :
    {L : Type 0} → Token L → Ctx → ℕ → ℕ → ℕ → ℕ → ℕ → Amm L → Result (Amm L × SwapResult)
swap t c pool_id caller token_in amount_in min_out s = do
  require_auth c caller
  fail_if (amount_in == 0) invalid_amount
  pool ← load_pool s pool_id
  (reserve_in, reserve_out, is_a_in) ← sides pool token_in
  fee ← bps_of amount_in pool.fee_bps
  after_fee ← checked_sub amount_in fee
  numerator ← checked_mul u128_mod reserve_out after_fee
  denominator ← checked_add u128_mod reserve_in after_fee
  quotient ← checked_div numerator denominator
  let amount_out = as_u64 quotient
  fail_if (ltb amount_out min_out) amm_slippage_exceeded
  impact ← price_impact amount_out reserve_out
  paid ← transfer t token_in caller c.contract amount_in s.ledger
  let token_out = if is_a_in then pool.token_b else pool.token_a
  sent ← transfer t token_out c.contract caller amount_out paid
  settled ← settle is_a_in amount_in amount_out fee pool
  ok (
    save_pool (record settled { last_swap_at = c.timestamp }) (record s { ledger = sent }),
    record { amount_out = amount_out; fee_charged = fee; price_impact_bps = impact },
  )

-- `(reserve_in, reserve_out)` of quote_swap
unfoldable pub quote_sides : Pool → ℕ → Result (ℕ × ℕ)
quote_sides pool token_in =
    if token_in == pool.token_a
    then ok (pool.reserve_a, pool.reserve_b)
    else if token_in == pool.token_b
    then ok (pool.reserve_b, pool.reserve_a)
    else err amm_pool_not_found

unfoldable pub quote_swap : {L : Type 0} → Amm L → ℕ → ℕ → ℕ → Result SwapResult
quote_swap s pool_id token_in amount_in = do
  fail_if (amount_in == 0) invalid_amount
  pool ← load_pool s pool_id
  (reserve_in, reserve_out) ← quote_sides pool token_in
  fee_product ← checked_mul u128_mod amount_in pool.fee_bps
  fee_share ← checked_div fee_product 10000
  let fee = as_u64 fee_share
  after_fee ← checked_sub amount_in fee
  out_product ← checked_mul u128_mod reserve_out after_fee
  out_divisor ← checked_add u128_mod reserve_in after_fee
  out_share ← checked_div out_product out_divisor
  let amount_out = as_u64 out_share
  impact_product ← checked_mul u128_mod amount_out 10000
  impact ← checked_div impact_product reserve_out
  ok (record { amount_out = amount_out; fee_charged = fee; price_impact_bps = as_u32 impact })
