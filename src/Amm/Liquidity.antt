-- ===== src/Amm/Liquidity.antt =====
-- `add_liquidity`, `remove_liquidity` and `claim_yield` of contract/src/amm.rs.
mod Facts
mod Removal
pub mod Shares
pub mod RoundTrip
pub mod Yield
use stellar_escrow.Prelude.{
  ℕ, ◌+◌, ◌-◌, min, Bool, true, false, ltb, leb, ◌==◌, ◌||◌, if◌then◌else◌,
}
use stellar_escrow.Errors.{invalid_amount, amm_slippage_exceeded, amm_insufficient_shares}
use stellar_escrow.Soroban.{
  Result, ok, err, ◌>>=◌, ◌>>◌, fail_if, u64_mod, u128_mod, checked_add, checked_sub, checked_mul,
  checked_div, as_u64, Ctx, require_auth, Token, transfer,
}
use stellar_escrow.Amm.Pool.{
  Pool, LpPosition, Amm, minimum_liquidity, load_pool, save_pool, load_lp, save_lp,
}
use stellar_escrow.Amm.Sqrt.{integer_sqrt}

-- `(x as u128).checked_mul(y)?.checked_div(z)? as u64`
unfoldable pub scaled : ℕ → ℕ → ℕ → Result ℕ
scaled x y z = do
  product ← checked_mul u128_mod x y
  quotient ← checked_div product z
  ok (as_u64 quotient)

-- `(actual_a, actual_b)`: the deposit cut to the ratio of the reserves
unfoldable pub actual_amounts : Pool → ℕ → ℕ → Result (ℕ × ℕ)
actual_amounts pool amount_a amount_b =
    if pool.total_shares == 0 then ok (amount_a, amount_b) else do
      optimal_b ← scaled amount_a pool.reserve_b pool.reserve_a
      if leb optimal_b amount_b then ok (amount_a, optimal_b) else do
        optimal_a ← scaled amount_b pool.reserve_a pool.reserve_b
        ok (optimal_a, amount_b)

unfoldable pub first_shares : ℕ → ℕ → Result ℕ
first_shares actual_a actual_b = do
  product ← checked_mul u128_mod actual_a actual_b
  root ← integer_sqrt product
  fail_if (ltb root minimum_liquidity) invalid_amount
  ok (as_u64 (root - minimum_liquidity))

unfoldable pub later_shares : Pool → ℕ → ℕ → Result ℕ
later_shares pool actual_a actual_b = do
  shares_a ← scaled actual_a pool.total_shares pool.reserve_a
  shares_b ← scaled actual_b pool.total_shares pool.reserve_b
  ok (min shares_a shares_b)

unfoldable pub minted_shares : Pool → ℕ → ℕ → Result ℕ
unfolding first_shares later_shares
minted_shares pool actual_a actual_b =
    if pool.total_shares == 0
    then first_shares actual_a actual_b
    else later_shares pool actual_a actual_b

-- On the first deposit `minimum_liquidity` shares are locked beside the minted ones.
unfoldable pub new_total : Pool → ℕ → Result ℕ
new_total pool shares =
    if pool.total_shares == 0
    then checked_add u64_mod shares minimum_liquidity
    else checked_add u64_mod pool.total_shares shares

unfoldable pub add_liquidity :
    {L : Type 0} → Token L → Ctx → ℕ → ℕ → ℕ → ℕ → ℕ → Amm L → Result (Amm L × ℕ)
add_liquidity t c pool_id provider amount_a amount_b min_shares s = do
  require_auth c provider
  fail_if (amount_a == 0 || amount_b == 0) invalid_amount
  pool ← load_pool s pool_id
  (actual_a, actual_b) ← actual_amounts pool amount_a amount_b
  shares ← minted_shares pool actual_a actual_b
  fail_if (ltb shares min_shares) amm_slippage_exceeded
  paid_a ← transfer t pool.token_a provider c.contract actual_a s.ledger
  paid_b ← transfer t pool.token_b provider c.contract actual_b paid_a
  reserve_a ← checked_add u64_mod pool.reserve_a actual_a
  reserve_b ← checked_add u64_mod pool.reserve_b actual_b
  total ← new_total pool shares
  let pool' : Pool = record pool {
    reserve_a = reserve_a;
    reserve_b = reserve_b;
    total_shares = total;
  }
  let saved : Amm _ = save_pool pool' (record s { ledger = paid_b })
  let pos = load_lp c saved pool_id provider
  owned ← checked_add u64_mod pos.shares shares
  let pos' : LpPosition = record pos {
    shares = owned;
    fee_debt_a = pool'.fees_a;
    fee_debt_b = pool'.fees_b;
  }
  ok (save_lp provider pos' saved, shares)

unfoldable pub pending_fees : ℕ → ℕ → ℕ → ℕ → Result ℕ
unfolding scaled
pending_fees shares total_fees fee_debt total_shares =
    if total_shares == 0 || shares == 0
    then ok 0
    else scaled shares (total_fees - fee_debt) total_shares

-- One half of `claim_yield_inner`: nothing is sent where nothing is owed.
unfoldable pub pay_owed : {L : Type 0} → Token L → Ctx → ℕ → ℕ → ℕ → ℕ → L → Result (L × ℕ)
pay_owed t c token provider owed rewards l =
    if ltb 0 owed
    then (do
      sent ← transfer t token c.contract provider owed l
      total ← checked_add u64_mod rewards owed
      ok (sent, total))
    else ok (l, rewards)

unfoldable pub claim_yield_inner :
    {L : Type 0} → Token L → Ctx → Pool → LpPosition → ℕ → L → Result (LpPosition × L)
claim_yield_inner t c pool pos provider l = do
  owed_a ← pending_fees pos.shares pool.fees_a pos.fee_debt_a pool.total_shares
  owed_b ← pending_fees pos.shares pool.fees_b pos.fee_debt_b pool.total_shares
  (sent_a, rewards_a) ← pay_owed t c pool.token_a provider owed_a pos.total_rewards_a l
  (sent_b, rewards_b) ← pay_owed t c pool.token_b provider owed_b pos.total_rewards_b sent_a
  ok (
    record pos {
      total_rewards_a = rewards_a;
      total_rewards_b = rewards_b;
      fee_debt_a = pool.fees_a;
      fee_debt_b = pool.fees_b;
    },
    sent_b,
  )

unfoldable pub claim_yield : {L : Type 0} → Token L → Ctx → ℕ → ℕ → Amm L → Result (Amm L × ℕ × ℕ)
claim_yield t c pool_id provider s = do
  require_auth c provider
  pool ← load_pool s pool_id
  let pos = load_lp c s pool_id provider
  owed_a ← pending_fees pos.shares pool.fees_a pos.fee_debt_a pool.total_shares
  owed_b ← pending_fees pos.shares pool.fees_b pos.fee_debt_b pool.total_shares
  (pos', sent) ← claim_yield_inner t c pool pos provider s.ledger
  ok (save_lp provider pos' (record s { ledger = sent }), owed_a, owed_b)

unfoldable pub remove_liquidity :
    {L : Type 0} → Token L → Ctx → ℕ → ℕ → ℕ → ℕ → ℕ → Amm L → Result (Amm L × ℕ × ℕ)
remove_liquidity t c pool_id provider shares min_a min_b s = do
  require_auth c provider
  fail_if (shares == 0) invalid_amount
  pool ← load_pool s pool_id
  let pos = load_lp c s pool_id provider
  fail_if (ltb pos.shares shares) amm_insufficient_shares
  amount_a ← scaled shares pool.reserve_a pool.total_shares
  amount_b ← scaled shares pool.reserve_b pool.total_shares
  fail_if (ltb amount_a min_a || ltb amount_b min_b) amm_slippage_exceeded
  (claimed, paid) ← claim_yield_inner t c pool pos provider s.ledger
  reserve_a ← checked_sub pool.reserve_a amount_a
  reserve_b ← checked_sub pool.reserve_b amount_b
  total ← checked_sub pool.total_shares shares
  let pool' : Pool = record pool {
    reserve_a = reserve_a;
    reserve_b = reserve_b;
    total_shares = total;
  }
  left ← checked_sub claimed.shares shares
  sent_a ← transfer t pool.token_a c.contract provider amount_a paid
  sent_b ← transfer t pool.token_b c.contract provider amount_b sent_a
  ok (
    save_lp provider (record claimed { shares = left })
        (save_pool pool' (record s { ledger = sent_b })),
    amount_a,
    amount_b,
  )
