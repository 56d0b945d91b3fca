-- ===== src/Tests/Pools.antt =====
-- A pool that is traded on, filled and emptied.
use stellar_escrow.Prelude.{ℕ, ◌+◌, ◌≤◌, ◌<◌, ◌≡◌, refl, none, some, ◌==◌, if◌then◌else◌, arith}
use stellar_escrow.Soroban.{
  Result, ok, err, trap, fail_if, ok_or, or_trap, trap_unless, require_auth, transfer, within,
  checked_add, checked_sub, checked_mul, checked_div,
}
use stellar_escrow.Amm.Pool.{Pool, LpPosition, SwapResult, Amm, load_pool}
use stellar_escrow.Amm.Sqrt.{integer_sqrt, IsRoot, integer_sqrt-IsRoot}
use stellar_escrow.Amm.Swap.{swap, quote_swap, sides, bps_of, price_impact, settle}
use stellar_escrow.Amm.Swap.Invariant.{GrewFrom, swap-quote, swap-GrewFrom, swap_bounds}
use stellar_escrow.Amm.Liquidity.{
  scaled, actual_amounts, later_shares, minted_shares, new_total, add_liquidity, pending_fees,
  pay_owed, claim_yield_inner, claim_yield, remove_liquidity,
}
use stellar_escrow.Amm.Liquidity.Shares.{
  FairFrom, add_liquidity-FairFrom, remove_liquidity-FairFrom,
}
use stellar_escrow.Amm.Liquidity.RoundTrip.{remove-add_liquidity_le}
use stellar_escrow.Amm.Liquidity.Yield.{claim_yield_pays}
use stellar_escrow.Tests.Ledger.{Ledger, token, token_laws, ctx, move}

abbrev pool : Pool
pool = record {
  id = 1;
  token_a = 7;
  token_b = 8;
  reserve_a = 10000;
  reserve_b = 20000;
  total_shares = 5000;
  fee_bps = 30;
  fees_a = 500;
  fees_b = 0;
  volume_a = 0;
  volume_b = 0;
  created_at = 0;
  last_swap_at = 0;
}

abbrev position : LpPosition
position = record {
  pool_id = 1;
  shares = 2000;
  fee_debt_a = 0;
  fee_debt_b = 0;
  created_at = 0;
  total_rewards_a = 0;
  total_rewards_b = 0;
}

abbrev start : Amm Ledger
start = record {
  counter = some 1;
  pools = λ id. if id == 1 then some pool else none;
  positions = λ id user. if user == 3 then some position else none;
  ledger = λ k h. 50000;
}

abbrev state_of : {B : Type 0} → Result (Amm Ledger × B) → Amm Ledger
state_of (ok (s, _)) = s
state_of (err e) = start
state_of trap = start

abbrev state_of_two : Result (Amm Ledger × ℕ × ℕ) → Amm Ledger
state_of_two (ok (s, _, _)) = s
state_of_two (err e) = start
state_of_two trap = start

abbrev swapped : Amm Ledger
swapped = state_of (swap token ctx 1 3 7 1000 1 start)

swapping_runs :
    swap token ctx 1 3 7 1000 1 start
    ≡ ok (swapped, record { amount_out = 1813; fee_charged = 3; price_impact_bps = 906 })
unfolding swap sides bps_of price_impact settle load_pool fail_if ok_or require_auth trap_unless
    transfer or_trap move within checked_add checked_sub checked_mul checked_div
swapping_runs = refl

abbrev result : SwapResult
result = record { amount_out = 1813; fee_charged = 3; price_impact_bps = 906 }

swap-GrewFrom_example : GrewFrom pool (swapped.pools 1)
swap-GrewFrom_example =
    swap-GrewFrom token ctx 1 3 7 1000 1 start swapped result pool refl refl swapping_runs

swap-quote_example :
    (quote_swap start 1 7 1000 ≡ ok result)
    × ((token.balance 7 3 swapped.ledger + 1000 ≡ token.balance 7 3 start.ledger)
        × (token.balance 7 9 swapped.ledger ≡ token.balance 7 9 start.ledger + 1000)
        × (token.balance 8 9 swapped.ledger + 1813 ≡ token.balance 8 9 start.ledger)
        × (token.balance 8 3 swapped.ledger ≡ token.balance 8 3 start.ledger + 1813))
swap-quote_example =
    swap-quote token token_laws ctx 1 3 7 1000 1 start swapped result pool refl (λ e. ground arith)
      (λ e. ground arith) swapping_runs

swap_bounds_example : (1 ≤ 1813) × (1813 < 20000) × (3 ≤ 1000)
swap_bounds_example =
    swap_bounds token ctx 1 3 7 1000 1 start swapped result pool refl (ground arith) (ground arith)
      swapping_runs

abbrev filled : Amm Ledger
filled = state_of (add_liquidity token ctx 1 3 1000 3000 1 start)

filling_runs : add_liquidity token ctx 1 3 1000 3000 1 start ≡ ok (filled, 500)
unfolding add_liquidity actual_amounts scaled minted_shares later_shares new_total load_pool fail_if
    ok_or require_auth trap_unless transfer or_trap move within checked_add checked_mul checked_div
filling_runs = refl

add_liquidity-FairFrom_example : FairFrom pool (filled.pools 1)
add_liquidity-FairFrom_example =
    add_liquidity-FairFrom token ctx 1 3 1000 3000 1 start filled 500 pool refl refl (ground arith)
      filling_runs

abbrev emptied : Amm Ledger
emptied = state_of_two (remove_liquidity token ctx 1 3 500 1 1 filled)

emptying_runs : remove_liquidity token ctx 1 3 500 1 1 filled ≡ ok (emptied, 1000, 2000)
unfolding add_liquidity remove_liquidity actual_amounts scaled minted_shares later_shares new_total
    pending_fees pay_owed claim_yield_inner load_pool fail_if ok_or require_auth trap_unless
    transfer or_trap move within checked_add checked_sub checked_mul checked_div
emptying_runs = refl

abbrev filled_pool : Pool
filled_pool = record pool { reserve_a = 11000; reserve_b = 22000; total_shares = 5500 }

found_filled : filled.pools 1 ≡ some filled_pool
unfolding add_liquidity actual_amounts scaled minted_shares later_shares new_total load_pool fail_if
    ok_or require_auth trap_unless transfer or_trap move within checked_add checked_mul checked_div
found_filled = refl

remove_liquidity-FairFrom_example : FairFrom filled_pool (emptied.pools 1)
remove_liquidity-FairFrom_example =
    remove_liquidity-FairFrom token ctx 1 3 500 1 1 filled emptied 1000 2000 filled_pool
      found_filled refl emptying_runs

remove-add_liquidity_le_example : (1000 ≤ 1000) × (2000 ≤ 3000)
remove-add_liquidity_le_example =
    remove-add_liquidity_le token ctx ctx 1 3 1000 3000 1 1 1 start filled emptied 500 1000 2000
      pool refl refl (ground arith) filling_runs emptying_runs

abbrev claimed : Amm Ledger
claimed = state_of_two (claim_yield token ctx 1 3 start)

claiming_runs : claim_yield token ctx 1 3 start ≡ ok (claimed, 200, 0)
unfolding claim_yield claim_yield_inner pending_fees scaled pay_owed load_pool fail_if ok_or
    require_auth trap_unless transfer or_trap move within checked_add checked_mul checked_div
claiming_runs = refl

claim_yield_pays_example :
    (claimed.pools ≡ start.pools)
    × (claimed.ledger 7 9 + 200 ≡ 50000)
    × (claimed.ledger 8 9 + 0 ≡ 50000)
    × (claimed.ledger 7 3 ≡ 50000 + 200)
    × (claimed.ledger 8 3 ≡ 50000 + 0)
claim_yield_pays_example =
    claim_yield_pays token token_laws ctx 1 3 200 0 start claimed pool refl (λ e. ground arith)
      (λ e. ground arith) claiming_runs

integer_sqrt-IsRoot_example : IsRoot 1000003 (integer_sqrt 1000003)
integer_sqrt-IsRoot_example = integer_sqrt-IsRoot 1000003 (ground arith)
