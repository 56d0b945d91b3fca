-- ===== src/Amm/Pool.antt =====
-- The records of contract/src/amm.rs, its storage helpers, pool creation and the price queries.
-- A swap's settlement and the liquidity operations stand in the sibling modules.
use stellar_escrow.Prelude.{ℕ, ◌≡◌, Bool, Option, some, ltb, ◌==◌, if◌then◌else◌, update, get_or}
use stellar_escrow.Errors.{invalid_fee_bps, amm_pool_not_found, amm_invalid_pair}
use stellar_escrow.Soroban.{
  Result, ok, ◌>>=◌, ◌>>◌, fail_if, ok_or, ok_or-ok, u64_mod, u128_mod, checked_add, checked_mul,
  checked_div, as_u64, Ctx,
}

abbrev pub default_swap_fee_bps : ℕ
default_swap_fee_bps = 30

abbrev pub minimum_liquidity : ℕ
minimum_liquidity = 1000

pub record Pool : Type 0 where
  pub id : ℕ
  pub token_a : ℕ
  pub token_b : ℕ
  pub reserve_a : ℕ
  pub reserve_b : ℕ
  pub total_shares : ℕ
  pub fee_bps : ℕ
  pub fees_a : ℕ
  pub fees_b : ℕ
  pub volume_a : ℕ
  pub volume_b : ℕ
  pub created_at : ℕ
  pub last_swap_at : ℕ

pub record LpPosition : Type 0 where
  pub pool_id : ℕ
  pub shares : ℕ
  pub fee_debt_a : ℕ
  pub fee_debt_b : ℕ
  pub created_at : ℕ
  pub total_rewards_a : ℕ
  pub total_rewards_b : ℕ

pub record SwapResult : Type 0 where
  pub amount_out : ℕ
  pub fee_charged : ℕ
  pub price_impact_bps : ℕ

-- The storage of the module, with the ledgers of the token contracts.
pub record Amm (L : Type 0) : Type 0 where
  pub counter : Option ℕ
  pub pools : ℕ → Option Pool
  pub positions : ℕ → ℕ → Option LpPosition
  pub ledger : L

module _ {L : Type 0} where
  abbrev pub get_pool_counter : Amm L → ℕ
  get_pool_counter s = get_or s.counter 0

  unfoldable pub load_pool : Amm L → ℕ → Result Pool
  unfolding ok_or
  load_pool s id = ok_or (s.pools id) amm_pool_not_found

  pub load_pool-ok : (s : Amm L) (id : ℕ) {p : Pool} → load_pool s id ≡ ok p → s.pools id ≡ some p
  unfolding load_pool
  load_pool-ok s id h = ok_or-ok (s.pools id) _ h

  abbrev pub save_pool : Pool → Amm L → Amm L
  save_pool p s = record s { pools = update s.pools p.id (some p) }

  abbrev pub load_lp : Ctx → Amm L → ℕ → ℕ → LpPosition
  load_lp c s pool_id provider = get_or (s.positions pool_id provider) (record {
    pool_id = pool_id;
    shares = 0;
    fee_debt_a = 0;
    fee_debt_b = 0;
    created_at = c.timestamp;
    total_rewards_a = 0;
    total_rewards_b = 0;
  })

  abbrev pub save_lp : ℕ → LpPosition → Amm L → Amm L
  save_lp provider pos s = record s {
    positions =
        update s.positions pos.pool_id (update (s.positions pos.pool_id) provider (some pos));
  }

-- The order of two addresses is the host's: any Boolean test of the model's numbers stands for it.
unfoldable pub canonical_pair : (ℕ → ℕ → Bool) → ℕ → ℕ → ℕ × ℕ
canonical_pair before a b = if before a b then (a, b) else (b, a)

unfoldable pub create_pool :
    {L : Type 0} → (ℕ → ℕ → Bool) → Ctx → ℕ → ℕ → ℕ → Amm L → Result (Amm L × ℕ)
unfolding canonical_pair
create_pool before c token_a token_b fee_bps s = do
  fail_if (ltb 1000 fee_bps) invalid_fee_bps
  fail_if (token_a == token_b) amm_invalid_pair
  let (ta, tb) = canonical_pair before token_a token_b
  id ← checked_add u64_mod (get_pool_counter s) 1
  let pool : Pool = record {
    id = id;
    token_a = ta;
    token_b = tb;
    reserve_a = 0;
    reserve_b = 0;
    total_shares = 0;
    fee_bps = fee_bps;
    fees_a = 0;
    fees_b = 0;
    volume_a = 0;
    volume_b = 0;
    created_at = c.timestamp;
    last_swap_at = 0;
  }
  ok (save_pool pool (record s { counter = some id }), id)

unfoldable pub spot_price : {L : Type 0} → Amm L → ℕ → Result ℕ
spot_price s pool_id = do
  pool ← load_pool s pool_id
  fail_if (pool.reserve_a == 0) amm_pool_not_found
  scaled ← checked_mul u128_mod pool.reserve_b 10000000
  price ← checked_div scaled pool.reserve_a
  ok (as_u64 price)

unfoldable pub get_pool : {L : Type 0} → Amm L → ℕ → Result Pool
get_pool s pool_id = load_pool s pool_id

unfoldable pub get_lp_position : {L : Type 0} → Ctx → Amm L → ℕ → ℕ → LpPosition
get_lp_position c s pool_id provider = load_lp c s pool_id provider
