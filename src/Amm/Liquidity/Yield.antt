-- ===== src/Amm/Liquidity/Yield.antt =====
-- What a provider is paid in fees, and what that does to the pool.
use stellar_escrow.Prelude.{zero, suc, ℕ, ◌+◌, ◌≡◌, ◌≢◌, refl, sym, some, arith}
use stellar_escrow.Soroban.{ok, Ctx, Token, TokenLaws, Ensures, step, returned, at_ok, require_auth}
use stellar_escrow.Amm.Pool.{Pool, LpPosition, Amm, load_lp, load_pool, save_lp, load_pool-ok}
use stellar_escrow.Amm.Liquidity.{pending_fees, claim_yield_inner, claim_yield}
use stellar_escrow.Amm.Liquidity.Removal.{Paid, claim_yield_inner-Claimed}

record Yielded {L : Type 0} (t : Token L) (c : Ctx) (pool_id provider : ℕ) (s s' : Amm L) (a b : ℕ)
    : Type 0 where
  pub pool : Pool
  pub pos' : LpPosition
  pub found : s.pools pool_id ≡ some pool
  pub a_is :
      let pos = load_lp c s pool_id provider in
      pending_fees pos.shares pool.fees_a pos.fee_debt_a pool.total_shares ≡ ok a
  pub b_is :
      let pos = load_lp c s pool_id provider in
      pending_fees pos.shares pool.fees_b pos.fee_debt_b pool.total_shares ≡ ok b
  pub claims :
      claim_yield_inner t c pool (load_lp c s pool_id provider) provider s.ledger
      ≡ ok (pos', s'.ledger)
  pub pools_kept : s'.pools ≡ s.pools
  pub saved : s'.positions ≡ (save_lp provider pos' s).positions

module _ {L : Type 0} (t : Token L) (c : Ctx) (pool_id provider : ℕ) (s : Amm L) where
  claim_yield-Ensures :
      Ensures (λ x. Yielded t c pool_id provider s x.0 x.1 x.2) (claim_yield t c pool_id provider s)
  unfolding claim_yield
  claim_yield-Ensures =
      let pos = load_lp c s pool_id provider in
      step (require_auth c provider) λ _ _. step (load_pool s pool_id) λ pool e_pool.
        step (pending_fees pos.shares pool.fees_a pos.fee_debt_a pool.total_shares) λ a e_a.
          step (pending_fees pos.shares pool.fees_b pos.fee_debt_b pool.total_shares) λ b e_b.
            step (claim_yield_inner t c pool pos provider s.ledger) λ x e_x. returned (record {
              pool = pool;
              pos' = x.0;
              found = load_pool-ok s pool_id e_pool;
              a_is = e_a;
              b_is = e_b;
              claims = e_x;
              pools_kept = refl;
              saved = refl;
            })

-- A side of a claim takes what is owed from the contract and gives it to the provider.
Paid-balances :
    {L : Type 0} (t : Token L) (laws : TokenLaws t) (c : Ctx)
    (token provider owed rewards total : ℕ) (l l' : L)
    → provider ≢ c.contract
    → Paid t c token provider owed rewards l l' total
    → (t.balance token c.contract l' + owed ≡ t.balance token c.contract l)
      × (t.balance token provider l' ≡ t.balance token provider l + owed)
Paid-balances t laws c token provider zero rewards total l l' other p = ground (arith, p.sends.1)
Paid-balances t laws c token provider (suc owed) rewards total l l' other p =
    let m = p.sends.0 (omega arith) in
    let other' : c.contract ≢ provider = λ e. other (sym e) in
    (
      laws.debit token c.contract provider (suc owed) l l' other' m,
      laws.credit token c.contract provider (suc owed) l l' other' m,
    )

Paid-others :
    {L : Type 0} (t : Token L) (laws : TokenLaws t) (c : Ctx)
    (token provider owed rewards total : ℕ) (l l' : L) (other holder : ℕ)
    → other ≢ token
    → Paid t c token provider owed rewards l l' total
    → t.balance other holder l' ≡ t.balance other holder l
Paid-others t laws c token provider zero rewards total l l' other holder ne p =
    ground (arith, p.sends.1)
Paid-others t laws c token provider (suc owed) rewards total l l' other holder ne p =
    laws.other_tokens token c.contract provider (suc owed) l l' other holder
      (p.sends.0 (omega arith)) ne

-- A claim of yield that returns pays what it reports out of the contract's balances, and leaves
-- every pool, its reserves included, as it was, where the pool's two tokens differ and the provider
-- is not the contract.
pub claim_yield_pays :
    {L : Type 0} (t : Token L) (laws : TokenLaws t) (c : Ctx) (pool_id provider a b : ℕ)
    (s s' : Amm L) (p : Pool)
    → s.pools pool_id ≡ some p
    → p.token_a ≢ p.token_b
    → provider ≢ c.contract
    → claim_yield t c pool_id provider s ≡ ok (s', a, b)
    → (s'.pools ≡ s.pools)
      × (t.balance p.token_a c.contract s'.ledger + a ≡ t.balance p.token_a c.contract s.ledger)
      × (t.balance p.token_b c.contract s'.ledger + b ≡ t.balance p.token_b c.contract s.ledger)
      × (t.balance p.token_a provider s'.ledger ≡ t.balance p.token_a provider s.ledger + a)
      × (t.balance p.token_b provider s'.ledger ≡ t.balance p.token_b provider s.ledger + b)
claim_yield_pays t laws c pool_id provider a b s s' p found diff other h =
    let y = at_ok (claim_yield-Ensures t c pool_id provider s) h in
    let e : y.pool ≡ p = ground (arith, y.found) in
    let f = claim_yield_inner-Claimed t c y.pool _ provider s.ledger y.pos' s'.ledger y.claims in
    let ea : f.owed_a ≡ a = ground (arith, f.a_is, y.a_is) in
    let eb : f.owed_b ≡ b = ground (arith, f.b_is, y.b_is) in
    let (da, ca) =
      Paid-balances t laws c y.pool.token_a provider f.owed_a _ _ s.ledger f.middle other
        f.pays_a in
    let (db, cb) =
      Paid-balances t laws c y.pool.token_b provider f.owed_b _ _ f.middle s'.ledger other
        f.pays_b in
    let ne : y.pool.token_b ≢ y.pool.token_a = ground arith in
    let ne' : y.pool.token_a ≢ y.pool.token_b = ground arith in
    let oa = λ (h : ℕ).
      Paid-others t laws c y.pool.token_b provider f.owed_b _ _ f.middle s'.ledger y.pool.token_a h
        ne' f.pays_b in
    let ob = λ (h : ℕ).
      Paid-others t laws c y.pool.token_a provider f.owed_a _ _ s.ledger f.middle y.pool.token_b h
        ne f.pays_a in
    let out_a : t.balance y.pool.token_a c.contract s'.ledger + a
        ≡ t.balance y.pool.token_a c.contract s.ledger =
      rw (oa c.contract, ← ea) da in
    let out_b : t.balance y.pool.token_b c.contract s'.ledger + b
        ≡ t.balance y.pool.token_b c.contract s.ledger =
      rw (← ob c.contract, ← eb) db in
    let in_a : t.balance y.pool.token_a provider s'.ledger
        ≡ t.balance y.pool.token_a provider s.ledger + a =
      rw (oa provider, ← ea) ca in
    let in_b : t.balance y.pool.token_b provider s'.ledger
        ≡ t.balance y.pool.token_b provider s.ledger + b =
      rw (← ob provider, ← eb) cb in
    rw (← e) (y.pools_kept, out_a, out_b, in_a, in_b)
