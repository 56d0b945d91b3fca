-- ===== src/Amm/Liquidity/Shares.antt =====
-- Fairness of the liquidity operations: the reserves behind one share never fall, so no provider
-- gains at the expense of the others by adding or removing.
use native.Mathlib.Nat.{div-mul-le_self, mul-le-mul_right, le_trans}
use stellar_escrow.Prelude.{
  ℕ, ◌+◌, ◌-◌, ◌*◌, ◌/◌, ◌≤◌, ◌<◌, ◌≡◌, ap, Option, none, some, arith, min,
}
use stellar_escrow.Soroban.{ok, Ensures, step, returned, at_ok, Ctx, Token, checked_add}
use stellar_escrow.Amm.Pool.{Pool, Amm}
use stellar_escrow.Amm.Liquidity.{
  scaled, minted_shares, later_shares, new_total, add_liquidity, remove_liquidity,
}
use stellar_escrow.Amm.Liquidity.Facts.{scaled-ok, add_liquidity-Added}
use stellar_escrow.Amm.Liquidity.Removal.{remove_liquidity-Removed}

-- A scaled amount times its divisor is at most the product.
pub scaled_le : (x y z : ℕ) {r : ℕ} → scaled x y z ≡ ok r → r * z ≤ x * y
scaled_le x y z {r} h =
    let (_, e) = scaled-ok x y z h in
    let small : r ≤ x * y / z = rw e (omega arith) in
    le_trans (mul-le-mul_right z small) (div-mul-le_self (x * y) z)

-- The reserves per share of the pool have not fallen.
abbrev pub FairFrom : Pool → Option Pool → Type 0
FairFrom p none = ⊥
FairFrom p (some q) =
    (p.reserve_a * q.total_shares ≤ q.reserve_a * p.total_shares)
    × (p.reserve_b * q.total_shares ≤ q.reserve_b * p.total_shares)

min_le : (a b : ℕ) → (min a b ≤ a) × (min a b ≤ b)
min_le a b = (omega arith, omega arith)

later-Ensures :
    (p : Pool) (a b : ℕ)
    → Ensures
        (λ shares.
          (shares * p.reserve_a ≤ a * p.total_shares) × (shares * p.reserve_b ≤ b * p.total_shares))
        (later_shares p a b)
unfolding later_shares
later-Ensures p a b = step (scaled a p.total_shares p.reserve_a) λ x e_x.
    step (scaled b p.total_shares p.reserve_b) λ y e_y. returned (
      le_trans (mul-le-mul_right p.reserve_a (min_le x y).0) (scaled_le _ _ _ e_x),
      le_trans (mul-le-mul_right p.reserve_b (min_le x y).1) (scaled_le _ _ _ e_y),
    )

pub later_le :
    (p : Pool) (a b : ℕ) {shares : ℕ}
    → 0 < p.total_shares
    → minted_shares p a b ≡ ok shares
    → (shares * p.reserve_a ≤ a * p.total_shares) × (shares * p.reserve_b ≤ b * p.total_shares)
unfolding minted_shares
later_le p a b {shares} pos h =
    let e : later_shares p a b ≡ ok shares = ground (arith, h) in at_ok (later-Ensures p a b) e

pub later_total :
    (p : Pool) (shares : ℕ) {total : ℕ}
    → 0 < p.total_shares
    → new_total p shares ≡ ok total
    → total ≡ p.total_shares + shares
unfolding new_total checked_add
later_total p shares pos h = ground arith

fair_sub :
    (r total a shares : ℕ)
    → a ≤ r
    → shares ≤ total
    → a * total ≤ shares * r
    → r * (total - shares) ≤ (r - a) * total
fair_sub r total a shares ha hs h =
    let e : a + (r - a) ≡ r = omega arith in
    let d : shares + (total - shares) ≡ total = omega arith in
    let x : (shares + (total - shares)) * r ≡ total * r = ap (λ (k : ℕ). k * r) d in
    let y : (a + (r - a)) * total ≡ r * total = ap (λ (k : ℕ). k * total) e in omega arith

-- A deposit into a pool that has shares leaves the reserves behind each share no smaller.
pub add_liquidity-FairFrom :
    {L : Type 0} (t : Token L) (c : Ctx) (pool_id provider amount_a amount_b min_shares : ℕ)
    (s s' : Amm L) (shares : ℕ) (p : Pool)
    → s.pools pool_id ≡ some p
    → p.id ≡ pool_id
    → 0 < p.total_shares
    → add_liquidity t c pool_id provider amount_a amount_b min_shares s ≡ ok (s', shares)
    → FairFrom p (s'.pools pool_id)
add_liquidity-FairFrom t c pool_id provider amount_a amount_b min_shares s s' shares p found named
      pos h =
    let f = add_liquidity-Added t c pool_id provider amount_a amount_b min_shares s s' shares h in
    let e : f.pool ≡ p = ground (arith, f.found) in
    let (le_a, le_b) = later_le f.pool f.actual_a f.actual_b (ground arith) f.minted in
    let e_total = later_total f.pool shares (ground arith) f.total_is in
    let kept : s'.pools pool_id
        ≡ some (record f.pool {
          reserve_a = f.pool.reserve_a + f.actual_a;
          reserve_b = f.pool.reserve_b + f.actual_b;
          total_shares = f.total;
        }) =
      ground (arith, ap (λ (m : Amm _). m.pools pool_id) f.written) in
    rw kept (rw (← e, e_total) (omega arith, omega arith))

-- A withdrawal leaves the reserves behind each remaining share no smaller.
pub remove_liquidity-FairFrom :
    {L : Type 0} (t : Token L) (c : Ctx) (pool_id provider shares min_a min_b : ℕ) (s s' : Amm L)
    (a b : ℕ) (p : Pool)
    → s.pools pool_id ≡ some p
    → p.id ≡ pool_id
    → remove_liquidity t c pool_id provider shares min_a min_b s ≡ ok (s', a, b)
    → FairFrom p (s'.pools pool_id)
remove_liquidity-FairFrom t c pool_id provider shares min_a min_b s s' a b p found named h =
    let f = remove_liquidity-Removed t c pool_id provider shares min_a min_b s s' a b h in
    let e : f.pool ≡ p = ground (arith, f.found) in
    let le_a = scaled_le shares f.pool.reserve_a f.pool.total_shares f.a_is in
    let le_b = scaled_le shares f.pool.reserve_b f.pool.total_shares f.b_is in
    let kept : s'.pools pool_id
        ≡ some (record f.pool {
          reserve_a = f.pool.reserve_a - a;
          reserve_b = f.pool.reserve_b - b;
          total_shares = f.pool.total_shares - shares;
        }) =
      ground (arith, ap (λ (m : Amm _). m.pools pool_id) f.written) in
    rw kept (
      rw (← e) (
        fair_sub f.pool.reserve_a f.pool.total_shares a shares f.a_le f.shares_le le_a,
        fair_sub f.pool.reserve_b f.pool.total_shares b shares f.b_le f.shares_le le_b,
      ))
