-- ===== src/Amm/Liquidity/RoundTrip.antt =====
-- A deposit followed at once by the withdrawal of its shares.
use mathlib.Core.Path.{subst}
use native.Mathlib.Nat.{mul-le-mul_right, le_trans, le_of_mul-le-mul_right}
use stellar_escrow.Prelude.{
  ℕ, ◌+◌, ◌*◌, ◌≤◌, ◌<◌, ◌≡◌, inl, inr, ap, some, arith, leb, ◌==◌, Bool-cases,
}
use stellar_escrow.Soroban.{ok, Ctx, Token, Ensures, step, returned, at_ok}
use stellar_escrow.Amm.Pool.{Pool, Amm}
use stellar_escrow.Amm.Liquidity.{scaled, actual_amounts, add_liquidity, remove_liquidity}
use stellar_escrow.Amm.Liquidity.Facts.{scaled-ok, add_liquidity-Added}
use stellar_escrow.Amm.Liquidity.Removal.{remove_liquidity-Removed}
use stellar_escrow.Amm.Liquidity.Shares.{scaled_le, later_le, later_total}

cross_le :
    (a b ra rb opt_a opt_b : ℕ)
    → 0 < rb
    → opt_b * ra ≤ a * rb
    → b < opt_b
    → opt_a * rb ≤ b * ra
    → opt_a ≤ a
cross_le a b ra rb opt_a opt_b pos h lt k =
    let up : b * ra ≤ opt_b * ra = mul-le-mul_right ra (omega arith) in
    le_of_mul-le-mul_right {k = rb} (le_trans k (le_trans up h)) pos

-- The deposit never takes more than was offered.
actual-Ensures : (p : Pool) (a b : ℕ) → Ensures (λ x. (x.0 ≤ a) × (x.1 ≤ b)) (actual_amounts p a b)
unfolding actual_amounts
actual-Ensures p a b = elim (Bool-cases (p.total_shares == 0)) [
  | inl e ↦ rw e (returned (omega arith, omega arith))
  | inr e ↦ rw e (
      step (scaled a p.reserve_b p.reserve_a) λ opt_b e_b. elim (Bool-cases (leb opt_b b)) [
        | inl fits ↦ rw fits (returned (omega arith, ground arith))
        | inr over ↦ rw over (
            step (scaled b p.reserve_a p.reserve_b) λ opt_a e_a. returned (
              cross_le a b p.reserve_a p.reserve_b opt_a opt_b (scaled-ok _ _ _ e_a).0
                  (scaled_le _ _ _ e_b) (ground arith) (scaled_le _ _ _ e_a),
              omega arith,
            ))
      ])
]

-- The shares' worth after the deposit is at most the deposit.
worth_le :
    (r total actual shares out : ℕ)
    → 0 < total + shares
    → shares * r ≤ actual * total
    → out * (total + shares) ≤ shares * (r + actual)
    → out ≤ actual
worth_le r total actual shares out pos fair h =
    le_of_mul-le-mul_right {k = total + shares} (omega arith) pos

-- Depositing into a pool that has shares, and withdrawing the minted shares at once, gives back at
-- most what was offered, of either token: rounding is always in favour of the pool.
pub remove-add_liquidity_le :
    {L : Type 0} (t : Token L) (c c' : Ctx)
    (pool_id provider amount_a amount_b min_shares min_a min_b : ℕ) (s s1 s2 : Amm L)
    (shares a b : ℕ) (p : Pool)
    → s.pools pool_id ≡ some p
    → p.id ≡ pool_id
    → 0 < p.total_shares
    → add_liquidity t c pool_id provider amount_a amount_b min_shares s ≡ ok (s1, shares)
    → remove_liquidity t c' pool_id provider shares min_a min_b s1 ≡ ok (s2, a, b)
    → (a ≤ amount_a) × (b ≤ amount_b)
remove-add_liquidity_le t c c' pool_id provider amount_a amount_b min_shares min_a min_b s s1 s2
      shares a b p found named pos add remove =
    let f = add_liquidity-Added t c pool_id provider amount_a amount_b min_shares s s1 shares add in
    let g = remove_liquidity-Removed t c' pool_id provider shares min_a min_b s1 s2 a b remove in
    let e : f.pool ≡ p = ground (arith, f.found) in
    let has : 0 < f.pool.total_shares = ground arith in
    let (le_a, le_b) = later_le f.pool f.actual_a f.actual_b has f.minted in
    let e_total = later_total f.pool shares has f.total_is in
    let p' : Pool = record f.pool {
      reserve_a = f.pool.reserve_a + f.actual_a;
      reserve_b = f.pool.reserve_b + f.actual_b;
      total_shares = f.total;
    } in
    let kept : s1.pools pool_id ≡ some p' =
      ground (arith, ap (λ (m : Amm _). m.pools pool_id) f.written) in
    let same : g.pool ≡ p' = ground (arith, g.found) in
    let out_a : a * f.total ≤ shares * (f.pool.reserve_a + f.actual_a) =
      subst (λ (q : Pool). a * q.total_shares ≤ shares * q.reserve_a) same
        (scaled_le _ _ _ g.a_is) in
    let out_b : b * f.total ≤ shares * (f.pool.reserve_b + f.actual_b) =
      subst (λ (q : Pool). b * q.total_shares ≤ shares * q.reserve_b) same
        (scaled_le _ _ _ g.b_is) in
    let (take_a, take_b) = at_ok (actual-Ensures f.pool amount_a amount_b) f.actual_is in
    (
      le_trans
          (worth_le f.pool.reserve_a f.pool.total_shares f.actual_a shares a (omega arith) le_a
            (rw e_total at out_a))
          take_a,
      le_trans
          (worth_le f.pool.reserve_b f.pool.total_shares f.actual_b shares b (omega arith) le_b
            (rw e_total at out_b))
          take_b,
    )
