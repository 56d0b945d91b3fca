-- ===== src/Analytics/Rates.antt =====
-- The rates that `compute_stats` derives.
use native.Mathlib.Nat.{div-mul-le_self, le_of_mul-le-mul_left}
use stellar_escrow.Prelude.{ℕ, ◌*◌, ◌/◌, ◌≤◌, ◌<◌, arith, Bool-cases, inl, inr, ◌==◌}
use stellar_escrow.Soroban.{u64_mod}
use stellar_escrow.Analytics.{PlatformMetrics, rate_bps, terminal_trades, compute_stats}

rate_bps_le : (part whole : ℕ) → part ≤ whole → rate_bps part whole ≤ 10000
unfolding rate_bps
rate_bps_le part whole le = elim (Bool-cases (whole == 0)) [
  | inl e ↦ ground arith
  | inr e ↦
      let q : ℕ = part * 10000 / whole in
      let a : q * whole ≤ part * 10000 = div-mul-le_self (part * 10000) whole in
      let b : whole * q ≤ whole * 10000 = omega arith in
      let pos : 0 < whole = ground arith in
      let d : q ≤ 10000 = le_of_mul-le-mul_left {k = whole} b pos in ground arith
]

-- The success rate is never above 10 000 basis points, also where the sum of the counts saturates;
-- the dispute rate is not when no more trades were disputed than funded.
pub compute_stats_le :
    (m : PlatformMetrics)
    → m.trades_completed < u64_mod
    → m.trades_disputed ≤ m.trades_funded
    → let r = compute_stats m in (r.success_rate_bps ≤ 10000) × (r.dispute_rate_bps ≤ 10000)
unfolding compute_stats terminal_trades
compute_stats_le m small le = (
  rate_bps_le m.trades_completed _ (ground arith),
  rate_bps_le m.trades_disputed m.trades_funded le,
)
