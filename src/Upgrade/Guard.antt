-- ===== src/Upgrade/Guard.antt =====
-- The guard of upgrade.rs, and the way out of an upgrade: migration or rollback.
use stellar_escrow.Prelude.{ℕ, ◌+◌, ◌≤◌, ◌≡◌, arith, Option, none, some, true}
use stellar_escrow.Soroban.{ok, Ctx, checked_add, ok_or, fail_if, require_auth}
use stellar_escrow.Upgrade.{
  Upgrade, UpgradeGuard, RollbackSnapshot, rollback_window_ledgers, execute_upgrade, run_migration,
  rollback_upgrade, require_admin, get_version, propose_upgrade, cancel_upgrade,
}
use stellar_escrow.Upgrade.Timelock.{Call, proposed, executed, migrated, rolled_back, cancelled}

-- A guard stands exactly while a snapshot does, and both hold the current version.
abbrev pub Guarded : ℕ → Option UpgradeGuard → Option RollbackSnapshot → Type 0
Guarded v none none = Unit
Guarded v none (some _) = ⊥
Guarded v (some _) none = ⊥
Guarded v (some g) (some r) = (g.pre_upgrade_version ≡ v) × (r.version_before ≡ v)

-- Every call of the module keeps guard and snapshot in step with each other and with the version.
pub Call-Guarded :
    (c : Ctx) (s s' : Upgrade)
    → Guarded (get_version s) s.guard s.snapshot
    → Call c s s'
    → Guarded (get_version s') s'.guard s'.snapshot
unfolding propose_upgrade execute_upgrade run_migration rollback_upgrade cancel_upgrade get_version
    ok_or fail_if checked_add
Call-Guarded c s s' g (proposed a hash d h) = ground arith
Call-Guarded c s s' g (executed a h) = ground arith
Call-Guarded c s s' g (migrated a v h) = ground arith
Call-Guarded c s s' g (rolled_back a h) = ground arith
Call-Guarded c s s' g (cancelled a h) = ground arith

-- After an upgrade that the admin executed, a rollback within 720 ledgers returns, restores the
-- version and the fee, and leaves neither guard nor snapshot; the new code stays deployed.
pub execute-rollback_upgrade :
    (c d : Ctx) (admin fee : ℕ) (s s' : Upgrade)
    → s.fee_bps ≡ some fee
    → execute_upgrade c admin s ≡ ok s'
    → d.auth admin ≡ true
    → d.sequence ≤ c.sequence + rollback_window_ledgers
    → rollback_upgrade d admin s'
      ≡ ok (record s' {
        version = some (get_version s);
        fee_bps = s.fee_bps;
        guard = none;
        snapshot = none;
      })
unfolding execute_upgrade rollback_upgrade get_version require_admin require_auth ok_or fail_if
    checked_add
execute-rollback_upgrade c d admin fee s s' e h ok_d le = ground arith
