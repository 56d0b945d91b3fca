-- ===== src/Upgrade.antt =====
-- contract/src/upgrade.rs: proposals under a timelock, execution, migration and rollback. The state
-- is the instance storage that the module reads and writes, and the hash of the deployed code.
-- A hash, a description and an address are numbers.
pub mod Timelock
pub mod Guard
use stellar_escrow.Prelude.{ℕ, ◌+◌, Bool, true, false, not, Option, none, some, ltb, ◌==◌, get_or}
use stellar_escrow.Errors.{
  not_initialized, unauthorized, upgrade_in_progress, overflow, no_upgrade_proposal,
  upgrade_timelock_active, no_upgrade_in_progress, migration_version_mismatch,
  rollback_window_expired,
}
use stellar_escrow.Soroban.{
  Result, ok, err, ◌>>=◌, ◌>>◌, fail_if, ok_or, u32_mod, checked_add, Ctx, require_auth,
}

abbrev pub upgrade_timelock_ledgers : ℕ
upgrade_timelock_ledgers = 17280

abbrev pub rollback_window_ledgers : ℕ
rollback_window_ledgers = 720

pub record UpgradeProposal : Type 0 where
  pub new_wasm_hash : ℕ
  pub executable_after : ℕ
  pub proposed_by : ℕ
  pub description : ℕ

pub record RollbackSnapshot : Type 0 where
  pub version_before : ℕ
  pub fee_bps_before : ℕ
  pub snapshot_ledger : ℕ
  pub rollback_deadline : ℕ

pub record UpgradeGuard : Type 0 where
  pub pre_upgrade_version : ℕ
  pub upgraded_at_ledger : ℕ

pub record Upgrade : Type 0 where
  pub admin : Option ℕ
  pub version : Option ℕ
  pub fee_bps : Option ℕ
  pub proposal : Option UpgradeProposal
  pub snapshot : Option RollbackSnapshot
  pub guard : Option UpgradeGuard
  pub code : ℕ

abbrev pub is_some : {A : Type 0} → Option A → Bool
is_some none = false
is_some (some _) = true

unfoldable pub get_version : Upgrade → ℕ
get_version s = get_or s.version 1

unfoldable pub require_admin : Ctx → ℕ → Upgrade → Result (Unit {0})
require_admin c caller s = do
  admin ← ok_or s.admin not_initialized
  fail_if (not (admin == caller)) unauthorized
  require_auth c caller

unfoldable pub propose_upgrade : Ctx → ℕ → ℕ → ℕ → Upgrade → Result Upgrade
propose_upgrade c admin new_wasm_hash description s = do
  require_admin c admin s
  fail_if (is_some s.guard) upgrade_in_progress
  executable_after ← checked_add u32_mod c.sequence upgrade_timelock_ledgers
  ok (record s {
    proposal = some (record {
      new_wasm_hash = new_wasm_hash;
      executable_after = executable_after;
      proposed_by = admin;
      description = description;
    });
  })

unfoldable pub execute_upgrade : Ctx → ℕ → Upgrade → Result Upgrade
unfolding get_version
execute_upgrade c admin s = do
  require_admin c admin s
  fail_if (is_some s.guard) upgrade_in_progress
  proposal ← ok_or s.proposal no_upgrade_proposal
  fail_if (ltb c.sequence proposal.executable_after) upgrade_timelock_active
  let current_version = get_version s
  deadline ← checked_add u32_mod c.sequence rollback_window_ledgers
  ok (record s {
    snapshot = some (record {
      version_before = current_version;
      fee_bps_before = get_or s.fee_bps 0;
      snapshot_ledger = c.sequence;
      rollback_deadline = deadline;
    });
    guard =
        some (record { pre_upgrade_version = current_version; upgraded_at_ledger = c.sequence });
    proposal = none;
    code = proposal.new_wasm_hash;
  })

unfoldable pub run_migration : Ctx → ℕ → ℕ → Upgrade → Result Upgrade
unfolding get_version
run_migration c admin expected_version s = do
  require_admin c admin s
  guard ← ok_or s.guard no_upgrade_in_progress
  let current = get_version s
  fail_if (not (current == expected_version)) migration_version_mismatch
  fail_if (not (current == guard.pre_upgrade_version)) migration_version_mismatch
  next ← checked_add u32_mod current 1
  ok (record s { version = some next; guard = none; snapshot = none })

unfoldable pub rollback_upgrade : Ctx → ℕ → Upgrade → Result Upgrade
rollback_upgrade c admin s = do
  require_admin c admin s
  snap ← ok_or s.snapshot no_upgrade_in_progress
  fail_if (ltb snap.rollback_deadline c.sequence) rollback_window_expired
  ok (record s {
    version = some snap.version_before;
    fee_bps = some snap.fee_bps_before;
    guard = none;
    snapshot = none;
  })

unfoldable pub cancel_upgrade : Ctx → ℕ → Upgrade → Result Upgrade
cancel_upgrade c admin s = do
  require_admin c admin s
  fail_if (not (is_some s.proposal)) no_upgrade_proposal
  ok (record s { proposal = none })
