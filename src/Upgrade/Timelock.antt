-- ===== src/Upgrade/Timelock.antt =====
-- The traces of the operations of upgrade.rs, and the timelock that holds along every one of them.
use stellar_escrow.Prelude.{ℕ, ◌+◌, ◌≤◌, ◌<◌, ◌≡◌, refl, arith, Option, none, some, ltb, ◌==◌, not}
use stellar_escrow.Soroban.{
  ok, Ctx, checked_add, ok_or, fail_if, fail_if-ok, ok_or-ok, checked_add-ok, u32_mod, Ensures,
  step, returned, at_ok,
}
use stellar_escrow.Errors.{
  upgrade_in_progress, no_upgrade_proposal, upgrade_timelock_active, no_upgrade_in_progress,
  migration_version_mismatch, rollback_window_expired,
}
use stellar_escrow.Upgrade.{
  Upgrade, UpgradeProposal, upgrade_timelock_ledgers, propose_upgrade, execute_upgrade,
  run_migration, rollback_upgrade, cancel_upgrade, require_admin, is_some, get_version,
}

-- One successful call of the module.
pub data Call (c : Ctx) (s s' : Upgrade) : Type 0 where
  proposed :
      (admin hash description : ℕ)
      → propose_upgrade c admin hash description s ≡ ok s'
      → Call c s s'
  executed : (admin : ℕ) → execute_upgrade c admin s ≡ ok s' → Call c s s'
  migrated : (admin expected : ℕ) → run_migration c admin expected s ≡ ok s' → Call c s s'
  rolled_back : (admin : ℕ) → rollback_upgrade c admin s ≡ ok s' → Call c s s'
  cancelled : (admin : ℕ) → cancel_upgrade c admin s ≡ ok s' → Call c s s'

-- Calls one after the other, at ledgers that do not go back: from `s` at ledger `n` to `s'` at `m`.
pub data Trace (n : ℕ) (s : Upgrade) : ℕ → Upgrade → Type 0 where
  start : Trace n s n s
  call :
      {m : ℕ} {s' s'' : Upgrade} (c : Ctx)
      → Trace n s m s'
      → m ≤ c.sequence
      → Call c s' s''
      → Trace n s c.sequence s''

abbrev Waits : ℕ → Option UpgradeProposal → Type 0
Waits n none = Unit
Waits n (some p) = n + upgrade_timelock_ledgers ≤ p.executable_after

-- Before the timelock has run from ledger `n`, the code is the one of the start and every pending
-- proposal is still locked.
record Locked (n : ℕ) (code : ℕ) (s : Upgrade) : Type 0 where
  same : s.code ≡ code
  waits : Waits n s.proposal

module _ (n code : ℕ) (c : Ctx) (s : Upgrade) (l : Locked n code s) where
  propose_upgrade-Locked :
      (admin hash description : ℕ)
      → n ≤ c.sequence
      → Ensures (Locked n code) (propose_upgrade c admin hash description s)
  unfolding propose_upgrade
  propose_upgrade-Locked admin hash description le = step (require_admin c admin s) λ _ _.
      step (fail_if (is_some s.guard) upgrade_in_progress) λ _ _.
        step (checked_add u32_mod c.sequence upgrade_timelock_ledgers) λ after e.
          returned (record { same = l.same; waits = ground (arith, checked_add-ok _ _ _ e) })

  execute_upgrade-Locked :
      (admin : ℕ)
      → c.sequence < n + upgrade_timelock_ledgers
      → Ensures (Locked n code) (execute_upgrade c admin s)
  unfolding execute_upgrade
  execute_upgrade-Locked admin lt = step (require_admin c admin s) λ _ _.
      step (fail_if (is_some s.guard) upgrade_in_progress) λ _ _.
        step (ok_or s.proposal no_upgrade_proposal) λ p e_p.
          step (fail_if (ltb c.sequence p.executable_after) upgrade_timelock_active) λ _ e.
            let found : s.proposal ≡ some p = ok_or-ok s.proposal _ e_p in
            let open_now = fail_if-ok _ _ e in
            let w : Waits n (some p) = rw found at l.waits in let r : ⊥ = ground arith in absurd r

  run_migration-Locked :
      (admin expected : ℕ) → Ensures (Locked n code) (run_migration c admin expected s)
  unfolding run_migration
  run_migration-Locked admin expected = step (require_admin c admin s) λ _ _.
      step (ok_or s.guard no_upgrade_in_progress) λ g _.
        step (fail_if (not (get_version s == expected)) migration_version_mismatch) λ _ _.
          step (fail_if (not (get_version s == g.pre_upgrade_version)) migration_version_mismatch)
            λ _ _.
              step (checked_add u32_mod (get_version s) 1)
                λ _ _. returned (record { same = l.same; waits = l.waits })

  rollback_upgrade-Locked : (admin : ℕ) → Ensures (Locked n code) (rollback_upgrade c admin s)
  unfolding rollback_upgrade
  rollback_upgrade-Locked admin = step (require_admin c admin s) λ _ _.
      step (ok_or s.snapshot no_upgrade_in_progress) λ snap _.
        step (fail_if (ltb snap.rollback_deadline c.sequence) rollback_window_expired)
          λ _ _. returned (record { same = l.same; waits = l.waits })

  cancel_upgrade-Locked : (admin : ℕ) → Ensures (Locked n code) (cancel_upgrade c admin s)
  unfolding cancel_upgrade
  cancel_upgrade-Locked admin = step (require_admin c admin s) λ _ _.
      step (fail_if (not (is_some s.proposal)) no_upgrade_proposal)
        λ _ _. returned (record { same = l.same; waits = tt })

  Call-Locked :
      (s' : Upgrade)
      → n ≤ c.sequence
      → c.sequence < n + upgrade_timelock_ledgers
      → Call c s s'
      → Locked n code s'
  Call-Locked s' le lt (proposed a hash d h) = at_ok (propose_upgrade-Locked a hash d le) h
  Call-Locked s' le lt (executed a h) = at_ok (execute_upgrade-Locked a lt) h
  Call-Locked s' le lt (migrated a v h) = at_ok (run_migration-Locked a v) h
  Call-Locked s' le lt (rolled_back a h) = at_ok (rollback_upgrade-Locked a) h
  Call-Locked s' le lt (cancelled a h) = at_ok (cancel_upgrade-Locked a) h

trace_le : {n : ℕ} {s : Upgrade} {m : ℕ} {s' : Upgrade} → Trace n s m s' → n ≤ m
trace_le start = omega arith
trace_le (call c t le e) = let h = trace_le t in omega arith

trace-Locked :
    {n : ℕ} {s : Upgrade} {m : ℕ} {s' : Upgrade}
    → s.proposal ≡ none
    → Trace n s m s'
    → m < n + upgrade_timelock_ledgers
    → Locked n s.code s'
trace-Locked e start lt = record { same = refl; waits = rw e tt }
trace-Locked {n} {s = s} e (call {s' = s'} {s'' = s''} c t le k) lt =
    let h = trace_le t in
    Call-Locked n s.code c s' (trace-Locked e t (omega arith)) s'' (omega arith) lt k

-- From a state with no pending proposal, no sequence of calls deploys other code before 17 280
-- ledgers have passed.
pub trace_timelock :
    (n m : ℕ) (s s' : Upgrade)
    → s.proposal ≡ none
    → Trace n s m s'
    → m < n + upgrade_timelock_ledgers
    → s'.code ≡ s.code
trace_timelock n m s s' e t lt = (trace-Locked e t lt).same
