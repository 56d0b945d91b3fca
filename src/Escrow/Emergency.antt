-- ===== src/Escrow/Emergency.antt =====
-- contract/src/emergency.rs: the helpers around the pause. A balance is cast to `u64`.
use stellar_escrow.Prelude.{ℕ, Bool, true, false, not, ltb}
use stellar_escrow.Errors.{overflow, contract_paused}
use stellar_escrow.Soroban.{Result, ok, ◌>>=◌, fail_if, as_u64, Ctx, Token}
use stellar_escrow.Escrow.State.{Escrow, is_paused, get_usdc_token}

module _ {L : Type 0} (t : Token L) (c : Ctx) where
  unfoldable pub get_contract_balance : Escrow L → Result ℕ
  get_contract_balance s = do
    token ← get_usdc_token s
    ok (as_u64 (t.balance token c.contract s.ledger))

  unfoldable pub validate_emergency_withdrawal : ℕ → Escrow L → Result (Unit {0})
  unfolding get_contract_balance
  validate_emergency_withdrawal amount s = do
    balance ← get_contract_balance s
    fail_if (ltb balance amount) overflow

module _ {L : Type 0} where
  unfoldable pub get_pause_status : Escrow L → Bool × Bool
  get_pause_status s = (is_paused s, not (is_paused s))

  unfoldable pub check_operation_allowed : Bool → Escrow L → Result (Unit {0})
  check_operation_allowed true s = ok tt
  check_operation_allowed false s = fail_if (is_paused s) contract_paused
