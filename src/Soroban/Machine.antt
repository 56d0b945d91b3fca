-- ===== src/Soroban/Machine.antt =====
-- Rust's checked, saturating and truncating arithmetic at the widths that the contract uses. The
-- release profile of contract/Cargo.toml sets `overflow-checks`, so a plain `+` or `*` that does
-- not fit traps.
use stellar_escrow.Prelude.{
  ℕ, ◌+◌, ◌-◌, ◌*◌, ◌/◌, ◌%◌, ◌≤◌, ◌<◌, ◌≡◌, arith, ltb, ◌==◌, if◌then◌else◌,
}
use stellar_escrow.Errors.{overflow}
use stellar_escrow.Soroban.Outcome.{Result, ok, err, trap}

abbrev pub u32_mod : ℕ
u32_mod = 4294967296

abbrev pub u64_mod : ℕ
u64_mod = 18446744073709551616

abbrev pub u128_mod : ℕ
u128_mod = 340282366920938463463374607431768211456

-- 2 ^ 127: the non-negative `i128` values stay below it
abbrev pub i128_mod : ℕ
i128_mod = 170141183460469231731687303715884105728

-- `.checked_…().ok_or(Overflow)?`
unfoldable pub within : ℕ → ℕ → Result ℕ
within w n = if ltb n w then ok n else err overflow

-- the same for a plain operator under `overflow-checks`
unfoldable pub within_or_trap : ℕ → ℕ → Result ℕ
within_or_trap w n = if ltb n w then ok n else trap

unfoldable pub checked_add : ℕ → ℕ → ℕ → Result ℕ
unfolding within
checked_add w a b = within w (a + b)

unfoldable pub checked_mul : ℕ → ℕ → ℕ → Result ℕ
unfolding within
checked_mul w a b = within w (a * b)

unfoldable pub checked_sub : ℕ → ℕ → Result ℕ
checked_sub a b = if ltb a b then err overflow else ok (a - b)

unfoldable pub checked_div : ℕ → ℕ → Result ℕ
checked_div a b = if b == 0 then err overflow else ok (a / b)

abbrev pub saturating_add : ℕ → ℕ → ℕ → ℕ
saturating_add w a b = if ltb (a + b) w then a + b else w - 1

abbrev pub saturating_mul : ℕ → ℕ → ℕ → ℕ
saturating_mul w a b = if ltb (a * b) w then a * b else w - 1

-- `as u64`, `as u32`
abbrev pub as_u64 : ℕ → ℕ
as_u64 n = n % u64_mod

abbrev pub as_u32 : ℕ → ℕ
as_u32 n = n % u32_mod

pub within-ok : (w n : ℕ) {r : ℕ} → within w n ≡ ok r → (n < w) × (r ≡ n)
unfolding within
within-ok w n h = ground arith

pub within_or_trap-ok : (w n : ℕ) {r : ℕ} → within_or_trap w n ≡ ok r → (n < w) × (r ≡ n)
unfolding within_or_trap
within_or_trap-ok w n h = ground arith

pub checked_add-ok : (w a b : ℕ) {r : ℕ} → checked_add w a b ≡ ok r → (a + b < w) × (r ≡ a + b)
unfolding checked_add
checked_add-ok w a b h = ground arith

pub checked_mul-ok : (w a b : ℕ) {r : ℕ} → checked_mul w a b ≡ ok r → (a * b < w) × (r ≡ a * b)
unfolding checked_mul
checked_mul-ok w a b h = ground arith

pub checked_sub-ok : (a b : ℕ) {r : ℕ} → checked_sub a b ≡ ok r → (b ≤ a) × (r ≡ a - b)
unfolding checked_sub
checked_sub-ok a b h = ground arith

pub checked_div-ok : (a b : ℕ) {r : ℕ} → checked_div a b ≡ ok r → (0 < b) × (r ≡ a / b)
unfolding checked_div
checked_div-ok a b h = ground arith
