-- ===== src/Soroban/Outcome.antt =====
-- `Result<_, ContractError>`, with the host's trap (a panic) beside it. Both an `Err` and a trap roll
-- the whole invocation back, so neither carries a state.
use stellar_escrow.Prelude.{◌≡◌, refl, Bool, true, false, Option, none, some}
use stellar_escrow.Errors.{ContractError}

pub data Result (A : Type 0) : Type 0 where
  trap : Result A
  err : ContractError → Result A
  ok : A → Result A

-- `?` on a call whose value the rest of the function uses
infixl 5 ◌>>=◌ ◌>>◌
abbrev pub ◌>>=◌ : {A B : Type 0} → Result A → (A → Result B) → Result B
trap >>= rest = trap
err e >>= rest = err e
ok value >>= rest = rest value

-- `?` on a call that returns nothing
abbrev pub ◌>>◌ : {A : Type 0} → Result (Unit {0}) → Result A → Result A
first >> second = first >>= (λ done. second)

-- `if bad { return Err(e); }`
unfoldable pub fail_if : Bool → ContractError → Result (Unit {0})
fail_if true e = err e
fail_if false e = ok tt

-- `.ok_or(e)?`
unfoldable pub ok_or : {A : Type 0} → Option A → ContractError → Result A
ok_or none e = err e
ok_or (some a) e = ok a

-- A panic where the host or an `unwrap` gives nothing.
unfoldable pub or_trap : {A : Type 0} → Option A → Result A
or_trap none = trap
or_trap (some a) = ok a

pub fail_if-ok : (b : Bool) (e : ContractError) {u : Unit {0}} → fail_if b e ≡ ok u → b ≡ false
unfolding fail_if
fail_if-ok true e h = cc
fail_if-ok false e h = refl

pub ok_or-ok :
    {A : Type 0} (o : Option A) (e : ContractError) {a : A} → ok_or o e ≡ ok a → o ≡ some a
unfolding ok_or
ok_or-ok none e h = cc
ok_or-ok (some b) e h = cc

pub or_trap-ok : {A : Type 0} (o : Option A) {a : A} → or_trap o ≡ ok a → o ≡ some a
unfolding or_trap
or_trap-ok none h = cc
or_trap-ok (some b) h = cc
