-- ===== src/Soroban/Post.antt =====
-- What holds of every call that returns: a postcondition, and the rule that carries it through `?`.
use stellar_escrow.Prelude.{◌≡◌, refl}
use mathlib.Core.Path.{subst}
use stellar_escrow.Errors.{ContractError}
use stellar_escrow.Soroban.Outcome.{Result, ok, err, trap, ◌>>=◌}

pub data Ensures {A : Type 0} (P : A → Type 0) : Result A → Type 0 where
  returned : {a : A} → P a → Ensures P (ok a)
  failed : (e : ContractError) → Ensures P (err e)
  trapped : Ensures P trap

module _ {A B : Type 0} {P : B → Type 0} where
  pub step :
      (m : Result A) {f : A → Result B}
      → ((a : A) → m ≡ ok a → Ensures P (f a))
      → Ensures P (m >>= f)
  step (ok a) k = k a refl
  step (err e) k = failed e
  step trap k = trapped

abbrev Holds : {A : Type 0} → (A → Type 0) → Result A → Type 0
Holds P (ok a) = P a
Holds P (err e) = Unit
Holds P trap = Unit

Ensures-Holds : {A : Type 0} {P : A → Type 0} {m : Result A} → Ensures P m → Holds P m
Ensures-Holds (returned p) = p
Ensures-Holds (failed e) = tt
Ensures-Holds trapped = tt

pub at_ok : {A : Type 0} {P : A → Type 0} {m : Result A} {a : A} → Ensures P m → m ≡ ok a → P a
at_ok {P = P} h e = subst (Holds P) e (Ensures-Holds h)

pub ensured :
    {A : Type 0} {P : A → Type 0} (m : Result A) → ((a : A) → m ≡ ok a → P a) → Ensures P m
ensured (ok a) f = returned (f a refl)
ensured (err e) f = failed e
ensured trap f = trapped
