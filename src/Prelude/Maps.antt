-- ===== src/Prelude/Maps.antt =====
-- A storage area keyed by numbers, as a function: `get` is application.
use Prim.Native.Nat.{ℕ}
use mathlib.Core.Option.{Option, none, some}
use stellar_escrow.Prelude.Tests.{◌==◌, if◌then◌else◌}

module _ {ℓ} {V : Type ℓ} where
  abbrev pub update : (ℕ → V) → ℕ → V → ℕ → V
  update m k v j = if j == k then v else m j

  abbrev pub get_or : Option V → V → V
  get_or none d = d
  get_or (some v) d = v
