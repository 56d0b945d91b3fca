-- ===== src/Amm/Sqrt.antt =====
-- `integer_sqrt` of contract/src/amm.rs: Newton's iteration on u128, downwards from the argument.
-- The loop falls in `x`, so it is a recursion on `Acc` and needs no fuel.
use mathlib.Core.Logic.{dite, dif_pos, dif_neg}
use mathlib.Core.WellFounded.{Acc}
use native.Mathlib.Decide.{dec_lt}
use native.Mathlib.Bridge.{le_prop}
use native.Mathlib.Nat.{mul-le-mul, lt-div-mul-add, div-mul-le_self, le-div_iff_mul-le, div_self}
use stellar_escrow.Prelude.{
  ℕ, zero, suc, ◌+◌, ◌*◌, ◌/◌, ◌≤◌, ◌<◌, ◌-◌, ◌≡◌, refl, ◌⊎◌, inl, inr, arith, ◌==◌, if◌then◌else◌,
}
use stellar_escrow.Soroban.{Result, ok, err, trap, ◌>>=◌, u128_mod, within_or_trap}

Acc-below : (k n : ℕ) → n < k → Acc ◌<◌ n
Acc-below zero n h = elim h [ ]
Acc-below (suc k) n h = Acc.intro n (λ m hm. Acc-below k m (omega arith))

-- `(x + n / x) / 2`, with the panic of a division by zero
abbrev newton : ℕ → ℕ → Result ℕ
newton n x = if x == 0 then trap else do s ← within_or_trap u128_mod (x + n / x); ok (s / 2)

-- `while y < x { x = y; y = (x + n / x) / 2; }`
sqrt_loop : (n x y : ℕ) → Acc ◌<◌ x → Result ℕ
sqrt_loop n x y (Acc.intro _ smaller) =
    dite (dec_lt y x) (λ h. newton n y >>= λ z. sqrt_loop n y z (smaller y h)) (λ _. ok x)

-- The loop from `x = n`, with the proof that it ends.
unfoldable pub sqrt_from : ℕ → ℕ → Result ℕ
unfolding sqrt_loop Acc-below dec_lt
sqrt_from n y = sqrt_loop n n y (Acc-below (suc n) n (omega arith))

unfoldable pub integer_sqrt : ℕ → Result ℕ
integer_sqrt n =
    if n == 0 then ok 0 else do s ← within_or_trap u128_mod (n + 1); sqrt_from n (s / 2)

four_mul_le_square_add : (a d : ℕ) → 4 * (a * (a + d)) ≤ (a + (a + d)) * (a + (a + d))
four_mul_le_square_add a d = omega arith

le_total : (a b : ℕ) → (a ≤ b) ⊎ (b ≤ a)
le_total a b = omega arith

four_mul_le_square_of_le : (a b : ℕ) → a ≤ b → 4 * (a * b) ≤ (a + b) * (a + b)
four_mul_le_square_of_le a b h =
    let e : b ≡ a + (b - a) = omega arith in rw e (four_mul_le_square_add a (b - a))

-- The inequality of the two means, on which Newton's step rests.
four_mul_le_square : (a b : ℕ) → 4 * (a * b) ≤ (a + b) * (a + b)
four_mul_le_square a b = elim (le_total a b) [
  | inl h ↦ four_mul_le_square_of_le a b h
  | inr h ↦ omega (arith, four_mul_le_square_of_le b a h)
]

mean_above : (x q y : ℕ) → x + q ≤ 2 * y + 1 → x * (q + 1) ≤ (y + 1) * (y + 1)
mean_above x q y h =
    let d : x + (q + 1) ≤ 2 * (y + 1) = omega arith in
    let e : (x + (q + 1)) * (x + (q + 1)) ≤ 2 * (y + 1) * (2 * (y + 1)) = mul-le-mul d d in
    omega (arith, four_mul_le_square x (q + 1))

-- One step from above the root stays above it.
newton_above : (n x : ℕ) → 0 < x → n < ((x + n / x) / 2 + 1) * ((x + n / x) / 2 + 1)
newton_above n x h =
    omega (arith, lt-div-mul-add {a = n} h, mean_above x (n / x) ((x + n / x) / 2) (omega arith))

two_or_one : (x : ℕ) → (2 ≤ x) ⊎ (x ≤ 1)
two_or_one x = omega arith

newton_pos : (n x : ℕ) → 0 < n → 0 < x → 0 < (x + n / x) / 2
newton_pos n x hn hx = elim (two_or_one x) [
  | inl h ↦ omega arith
  | inr h ↦ let e : x ≡ 1 = omega arith in rw e (omega arith)
]

add_le_mul : (a b : ℕ) → 0 < a → 0 < b → a + b ≤ a * b + 1
add_le_mul (suc a) (suc b) ha hb = omega arith
add_le_mul zero _ ha hb = elim ha [ ]
add_le_mul (suc a) zero ha hb = elim hb [ ]

div_pos : (n x : ℕ) → 0 < x → x ≤ n → 0 < n / x
div_pos n x hx le = (le-div_iff_mul-le {k = x} {x = 1} {y = n} hx).1 (omega arith)

newton_fits : (n x : ℕ) → 0 < x → x ≤ n → x + n / x ≤ n + 1
newton_fits n x hx le =
    omega (arith, add_le_mul x (n / x) hx (div_pos n x hx le), div-mul-le_self n x)

newton-ok : (n x : ℕ) → 0 < n → 0 < x → x ≤ n → n + 1 < u128_mod → newton n x ≡ ok ((x + n / x) / 2)
unfolding within_or_trap
newton-ok n x hn hx le fits = ground (arith, newton_fits n x hx le)

-- What a call returns: the floor of the root.
abbrev pub IsRoot : ℕ → Result ℕ → Type 0
IsRoot n (ok r) = (r * r ≤ n) × (n < (r + 1) * (r + 1))
IsRoot n (err _) = ⊥
IsRoot n trap = ⊥

at_end : (n x y : ℕ) → 0 < x → y ≡ (x + n / x) / 2 → x ≤ y → x * x ≤ n
at_end n x y h e le =
    let d : x ≤ n / x = omega arith in (le-div_iff_mul-le {k = x} {x = x} {y = n} h).0 d

sqrt_loop-IsRoot :
    (n x y : ℕ) (w : Acc ◌<◌ x)
    → 0 < n
    → 0 < x
    → x ≤ n
    → n + 1 < u128_mod
    → y ≡ (x + n / x) / 2
    → n < (x + 1) * (x + 1)
    → IsRoot n (sqrt_loop n x y w)
unfolding sqrt_loop
sqrt_loop-IsRoot n x y (Acc.intro _ smaller) hn hx le fits e above = elim (dec_lt y x) [
  | yes p ↦
      let hy : 0 < y = rw e (newton_pos n x hn hx) in
      rw (dif_pos (dec_lt y x) le_prop p, newton-ok n y hn hy (omega arith) fits)
        (sqrt_loop-IsRoot n y ((y + n / y) / 2) (smaller y p) hn hy (omega arith) fits refl
          (rw e (newton_above n x hx)))
  | no p ↦ rw (dif_neg (dec_lt y x) p) (at_end n x y hx e (omega arith), above)
]

sqrt_from-IsRoot : (n : ℕ) → 0 < n → n + 1 < u128_mod → IsRoot n (sqrt_from n ((n + 1) / 2))
unfolding sqrt_from
sqrt_from-IsRoot n h fits =
    sqrt_loop-IsRoot n n ((n + 1) / 2) (Acc-below (suc n) n (omega arith)) h h (omega arith) fits
      (rw (div_self h)) (omega arith)

-- Below the greatest number of 128 bits, u128::MAX itself, the square root ends, without a panic, at the
-- greatest number whose square is at most `n`.
pub integer_sqrt-IsRoot : (n : ℕ) → n + 1 < u128_mod → IsRoot n (integer_sqrt n)
unfolding integer_sqrt within_or_trap
integer_sqrt-IsRoot zero fits = (omega arith, omega arith)
integer_sqrt-IsRoot (suc n) fits = ground (arith, sqrt_from-IsRoot (suc n) (omega arith) fits)

integer_sqrt-runs : integer_sqrt 1000003 ≡ ok 1000
unfolding integer_sqrt sqrt_from within_or_trap
integer_sqrt-runs = refl
