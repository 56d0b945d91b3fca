-- ===== src/Indexer/Gateway/RoundRobin.antt =====
-- The instances that consecutive calls of the round robin give.
use stellar_escrow.Prelude.{
  ℕ, zero, suc, ◌+◌, ◌-◌, ◌%◌, ◌<◌, ◌≡◌, refl, ap, ◌∙◌, arith, true, false, List, [], ◌∷◌, length,
  ◌==◌, Bool-cases, inl, inr,
}
use native.Mathlib.Nat.{mod-lt, add-mod_right}
use stellar_escrow.Soroban.{u64_mod}
use stellar_escrow.Indexer.Gateway.{is_some, get_elem?, get_next_instance}

-- The counter after `n` calls.
unfoldable pub after_calls : List (List ℕ) → ℕ → ℕ → ℕ
unfolding get_next_instance
after_calls instances counter zero = counter
after_calls instances counter (suc n) =
    (get_next_instance instances (after_calls instances counter n)).0

get_elem?-lt : (xs : List (List ℕ)) (n : ℕ) → n < length xs → is_some (get_elem? xs n) ≡ true
unfolding get_elem?
get_elem?-lt [] n lt = absurd (omega arith)
get_elem?-lt (x ∷ xs) n lt = elim (Bool-cases (n == 0)) [
  | inl e ↦ rw e refl
  | inr e ↦ let more : n - 1 < length xs = ground arith in rw e (get_elem?-lt xs (n - 1) more)
]

counted :
    (instances : List (List ℕ)) (counter : ℕ)
    → 0 < length instances
    → counter + 1 < u64_mod
    → (get_next_instance instances counter).0 ≡ counter + 1
unfolding get_next_instance
counted instances counter pos lt =
    let some_ : (length instances == 0) ≡ false = ground arith in
    let next : (counter + 1) % u64_mod ≡ counter + 1 = omega (arith, lt) in rw some_ next

after_calls_lem :
    (instances : List (List ℕ)) (counter n : ℕ)
    → 0 < length instances
    → counter + n < u64_mod
    → after_calls instances counter n ≡ counter + n
unfolding after_calls
after_calls_lem instances counter zero pos lt = omega arith
after_calls_lem instances counter (suc n) pos lt =
    ap (λ k. (get_next_instance instances k).0)
      (after_calls_lem instances counter n pos (omega arith))
    ∙ counted instances (counter + n) pos (omega arith)
    ∙ omega arith

-- As long as the counter does not wrap, every call gives an instance, each call the one after the last in
-- the list and the first after the end, so that the same instance comes again after one round.
pub get_next_instance-rounds :
    (instances : List (List ℕ)) (counter n : ℕ)
    → 0 < length instances
    → counter + n + length instances < u64_mod
    → ((get_next_instance instances (after_calls instances counter n)).1
        ≡ get_elem? instances ((counter + n) % length instances))
      × (is_some (get_elem? instances ((counter + n) % length instances)) ≡ true)
      × ((get_next_instance instances (after_calls instances counter (n + length instances))).1
          ≡ (get_next_instance instances (after_calls instances counter n)).1)
unfolding get_next_instance
get_next_instance-rounds instances counter n pos lt =
    let some_ : (length instances == 0) ≡ false = ground arith in
    let here = after_calls_lem instances counter n pos (omega arith) in
    let there = after_calls_lem instances counter (n + length instances) pos (omega arith) in
    let sum : counter + (n + length instances) ≡ counter + n + length instances = omega arith in
    (
      rw (some_, here) refl,
      get_elem?-lt instances _ (mod-lt (counter + n) pos),
      rw (some_, there, here)
          (ap (get_elem? instances)
            (ap (λ k. k % length instances) sum ∙ add-mod_right (counter + n) (length instances))),
    )
