-- ===== src/Reputation.antt =====
-- contract/src/reputation.rs: the score of an arbitrator and the choice of the best one. The
-- storage that it reads is not defined in contract/src/storage.rs: the registered arbitrators and
-- their records are the parameters `registered` and `reputation`.
use mathlib.Core.List.{Mem, mem-cons_self, mem-cons_of_mem}
use stellar_escrow.Prelude.{
  ℕ, ◌+◌, ◌/◌, ◌≤◌, ◌≡◌, refl, arith, min, Bool, true, false, ◌||◌, ◌&&◌, Option, none, some, List,
  [], ◌∷◌, All, ltb, ◌==◌, if◌then◌else◌, Bool-cases, inl, inr, ◌⊎◌,
}
use stellar_escrow.Errors.{arbitrator_not_registered}
use stellar_escrow.Soroban.{Result, ok, ok_or, ok_or-ok, u32_mod, u64_mod, as_u32, saturating_mul}

pub record ArbitratorReputation : Type 0 where
  pub rating_sum : ℕ
  pub rating_count : ℕ
  pub resolved_count : ℕ
  pub total_disputes : ℕ

unfoldable pub average_rating_x100 : ArbitratorReputation → ℕ
average_rating_x100 rep =
    if rep.rating_count == 0
    then 0
    else saturating_mul u32_mod rep.rating_sum 100 / rep.rating_count

unfoldable pub resolution_rate_bps : ArbitratorReputation → ℕ
resolution_rate_bps rep =
    if rep.total_disputes == 0
    then 0
    else as_u32 (saturating_mul u64_mod rep.resolved_count 10000 / rep.total_disputes)

unfoldable pub composite_score : ArbitratorReputation → ℕ
unfolding average_rating_x100 resolution_rate_bps
composite_score rep =
    let rr = resolution_rate_bps rep in
    let ar = min (saturating_mul u64_mod (average_rating_x100 rep) 20) 10000 in
    min ((saturating_mul u64_mod rr 6 + saturating_mul u64_mod ar 4) / 10) 10000

module _ (registered : ℕ → Bool) (reputation : ℕ → ArbitratorReputation) where
  abbrev score : ℕ → ℕ
  score a = composite_score (reputation a)

  abbrev is_none : Option ℕ → Bool
  is_none none = true
  is_none (some _) = false

  -- One turn of the loop: the best arbitrator so far and its score.
  unfoldable pub consider : ℕ → Option ℕ × ℕ → Option ℕ × ℕ
  consider a (best, best_score) =
      if registered a && (is_none best || ltb best_score (score a))
      then (some a, score a)
      else (best, best_score)

  unfoldable pub select_loop : Option ℕ × ℕ → List ℕ → Option ℕ
  select_loop (best, best_score) [] = best
  select_loop so_far (a ∷ list) = select_loop (consider a so_far) list

  unfoldable pub select_best_arbitrator : List ℕ → Result ℕ
  select_best_arbitrator candidates =
      ok_or (select_loop (none, 0) candidates) arbitrator_not_registered

  -- The best so far is beaten by nobody, and by no registered candidate that follows.
  record Winner (so_far : Option ℕ × ℕ) (list : List ℕ) (a : ℕ) : Type 0 where
    is_registered : registered a ≡ true
    ge_so_far : so_far.1 ≤ score a
    ge_rest : All (λ x. registered x ≡ true → score x ≤ score a) list

  -- A best that is known is registered, and its score is the recorded one.
  abbrev Known : Option ℕ × ℕ → Type 0
  Known (none, n) = n ≡ 0
  Known (some b, n) = (registered b ≡ true) × (n ≡ score b)

  consider-Known : (a : ℕ) (so_far : Option ℕ × ℕ) → Known so_far → Known (consider a so_far)
  unfolding consider
  consider-Known a (none, n) k = elim (Bool-cases (registered a)) [
    | inl e ↦ rw e (e, refl)
    | inr e ↦ rw e k
  ]
  consider-Known a (some b, n) k = elim (Bool-cases (registered a && ltb n (score a))) [
    | inl e ↦ rw e (ground arith, refl)
    | inr e ↦ rw e k
  ]

  -- A turn of the loop lowers no score, and takes a registered arbitrator into account.
  consider_ge :
      (a : ℕ) (so_far : Option ℕ × ℕ)
      → Known so_far
      → (so_far.1 ≤ (consider a so_far).1) × (registered a ≡ true → score a ≤ (consider a so_far).1)
  unfolding consider
  consider_ge a (none, n) k = elim (Bool-cases (registered a)) [
    | inl e ↦ rw e (omega arith, λ _. omega arith)
    | inr e ↦ rw e (omega arith, λ h. ground arith)
  ]
  consider_ge a (some b, n) k = elim (Bool-cases (registered a && ltb n (score a))) [
    | inl e ↦ rw e (ground arith, λ _. omega arith)
    | inr e ↦ rw e (omega arith, λ h. ground arith)
  ]

  select_loop-Winner :
      (so_far : Option ℕ × ℕ) (list : List ℕ) (a : ℕ)
      → Known so_far
      → select_loop so_far list ≡ some a
      → Winner so_far list a
  unfolding select_loop
  select_loop-Winner (none, n) [] a k h = ground arith
  select_loop-Winner (some b, n) [] a k h =
      let q : b ≡ a = ground (arith, h) in
      let e : n ≡ score a = rw q at k.1 in
      record { is_registered = rw q at k.0; ge_so_far = omega arith; ge_rest = tt }
  select_loop-Winner so_far (x ∷ list) a k h =
      let w = select_loop-Winner (consider x so_far) list a (consider-Known x so_far k) h in
      let (more, counts) = consider_ge x so_far k in
      record {
        is_registered = w.is_registered;
        ge_so_far = omega (arith, more, w.ge_so_far);
        ge_rest = (λ r. let le = counts r in omega (arith, le, w.ge_so_far), w.ge_rest);
      }

  select_loop-Mem :
      (so_far : Option ℕ × ℕ) (list : List ℕ) (a : ℕ)
      → select_loop so_far list ≡ some a
      → (so_far.0 ≡ some a) ⊎ Mem a list
  unfolding select_loop consider
  select_loop-Mem (best, n) [] a h = inl h
  select_loop-Mem (best, n) (x ∷ list) a h =
      elim (select_loop-Mem (consider x (best, n)) list a h) [
        | inl e ↦ consider-cases x (best, n) a e
        | inr m ↦ inr (mem-cons_of_mem x m)
      ]
    where
      consider-cases :
          (x : ℕ) (so_far : Option ℕ × ℕ) (a : ℕ)
          → (consider x so_far).0 ≡ some a
          → (so_far.0 ≡ some a) ⊎ Mem a (x ∷ list)
      consider-cases x (best, n) a e =
          elim (Bool-cases (registered x && (is_none best || ltb n (score x)))) [
            | inl y ↦
                let q : some x ≡ some a = rw y at e in
                let q' : x ≡ a = ground arith in inr (rw q' mem-cons_self)
            | inr y ↦ inl (rw y at e)
          ]

  -- The arbitrator that is chosen is a registered candidate, and no registered candidate has a
  -- higher score.
  pub select_best_arbitrator_max :
      (candidates : List ℕ) (a : ℕ)
      → select_best_arbitrator candidates ≡ ok a
      → (registered a ≡ true)
        × Mem a candidates
        × All
            (λ x.
              registered x ≡ true → composite_score (reputation x) ≤ composite_score (reputation a))
            candidates
  unfolding select_best_arbitrator
  select_best_arbitrator_max candidates a h =
      let e = ok_or-ok (select_loop (none, 0) candidates) _ h in
      let w = select_loop-Winner (none, 0) candidates a refl e in
      let m : Mem a candidates = elim (select_loop-Mem (none, 0) candidates a e) [
        | inl n ↦ ground arith
        | inr m ↦ m
      ] in
      (w.is_registered, m, w.ge_rest)
