-- ===== src/Queries/Slices.antt =====
-- The slice of a list that a page is.
use stellar_escrow.Prelude.{
  ℕ, zero, suc, ◌+◌, ◌-◌, ◌≡◌, refl, ap, min, arith, List, [], ◌∷◌, length, take, drop,
}
use stellar_escrow.Queries.{page_of}

module _ {A : Type 0} where
  length-drop : (n : ℕ) (l : List A) → length (drop n l) ≡ length l - n
  length-drop zero l = omega arith
  length-drop (suc n) [] = omega arith
  length-drop (suc n) (x ∷ l) = omega (arith, length-drop n l)

  drop-min : (n : ℕ) (l : List A) → drop (min n (length l)) l ≡ drop n l
  drop-min zero l = let e : min 0 (length l) ≡ 0 = omega arith in rw e refl
  drop-min (suc n) [] = let e : min (suc n) 0 ≡ 0 = omega arith in rw e refl
  drop-min (suc n) (x ∷ l) =
      let e : min (suc n) (suc (length l)) ≡ suc (min n (length l)) = omega arith in
      rw e (drop-min n l)

  take-min : (n : ℕ) (l : List A) → take (min n (length l)) l ≡ take n l
  take-min zero l = let e : min 0 (length l) ≡ 0 = omega arith in rw e refl
  take-min (suc n) [] = let e : min (suc n) 0 ≡ 0 = omega arith in rw e refl
  take-min (suc n) (x ∷ l) =
      let e : min (suc n) (suc (length l)) ≡ suc (min n (length l)) = omega arith in
      rw e (ap (λ r. x ∷ r) (take-min n l))

  -- A page is what is left of the list after the offset, cut to the limit.
  pub page_of-slice :
      (offset limit : ℕ) (l : List A) → page_of offset limit l ≡ take limit (drop offset l)
  unfolding page_of
  page_of-slice offset limit l =
      let len = length-drop offset l in
      let e : min (min offset (length l) + limit) (length l) - min offset (length l)
          ≡ min limit (length (drop offset l)) =
        omega (arith, len) in
      rw (e, drop-min offset l) (take-min limit (drop offset l))
