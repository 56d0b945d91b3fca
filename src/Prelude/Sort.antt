-- ===== src/Prelude/Sort.antt =====
-- The insertion sort that oracle.rs and queries.rs write out over a vector: the item at each index
-- moves towards the front while the item before it is `above` it. The sorted front of the vector
-- is kept back to front, so that the item before is the head.
use mathlib.Core.Path.{◌≡◌}
use mathlib.Core.Bool.{Bool, true, false}
use mathlib.Core.Logic.{inl, inr}
use mathlib.Core.List.{
  List, [], ◌∷◌, ◌++◌, reverse_aux, reverse, reverse_perm, Perm, append-nil, perm_middle,
}
use mathlib.Core.List.Perm
use stellar_escrow.Prelude.Tests.{if◌then◌else◌, Bool-cases}
use stellar_escrow.Prelude.Lists.{All}

pub record SortOrder {A : Type 0} (above : A → A → Bool) : Type 0 where
  pub asym : (a b : A) → above a b ≡ true → above b a ≡ false
  pub trans : (a b c : A) → above a b ≡ false → above b c ≡ false → above a c ≡ false

module _ {A : Type 0} (above : A → A → Bool) where
  unfoldable pub insert_back : A → List A → List A
  insert_back x [] = x ∷ []
  insert_back x (a ∷ front) =
      let moved = insert_back x front in if above a x then a ∷ moved else x ∷ a ∷ front

  unfoldable pub sort_into : List A → List A → List A
  unfolding insert_back
  sort_into front [] = front
  sort_into front (x ∷ xs) = sort_into (insert_back x front) xs

  unfoldable pub insertion_sort : List A → List A
  unfolding sort_into
  insertion_sort xs = reverse (sort_into [] xs)

  unfoldable pub Sorted : List A → Type 0
  Sorted [] = Unit
  Sorted (x ∷ xs) = All (λ y. above x y ≡ false) xs × Sorted xs

  SortedBack : List A → Type 0
  SortedBack [] = Unit
  SortedBack (a ∷ front) = All (λ b. above b a ≡ false) front × SortedBack front

  insert_back-Perm : (x : A) (front : List A) → Perm (insert_back x front) (x ∷ front)
  unfolding insert_back
  insert_back-Perm x [] = Perm.refl (x ∷ [])
  insert_back-Perm x (a ∷ front) = elim (Bool-cases (above a x)) [
    | inl e ↦ rw e (Perm.trans (Perm.cons a (insert_back-Perm x front)) (Perm.swap x a front))
    | inr e ↦ rw e (Perm.refl (x ∷ a ∷ front))
  ]

  sort_into-Perm : (xs front : List A) → Perm (sort_into front xs) (xs ++ front)
  unfolding sort_into
  sort_into-Perm [] front = Perm.refl front
  sort_into-Perm (x ∷ xs) front =
      Perm.trans (sort_into-Perm xs (insert_back x front))
        (Perm.trans (Perm.append_left xs (insert_back-Perm x front)) (perm_middle xs front))

  -- The sort only moves items.
  pub insertion_sort-Perm : (xs : List A) → Perm (insertion_sort xs) xs
  unfolding insertion_sort
  insertion_sort-Perm xs =
      Perm.trans (reverse_perm (sort_into [] xs)) (rw (append-nil xs) at (sort_into-Perm xs []))

  All-insert_back :
      (P : A → Type 0) (x : A) (front : List A) → P x → All P front → All P (insert_back x front)
  unfolding insert_back
  All-insert_back P x [] p ps = (p, tt)
  All-insert_back P x (a ∷ front) p (q, ps) = elim (Bool-cases (above a x)) [
    | inl e ↦ rw e (q, All-insert_back P x front p ps)
    | inr e ↦ rw e (p, (q, ps))
  ]

  All-trans :
      (order : SortOrder above) (a x : A) (front : List A)
      → above a x ≡ false
      → All (λ b. above b a ≡ false) front
      → All (λ b. above b x ≡ false) front
  All-trans order a x [] e h = tt
  All-trans order a x (b ∷ front) e (h, hs) =
      (order.trans b a x h e, All-trans order a x front e hs)

  insert_back-Sorted :
      (order : SortOrder above) (x : A) (front : List A)
      → SortedBack front
      → SortedBack (insert_back x front)
  unfolding insert_back SortedBack
  insert_back-Sorted order x [] h = (tt, tt)
  insert_back-Sorted order x (a ∷ front) (h, hs) = elim (Bool-cases (above a x)) [
    | inl e ↦ rw e (
      All-insert_back (λ b. above b a ≡ false) x front (order.asym a x e) h,
      insert_back-Sorted order x front hs,
    )
    | inr e ↦ rw e ((e, All-trans order a x front e h), (h, hs))
  ]

  sort_into-Sorted :
      (order : SortOrder above) (xs front : List A)
      → SortedBack front
      → SortedBack (sort_into front xs)
  unfolding sort_into
  sort_into-Sorted order [] front h = h
  sort_into-Sorted order (x ∷ xs) front h =
      sort_into-Sorted order xs (insert_back x front) (insert_back-Sorted order x front h)

  Fits : List A → List A → Type 0
  Fits front acc = All (λ a. All (λ b. above a b ≡ false) acc) front

  reverse-Sorted :
      (front acc : List A)
      → SortedBack front
      → Sorted acc
      → Fits front acc
      → Sorted (reverse_aux front acc)
  unfolding SortedBack Sorted Fits
  reverse-Sorted [] acc h s f = s
  reverse-Sorted (a ∷ front) acc (h, hs) s (f, fs) =
      reverse-Sorted front (a ∷ acc) hs (f, s) (both front h fs)
    where
      both : (l : List A) → All (λ b. above b a ≡ false) l → Fits l acc → Fits l (a ∷ acc)
      both [] p q = tt
      both (b ∷ l) (p, ps) (q, qs) = ((p, q), both l ps qs)

  All-Unit : {P : A → Type 0} → ((a : A) → P a) → (l : List A) → All P l
  All-Unit f [] = tt
  All-Unit f (a ∷ l) = (f a, All-Unit f l)

  -- The sort leaves no item above a later one.
  pub insertion_sort-Sorted : SortOrder above → (xs : List A) → Sorted (insertion_sort xs)
  unfolding insertion_sort SortedBack Sorted Fits
  insertion_sort-Sorted order xs =
      let back = sort_into [] xs in
      reverse-Sorted back [] (sort_into-Sorted order xs [] tt) tt (All-Unit (λ a. tt) back)
