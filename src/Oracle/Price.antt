-- ===== src/Oracle/Price.antt =====
-- Which oracle's price `get_price` returns.
use mathlib.Core.List.{Mem, not-mem-nil, mem-cons_self, mem-cons_of_mem, eq-or-mem_of_mem-cons}
use mathlib.Core.List.Perm
use mathlib.Core.Logic.Or
use native.Mathlib.Bridge.{le_prop}
use stellar_escrow.Prelude.{
  ℕ, ◌≤◌, ◌<◌, ◌-◌, Option-cases, ap, ◌≡◌, ◌≢◌, sym, ◌∙◌, arith, Option, none, some, Bool-cases,
  true, List, [], ◌∷◌, All, false, inl, inr, ◌⊎◌, length, ◌==◌,
}
use stellar_escrow.Prelude.Sort.{
  SortOrder, insertion_sort, insertion_sort-Perm, insertion_sort-Sorted, Sorted,
}
use stellar_escrow.Errors.{ContractError, oracle_unavailable, oracle_not_found}
use stellar_escrow.Soroban.{
  Result, ok, err, trap, or_trap, Ctx, fail_if, ok_or, ok_or-ok, step, at_ok, ensured,
}
use stellar_escrow.Oracle.{
  PriceData, OracleEntry, Oracles, queried_after, get_oracles, is_fresh, fresh_of, or_else,
  first_fresh, get_price,
}

priority_order : SortOrder queried_after
priority_order = record { asym = λ a b h. ground arith; trans = λ a b d h k. ground arith }

fresh-recent : (c : Ctx) (p : PriceData) → is_fresh c p ≡ true → c.timestamp - p.timestamp ≤ 300
unfolding is_fresh
fresh-recent c p h = ground arith

stale_not_recent :
    (c : Ctx) (p : PriceData) → is_fresh c p ≡ false → ¬ (c.timestamp - p.timestamp ≤ 300)
unfolding is_fresh
stale_not_recent c p h le = ground arith

module _ (lastprice : ℕ → ℕ → ℕ → Option (Option PriceData)) (c : Ctx) (base quote : ℕ) where
  -- The oracle answers `p`, which is at most 300 seconds old.
  abbrev pub AnswersRecent : OracleEntry → PriceData → Type 0
  AnswersRecent e p =
      (lastprice e.address base quote ≡ some (some p)) × (c.timestamp - p.timestamp ≤ 300)

  abbrev loop : List OracleEntry → Result (Option PriceData)
  loop list = first_fresh lastprice c base quote list

  -- The loop ends at its head, or the head has no recent answer and the loop goes on.
  first_fresh-cons :
      (e : OracleEntry) (list : List OracleEntry) (o : Option PriceData)
      → loop (e ∷ list) ≡ ok o
      → ((p : PriceData) × (o ≡ some p) × AnswersRecent e p)
        ⊎ (((q : PriceData) → ¬ (AnswersRecent e q)) × (loop list ≡ ok o))
  unfolding first_fresh fresh_of or_else or_trap
  first_fresh-cons e list o h = elim (Option-cases (lastprice e.address base quote)) [
    | inl n ↦ let bad : trap ≡ ok o = rw n at h in ground (arith, bad)
    | inr (none, n) ↦
        let next : loop list ≡ ok o = rw n at h in
        inr ((λ q (k, _). let bad = sym n ∙ k in ground (arith, bad)), next)
    | inr (some p, n) ↦ elim (Bool-cases (is_fresh c p)) [
      | inl f ↦
          let found : ok (some p) ≡ ok o = rw (n, f) at h in
          inl (p, ground (arith, found), (n, fresh-recent c p f))
      | inr f ↦
          let next : loop list ≡ ok o = rw (n, f) at h in
          inr (
            (λ q (k, le).
                let same : p ≡ q = let e = sym n ∙ k in ground (arith, e) in
                stale_not_recent c p f (rw same le)),
            next,
          )
    ]
  ]

  -- The price is the recent answer of the entry, and no entry of the list with a recent answer comes
  -- before it.
  pub record Best (list : List OracleEntry) (p : PriceData) : Type 0 where
    pub entry : OracleEntry
    pub listed : Mem entry list
    pub answer : AnswersRecent entry p
    pub least :
        (e : OracleEntry) (q : PriceData)
        → Mem e list
        → AnswersRecent e q
        → entry.priority ≤ e.priority

  head_le :
      (e x : OracleEntry) (list : List OracleEntry)
      → All (λ y. queried_after e y ≡ false) list
      → Mem x list
      → e.priority ≤ x.priority
  head_le e x [] h m = absurd (not-mem-nil m)
  head_le e x (y ∷ list) (h, hs) m =
      Or.elim (le_prop) (eq-or-mem_of_mem-cons m)
        (λ q.
          let k : e.priority ≤ y.priority = ground arith in
          rw (ap (λ (o : OracleEntry). o.priority) q) k)
        (λ n. head_le e x list hs n)

  first_fresh-Best :
      (list : List OracleEntry) (p : PriceData)
      → Sorted queried_after list
      → loop list ≡ ok (some p)
      → Best list p
  unfolding Sorted first_fresh
  first_fresh-Best [] p s h = ground arith
  first_fresh-Best (e ∷ list) p (s, ss) h = elim (first_fresh-cons e list (some p) h) [
    | inl (r, same, recent) ↦ record {
      entry = e;
      listed = mem-cons_self;
      answer = let is : p ≡ r = ground (arith, same) in rw is recent;
      least = λ x q m f.
          Or.elim (le_prop) (eq-or-mem_of_mem-cons m)
            (λ k.
              let j : x.priority ≡ e.priority = ap (λ (o : OracleEntry). o.priority) k in
              omega arith)
            (λ m'. head_le e x list s m');
    }
    | inr (n, found) ↦
        let b = first_fresh-Best list p ss found in
        record {
          entry = b.entry;
          listed = mem-cons_of_mem e b.listed;
          answer = b.answer;
          least = λ x q m f.
              Or.elim (le_prop) (eq-or-mem_of_mem-cons m) (λ k. absurd (n q (rw k at f)))
                (λ m'. b.least x q m' f);
        }
  ]

  unsorted :
      (list : List OracleEntry) (p : PriceData)
      → Best (insertion_sort queried_after list) p
      → Best list p
  unsorted list p b =
      let moved = insertion_sort-Perm queried_after list in
      record {
        entry = b.entry;
        listed = (Perm.mem_iff moved).0 b.listed;
        answer = b.answer;
        least = λ e q m f. b.least e q ((Perm.mem_iff moved).1 m) f;
      }

  -- `get_price` returns the answer, at most 300 seconds old, of a registered oracle, and no registered
  -- oracle of a smaller priority value has one.
  pub get_price-Best :
      (s : Oracles) (p : PriceData)
      → get_price lastprice c base quote s ≡ ok p
      → Best (get_oracles s base quote) p
  unfolding get_price
  get_price-Best s p h =
      let list = get_oracles s base quote in
      let sorted = insertion_sort queried_after list in
      at_ok {P = Best list}
        (step (fail_if (length list == 0) oracle_not_found) λ _ _. step (loop sorted) λ found e_f.
          ensured (ok_or found oracle_unavailable) λ q e_q.
            let is = ok_or-ok found oracle_unavailable e_q in
            let recent : loop sorted ≡ ok (some q) = rw is at e_f in
            unsorted list q (
              first_fresh-Best sorted q (insertion_sort-Sorted queried_after priority_order list)
                recent))
        h

  first_fresh-none :
      (list : List OracleEntry)
      → loop list ≡ ok none
      → (e : OracleEntry) → Mem e list
      → (q : PriceData) → ¬ (AnswersRecent e q)
  first_fresh-none [] h e m q f = not-mem-nil m
  first_fresh-none (x ∷ list) h e m q f = elim (first_fresh-cons x list none h) [
    | inl (r, bad, _) ↦ ground (arith, bad)
    | inr (n, rest) ↦
        Or.elim (hlevel) (eq-or-mem_of_mem-cons m) (λ k. n q (rw k at f))
          (λ m'. first_fresh-none list rest e m' q f)
  ]

  -- The loop reports no error of its own.
  first_fresh-no_err : (list : List OracleEntry) (e : ContractError) → loop list ≢ err e
  unfolding first_fresh or_trap or_else
  first_fresh-no_err [] e h = ground arith
  first_fresh-no_err (x ∷ list) e h = let rest = first_fresh-no_err list e in ground arith

  -- When it reports that no oracle is available, some oracle is registered and none of them has a
  -- recent answer.
  pub get_price_unavailable :
      (s : Oracles)
      → get_price lastprice c base quote s ≡ err oracle_unavailable
      → (0 < length (get_oracles s base quote))
        × ((e : OracleEntry) (q : PriceData)
            → Mem e (get_oracles s base quote)
            → ¬ (AnswersRecent e q))
  unfolding get_price fail_if ok_or
  get_price_unavailable s h =
      let list = get_oracles s base quote in
      let sorted = insertion_sort queried_after list in
      let quiet = first_fresh-no_err sorted oracle_unavailable in
      let some_listed : 0 < length list = ground arith in
      let nothing : loop sorted ≡ ok none = ground arith in
      (
        some_listed,
        λ e q m.
            first_fresh-none sorted nothing e
              ((Perm.mem_iff (insertion_sort-Perm queried_after list)).1 m) q,
      )
