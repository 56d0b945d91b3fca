-- ===== src/Oracle/Registry.antt =====
-- The list of oracles of a pair: what registration and removal keep, and how one undoes the other.
use stellar_escrow.Prelude.{
  ℕ, ◌≤◌, ◌≡◌, refl, ap, arith, List, [], ◌∷◌, ◌++◌, true, false, ◌||◌, length, length-append, leb,
  ◌==◌, ==-refl,
}
use stellar_escrow.Errors.{oracle_list_full, oracle_already_registered}
use stellar_escrow.Soroban.{ok, fail_if, fail_if-ok, step, returned, at_ok}
use stellar_escrow.Oracle.{
  OracleEntry, Oracles, max_oracles, registered, without, get_oracles, save_oracles,
  register_oracle, remove_oracle,
}

-- No address stands in the list twice.
unfoldable pub Distinct : List OracleEntry → Type 0
Distinct [] = Unit
Distinct (e ∷ list) = (registered e.address list ≡ false) × Distinct list

pub record IsValid (list : List OracleEntry) : Type 0 where
  pub short : length list ≤ max_oracles
  pub distinct : Distinct list

registered-append :
    (o : ℕ) (list : List OracleEntry) (e : OracleEntry)
    → registered o (list ++ (e ∷ [])) ≡ (registered o list || e.address == o)
unfolding registered
registered-append o [] e = ground arith
registered-append o (x ∷ list) e = ground (arith, registered-append o list e)

Distinct-append :
    (list : List OracleEntry) (e : OracleEntry)
    → Distinct list
    → registered e.address list ≡ false
    → Distinct (list ++ (e ∷ []))
unfolding Distinct registered
Distinct-append [] e d n = (refl, tt)
Distinct-append (x ∷ list) e (d, ds) n =
    let later : registered e.address list ≡ false = ground arith in
    let ne : (e.address == x.address) ≡ false = ground arith in
    (rw (registered-append x.address list e) (ground arith), Distinct-append list e ds later)

saved_list :
    (base quote : ℕ) (list : List OracleEntry) (s : Oracles)
    → get_oracles (save_oracles base quote list s) base quote ≡ list
unfolding get_oracles save_oracles
saved_list base quote list s = rw (==-refl base, ==-refl quote) refl

-- Registering an oracle keeps the list short and without a repeated address.
pub register_oracle-IsValid :
    (base quote oracle priority : ℕ) (s s' : Oracles)
    → IsValid (get_oracles s base quote)
    → register_oracle base quote oracle priority s ≡ ok s'
    → IsValid (get_oracles s' base quote)
unfolding register_oracle
register_oracle-IsValid base quote oracle priority s s' v h =
    let list = get_oracles s base quote in
    let e : OracleEntry = record { address = oracle; priority = priority } in
    at_ok {P = λ r. IsValid (get_oracles r base quote)}
      (step (fail_if (leb max_oracles (length list)) oracle_list_full) λ _ e_full.
        step (fail_if (registered oracle list) oracle_already_registered) λ _ e_new. returned (
          rw (saved_list base quote (list ++ (e ∷ [])) s) (record {
            short =
                let room = fail_if-ok _ _ e_full in rw (length-append list (e ∷ [])) (ground arith);
            distinct = Distinct-append list e v.distinct (fail_if-ok _ _ e_new);
          })))
      h

without_last :
    (list : List OracleEntry) (e : OracleEntry)
    → registered e.address list ≡ false
    → without e.address (list ++ (e ∷ [])) ≡ list
unfolding registered without
without_last [] e n = rw (==-refl e.address) refl
without_last (x ∷ list) e n =
    let later : registered e.address list ≡ false = ground arith in
    let ne : (x.address == e.address) ≡ false = ground arith in
    rw ne (ap (λ (l : List OracleEntry). x ∷ l) (without_last list e later))

remove_oracle_runs :
    (base quote oracle : ℕ) (now : List OracleEntry) (s : Oracles)
    → get_oracles s base quote ≡ now
    → registered oracle now ≡ true
    → remove_oracle base quote oracle s ≡ ok (save_oracles base quote (without oracle now) s)
unfolding remove_oracle fail_if
remove_oracle_runs base quote oracle now s e r = rw (e, r) refl

-- Removing an oracle that was just registered returns, and gives the list back as it was.
pub register-remove_oracle :
    (base quote oracle priority : ℕ) (s s' : Oracles)
    → register_oracle base quote oracle priority s ≡ ok s'
    → (s'' : Oracles) × (remove_oracle base quote oracle s' ≡ ok s'')
      × (get_oracles s'' base quote ≡ get_oracles s base quote)
unfolding register_oracle remove_oracle
register-remove_oracle base quote oracle priority s s' h =
    let list = get_oracles s base quote in
    let e : OracleEntry = record { address = oracle; priority = priority } in
    let now = list ++ (e ∷ []) in
    at_ok
      {P = λ r.
        (s'' : Oracles) × (remove_oracle base quote oracle r ≡ ok s'')
        × (get_oracles s'' base quote ≡ list)}
      (step (fail_if (leb max_oracles (length list)) oracle_list_full) λ _ _.
        step (fail_if (registered oracle list) oracle_already_registered) λ _ e_new. returned (
          save_oracles base quote (without oracle now) (save_oracles base quote now s),
          remove_oracle_runs base quote oracle now _ (saved_list base quote now s)
              (rw (registered-append oracle list e, fail_if-ok _ _ e_new) (==-refl oracle)),
          rw (saved_list base quote (without oracle now) (save_oracles base quote now s))
              (without_last list e (fail_if-ok _ _ e_new)),
        ))
      h
