-- ===== src/Templates/Resolution.antt =====
-- What a template resolves to after an update.

use stellar_escrow.Prelude.{ℕ, ◌+◌, ◌≡◌, ◌≢◌, ap, ◌∙◌, arith, true, not, some, List, ◌==◌, ==-refl}
use stellar_escrow.Errors.{unauthorized}
use stellar_escrow.Soroban.{
  ok, Ctx, step, returned, at_ok, fail_if, fail_if-ok, ok_or, ok_or-ok, checked_add, checked_add-ok,
  u32_mod,
}
use stellar_escrow.Templates.{
  TradeTemplate, Templates, get_template, validate_name, update_template, resolve_terms,
}
use stellar_escrow.Templates.Versions.{last-append}

module _ {T : Type 0} (max_versions name_max_len : ℕ) where
  -- After an update of an active template, resolving it gives the terms of the update under the version
  -- number one above the old one, and the caller was the owner; no other template is changed.
  pub update_template-resolve_terms :
      (c : Ctx) (caller id : ℕ) (name : List ℕ) (terms : T) (s s' : Templates T)
      (x : TradeTemplate T)
      → s.entries id ≡ some x
      → x.active ≡ true
      → update_template max_versions name_max_len c caller id name terms s ≡ ok s'
      → (resolve_terms id s' ≡ ok (terms, x.current_version + 1))
        × (x.owner ≡ caller)
        × ((j : ℕ) → j ≢ id → s'.entries j ≡ s.entries j)
  unfolding update_template get_template resolve_terms ok_or fail_if
  update_template-resolve_terms c caller id name terms s s' x found on h =
      at_ok
        {P = λ (s' : Templates T).
          (resolve_terms id s' ≡ ok (terms, x.current_version + 1))
          × (x.owner ≡ caller)
          × ((j : ℕ) → j ≢ id → s'.entries j ≡ s.entries j)}
        (step (validate_name name_max_len name) λ _ _. step (get_template id s) λ y e.
          step (fail_if (not (y.owner == caller)) unauthorized) λ _ own.
            step (checked_add u32_mod y.current_version 1) λ new_version sum.
              let is = (checked_add-ok u32_mod y.current_version 1 sum).1 in
              let same : y ≡ x = ground (arith, found, ok_or-ok (s.entries id) _ e) in
              let mine = fail_if-ok _ _ own in
              let same_owner : y.owner ≡ x.owner = ap (λ (z : TradeTemplate T). z.owner) same in
              let active : y.active ≡ true = ap (λ (z : TradeTemplate T). z.active) same ∙ on in
              let n = is ∙ ap (λ (z : TradeTemplate T). z.current_version + 1) same in
              returned (
                rw (==-refl id) (simp (active, last-append, n)),
                ground arith,
                λ j ne. ground arith,
              ))
        h
