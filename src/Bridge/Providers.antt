-- ===== src/Bridge/Providers.antt =====
-- The list of bridge providers: no provider twice, at most ten, and none found once deactivated.
use stellar_escrow.Prelude.{
  ◌≤◌, ◌<◌, ◌≡◌, refl, ap, ◌∙◌, arith, true, false, not, ◌||◌, none, List, [], ◌∷◌, ◌++◌, length,
  length-append, leb, ==-refl, ==→eq, Bool-cases, ◌⊎◌, inl, inr,
}
use stellar_escrow.Errors.{
  bridge_provider_limit_exceeded, bridge_provider_already_registered, bridge_provider_not_found,
}
use stellar_escrow.Soroban.{ok, err, Ensures, step, returned, at_ok, fail_if, fail_if-ok, ok_or}
use stellar_escrow.Bridge.{
  BridgeProvider, wormhole, ibc, axelar, layer_zero, custom, BridgeProviderConfig, Bridge,
  max_bridge_providers, same_provider, get_bridge_providers, has_provider, register_bridge_provider,
  find_active, get_bridge_provider, deactivate_first, deactivate_bridge_provider,
}

abbrev pub Distinct : List BridgeProviderConfig → Type 0
Distinct [] = Unit
Distinct (q ∷ qs) = (has_provider q.provider qs ≡ false) × Distinct qs

-- At most ten providers are registered, no two of them for one protocol.
pub record IsValid (s : Bridge) : Type 0 where
  pub bounded : length (get_bridge_providers s) ≤ max_bridge_providers
  pub distinct : Distinct (get_bridge_providers s)

same_provider_refl : (p : BridgeProvider) → same_provider p p ≡ true
same_provider_refl wormhole = refl
same_provider_refl ibc = refl
same_provider_refl axelar = refl
same_provider_refl layer_zero = refl
same_provider_refl (custom n) = ==-refl n

same_provider→eq : (p q : BridgeProvider) → same_provider p q ≡ true → p ≡ q
same_provider→eq wormhole wormhole h = refl
same_provider→eq ibc ibc h = refl
same_provider→eq axelar axelar h = refl
same_provider→eq layer_zero layer_zero h = refl
same_provider→eq (custom a) (custom b) h = ap custom (==→eq a b h)
same_provider→eq wormhole _ h = ground arith
same_provider→eq ibc _ h = ground arith
same_provider→eq axelar _ h = ground arith
same_provider→eq layer_zero _ h = ground arith
same_provider→eq (custom a) _ h = ground arith

same_provider_sym : (p q : BridgeProvider) → same_provider p q ≡ false → same_provider q p ≡ false
same_provider_sym p q h = elim (Bool-cases (same_provider q p)) [
  | inl e ↦
      let same = same_provider→eq q p e in
      let t : same_provider p q ≡ true = rw same (same_provider_refl p) in ground arith
  | inr e ↦ e
]

has_provider-append :
    (p : BridgeProvider) (qs : List BridgeProviderConfig) (x : BridgeProviderConfig)
    → has_provider p (qs ++ x ∷ []) ≡ has_provider p qs || same_provider x.provider p
unfolding has_provider
has_provider-append p [] x = ground arith
has_provider-append p (q ∷ qs) x = ground (arith, has_provider-append p qs x)

append-Distinct :
    (qs : List BridgeProviderConfig) (x : BridgeProviderConfig)
    → has_provider x.provider qs ≡ false
    → Distinct qs
    → Distinct (qs ++ x ∷ [])
unfolding has_provider
append-Distinct [] x new d = (refl, tt)
append-Distinct (q ∷ qs) x new d =
    let apart : same_provider q.provider x.provider ≡ false = ground arith in
    let back = same_provider_sym q.provider x.provider apart in
    let rest : has_provider x.provider qs ≡ false = ground arith in
    (has_provider-append q.provider qs x ∙ ground arith, append-Distinct qs x rest d.1)

deactivate_first-has :
    (p r : BridgeProvider) (qs : List BridgeProviderConfig)
    → has_provider r (deactivate_first p qs) ≡ has_provider r qs
unfolding has_provider deactivate_first
deactivate_first-has p r [] = refl
deactivate_first-has p r (q ∷ qs) = ground (arith, deactivate_first-has p r qs)

deactivate_first-Distinct :
    (p : BridgeProvider) (qs : List BridgeProviderConfig)
    → Distinct qs
    → Distinct (deactivate_first p qs)
unfolding deactivate_first has_provider
deactivate_first-Distinct p [] d = tt
deactivate_first-Distinct p (q ∷ qs) d = elim (Bool-cases (same_provider q.provider p)) [
  | inl e ↦ rw e d
  | inr e ↦ rw e (deactivate_first-has p q.provider qs ∙ d.0, deactivate_first-Distinct p qs d.1)
]

deactivate_first-length :
    (p : BridgeProvider) (qs : List BridgeProviderConfig)
    → length (deactivate_first p qs) ≡ length qs
unfolding deactivate_first
deactivate_first-length p [] = refl
deactivate_first-length p (q ∷ qs) = ground (arith, deactivate_first-length p qs)

absent_unfound :
    (p : BridgeProvider) (qs : List BridgeProviderConfig)
    → has_provider p qs ≡ false
    → find_active p qs ≡ none
unfolding has_provider find_active
absent_unfound p [] h = refl
absent_unfound p (q ∷ qs) h = ground (arith, absent_unfound p qs)

deactivated_unfound :
    (p : BridgeProvider) (qs : List BridgeProviderConfig)
    → Distinct qs
    → find_active p (deactivate_first p qs) ≡ none
unfolding find_active deactivate_first
deactivated_unfound p [] d = refl
deactivated_unfound p (q ∷ qs) d = elim (Bool-cases (same_provider q.provider p)) [
  | inl e ↦
      let same = same_provider→eq q.provider p e in
      let gone : has_provider p qs ≡ false = rw (← same) d.0 in rw (e, e) (absent_unfound p qs gone)
  | inr e ↦ rw (e, e) (deactivated_unfound p qs d.1)
]

others_found :
    (p r : BridgeProvider) (qs : List BridgeProviderConfig)
    → same_provider p r ≡ false
    → find_active r (deactivate_first p qs) ≡ find_active r qs
unfolding find_active deactivate_first
others_found p r [] ne = refl
others_found p r (q ∷ qs) ne = elim (Bool-cases (same_provider q.provider p)) [
  | inl e ↦
      let same = same_provider→eq q.provider p e in
      let apart : same_provider q.provider r ≡ false = rw same ne in rw (e, apart) refl
  | inr e ↦ rw e (ground (arith, others_found p r qs ne))
]

register_bridge_provider-IsValid :
    (config : BridgeProviderConfig) (s : Bridge)
    → IsValid s
    → Ensures IsValid (register_bridge_provider config s)
unfolding register_bridge_provider get_bridge_providers
register_bridge_provider-IsValid config s v =
    let ps = get_bridge_providers s in
    step (fail_if (leb max_bridge_providers (length ps)) bridge_provider_limit_exceeded) λ _ few.
      step (fail_if (has_provider config.provider ps) bridge_provider_already_registered) λ _ new.
        let room = fail_if-ok _ _ few in
        let short : length ps < max_bridge_providers = ground arith in
        returned (record {
          bounded = omega (arith, length-append ps (config ∷ []), short);
          distinct = append-Distinct ps config (fail_if-ok _ _ new) v.distinct;
        })

-- Registration and deactivation keep the list of providers at most ten long and without a second
-- entry for one protocol.
pub providers-IsValid :
    (s s' : Bridge)
    → IsValid s
    → ((config : BridgeProviderConfig) × (register_bridge_provider config s ≡ ok s'))
      ⊎ ((p : BridgeProvider) × (deactivate_bridge_provider p s ≡ ok s'))
    → IsValid s'
unfolding deactivate_bridge_provider get_bridge_providers
providers-IsValid s s' v (inl (config, h)) = at_ok (register_bridge_provider-IsValid config s v) h
providers-IsValid s s' v (inr (p, h)) =
    let ps = get_bridge_providers s in
    at_ok {P = IsValid}
      (step (fail_if (not (has_provider p ps)) bridge_provider_not_found) λ _ _. returned (record {
        bounded = omega (arith, deactivate_first-length p ps, v.bounded);
        distinct = deactivate_first-Distinct p ps v.distinct;
      }))
      h

-- A provider that was deactivated is no longer found, and every other protocol is answered as before.
pub deactivate-get_bridge_provider :
    (p : BridgeProvider) (s s' : Bridge)
    → IsValid s
    → deactivate_bridge_provider p s ≡ ok s'
    → (get_bridge_provider p s' ≡ err bridge_provider_not_found)
      × ((r : BridgeProvider)
          → same_provider p r ≡ false
          → get_bridge_provider r s' ≡ get_bridge_provider r s)
unfolding deactivate_bridge_provider get_bridge_provider get_bridge_providers ok_or
deactivate-get_bridge_provider p s s' v h =
    let ps = get_bridge_providers s in
    at_ok
      {P = λ (s' : Bridge).
        (get_bridge_provider p s' ≡ err bridge_provider_not_found)
        × ((r : BridgeProvider)
            → same_provider p r ≡ false
            → get_bridge_provider r s' ≡ get_bridge_provider r s)}
      (step (fail_if (not (has_provider p ps)) bridge_provider_not_found) λ _ _.
        returned
          (rw (deactivated_unfound p ps v.distinct) refl, λ r ne. rw (others_found p r ps ne) refl))
      h
