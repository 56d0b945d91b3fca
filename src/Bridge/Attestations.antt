-- ===== src/Bridge/Attestations.antt =====
-- An attestation is accepted once.
use stellar_escrow.Prelude.{
  ℕ, ◌≡◌, refl, ap, ◌∙◌, arith, Bool, true, false, not, ◌&&◌, ◌||◌, Option, some, List, [], ◌∷◌,
  length, ltb, leb, ◌==◌, ◌+◌, get_or, update, if◌then◌else◌, Bool-cases, inl, inr,
}
use stellar_escrow.Errors.{
  bridge_provider_limit_exceeded, bridge_provider_already_registered, bridge_provider_not_found,
  bridge_trade_expired, bridge_retry_limit_exceeded, invalid_status,
}
use stellar_escrow.Soroban.{
  Ctx, Ensures, step, returned, at_ok, fail_if, within_or_trap, checked_add, u32_mod, u64_mod,
}
use stellar_escrow.Bridge.{
  CrossChainTrade, BridgeAttestation, BridgeValidation, Bridge, max_bridge_providers,
  bridge_attestation_timeout_secs, bridge_retry_limit, invalid, is_some, is_failed, is_expired,
  has_provider, get_bridge_providers, get_bridge_provider, get_cross_chain_trade,
  register_bridge_provider, deactivate_bridge_provider, create_cross_chain_trade,
  update_attestation_status, validate_bridge_attestation, pause_bridge, resume_bridge,
  get_next_bridge_nonce, retry_bridge_attestation, rollback_cross_chain_trade,
}
use stellar_escrow.Bridge.Calls.{
  Call, registering, deactivating, creating, updating, pausing, resuming, numbering, retrying,
  rolling_back, Trace, start, call, accepting, refusing,
}

abbrev pub listed : ℕ → List ℕ → Bool
listed n [] = false
listed n (m ∷ ms) = if n == m then true else listed n ms

-- No id stands in the list twice.
abbrev pub Distinct : List ℕ → Type 0
Distinct [] = Unit
Distinct (n ∷ ns) = (listed n ns ≡ false) × Distinct ns

module _ (c : Ctx) (s : Bridge) where
  -- Only a validation writes an attestation.
  Call-attestations : (s' : Bridge) → Call c s s' → s'.attestations ≡ s.attestations
  unfolding register_bridge_provider deactivate_bridge_provider create_cross_chain_trade
      update_attestation_status get_next_bridge_nonce retry_bridge_attestation
      rollback_cross_chain_trade pause_bridge resume_bridge
  Call-attestations s' (registering config h) =
      at_ok {P = λ (s' : Bridge). s'.attestations ≡ s.attestations}
        (step
          (fail_if (leb max_bridge_providers (length (get_bridge_providers s)))
            bridge_provider_limit_exceeded)
          λ _ _.
            step
              (fail_if (has_provider config.provider (get_bridge_providers s))
                bridge_provider_already_registered)
              λ _ _. returned refl)
        h
  Call-attestations s' (deactivating p h) =
      at_ok {P = λ (s' : Bridge). s'.attestations ≡ s.attestations}
        (step (fail_if (not (has_provider p (get_bridge_providers s))) bridge_provider_not_found)
          λ _ _. returned refl)
        h
  Call-attestations s' (creating id chain hash p attestation fee x h) =
      at_ok {P = λ (r : Bridge × CrossChainTrade). r.0.attestations ≡ s.attestations}
        (step (get_bridge_provider p s) λ _ _. returned refl) h
  Call-attestations s' (updating id status confirmations h) =
      at_ok {P = λ (s' : Bridge). s'.attestations ≡ s.attestations}
        (step (get_cross_chain_trade id s) λ x _.
          step (within_or_trap u64_mod (x.attestation_timestamp + bridge_attestation_timeout_secs))
            λ deadline _.
              step (fail_if (ltb deadline c.timestamp) bridge_trade_expired) λ _ _. returned refl)
        h
  Call-attestations s' (pausing e) = rw e refl
  Call-attestations s' (resuming e) = rw e refl
  Call-attestations s' (numbering n h) =
      at_ok {P = λ (r : Bridge × ℕ). r.0.attestations ≡ s.attestations}
        (step (checked_add u64_mod (get_or s.nonce 0) 1) λ _ _. returned refl) h
  Call-attestations s' (retrying id h) =
      at_ok {P = λ (s' : Bridge). s'.attestations ≡ s.attestations}
        (step (get_cross_chain_trade id s) λ x _.
          step (fail_if (leb bridge_retry_limit x.retry_count) bridge_retry_limit_exceeded)
            λ _ _. step (within_or_trap u32_mod (x.retry_count + 1)) λ _ _. returned refl)
        h
  Call-attestations s' (rolling_back id x h) =
      at_ok {P = λ (r : Bridge × CrossChainTrade). r.0.attestations ≡ s.attestations}
        (step (get_cross_chain_trade id s) λ y _.
          step
            (fail_if (not (is_failed y.attestation_status) && not (is_expired y.attestation_status))
              invalid_status)
            λ _ _. returned refl)
        h

-- What a validation that answers has found and written.
pub record Answered (a : BridgeAttestation) (s s' : Bridge) (v : BridgeValidation) : Type 0 where
  pub accepted :
      v.valid ≡ true
      → (is_some (s.attestations a.attestation_id) ≡ false)
        × (s' ≡ record s { attestations = update s.attestations a.attestation_id (some a) })
  pub refused : v.valid ≡ false → s' ≡ s
  pub trades : s'.trades ≡ s.trades

pub validate_bridge_attestation-Answered :
    (a : BridgeAttestation) (s : Bridge)
    → Ensures
        (λ (r : Bridge × BridgeValidation). Answered a s r.0 r.1)
        (validate_bridge_attestation a s)
unfolding validate_bridge_attestation
validate_bridge_attestation-Answered a s = step (get_bridge_provider a.provider s) λ config _.
    elim (Bool-cases (length a.signature == 0)) [
      | inl e ↦ rw e (returned (unanswered 1))
      | inr e ↦
          rw e
            (elim (Bool-cases
              (ltb a.amount config.min_trade_amount || ltb config.max_trade_amount a.amount)) [
                | inl f ↦ rw f (returned (unanswered 2))
                | inr f ↦ rw f (elim (Bool-cases (is_some (s.attestations a.attestation_id))) [
                  | inl g ↦ rw g (returned (unanswered 3))
                  | inr g ↦ rw g (
                      returned
                        (record { accepted = λ h. (g, refl); refused = λ h. cc; trades = refl }))
                ])
              ])
    ]
  where
    unanswered : (code : ℕ) → Answered a s s (invalid code)
    unanswered code = record { accepted = λ h. cc; refused = λ h. refl; trades = refl }

-- The attestations that were accepted are recorded.
record Recorded (ids : List ℕ) (s : Bridge) : Type 0 where
  found : (n : ℕ) → listed n ids ≡ true → is_some (s.attestations n) ≡ true
  distinct : Distinct ids

trace-Recorded : {s : Bridge} {ids : List ℕ} {s' : Bridge} → Trace s ids s' → Recorded ids s'
trace-Recorded start = record { found = λ n h. cc; distinct = tt }
trace-Recorded (call {s' = s'} {s'' = s''} c calls k) =
    let r = trace-Recorded calls in
    let same = Call-attestations c s' s'' k in
    record {
      found = λ n h. ap (λ (m : ℕ → Option BridgeAttestation). is_some (m n)) same ∙ r.found n h;
      distinct = r.distinct;
    }
trace-Recorded (refusing {s' = s'} {s'' = s''} a v calls h no_) =
    let r = trace-Recorded calls in
    let same = (at_ok (validate_bridge_attestation-Answered a s') h).refused no_ in
    record {
      found = λ n g. ap (λ (z : Bridge). is_some (z.attestations n)) same ∙ r.found n g;
      distinct = r.distinct;
    }
trace-Recorded (accepting {ids = ids} {s' = s'} {s'' = s''} a v calls h yes_) =
    let r = trace-Recorded calls in
    let (new, after) = (at_ok (validate_bridge_attestation-Answered a s') h).accepted yes_ in
    let unlisted : listed a.attestation_id ids ≡ false =
      elim (Bool-cases (listed a.attestation_id ids)) [
        | inl e ↦ let f = r.found a.attestation_id e in ground arith
        | inr e ↦ e
      ] in
    record {
      found =
          λ n g. ap (λ (z : Bridge). is_some (z.attestations n)) after ∙ ground (arith, r.found n);
      distinct = (unlisted, r.distinct);
    }

-- Along every sequence of calls no attestation id is found valid twice, and every id that was found
-- valid is on record.
pub trace_attested_once :
    (s s' : Bridge) (ids : List ℕ)
    → Trace s ids s'
    → Distinct ids × ((n : ℕ) → listed n ids ≡ true → is_some (s'.attestations n) ≡ true)
trace_attested_once s s' ids calls = let r = trace-Recorded calls in (r.distinct, r.found)
