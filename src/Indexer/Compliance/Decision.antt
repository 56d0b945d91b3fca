-- ===== src/Indexer/Compliance/Decision.antt =====
-- When an address is approved, and what an error of a provider leads to.
use stellar_escrow.Prelude.{
  ℕ, ◌%◌, ◌≤◌, ◌<◌, ◌≡◌, ◌≢◌, ◌↔◌, refl, arith, true, false, not, ◌||◌, Option, none, some, List,
  ltb, leb, min, if◌then◌else◌, Bool-cases, inl, inr,
}
use stellar_escrow.Escrow.State.{KycStatus, unverified, pending, verified, rejected}
use stellar_escrow.Indexer.Compliance.{
  approved, requires_review, blocked, ComplianceConfig, KycResult, AmlResult, KycAnswer,
  verified_text, kyc_of, verify, is_nil, aml_of, screen, is_rejected, is_pending, determine_status,
  check_address, calculate_risk_score,
}

not_rejected_test : (st : KycStatus) → st ≢ rejected → is_rejected st ≡ false
not_rejected_test unverified h = refl
not_rejected_test pending h = refl
not_rejected_test verified h = refl
not_rejected_test rejected h = absurd (h refl)

not_pending_test : (st : KycStatus) → st ≢ pending → is_pending st ≡ false
not_pending_test unverified h = refl
not_pending_test pending h = absurd (h refl)
not_pending_test verified h = refl
not_pending_test rejected h = refl

-- An address is approved exactly when the screening has not blocked it, its risk is below the threshold,
-- its identity is neither pending nor rejected, and its level is at least the required one.
pub determine_status-approved :
    (config : ComplianceConfig) (kyc : KycResult) (aml : AmlResult)
    → (determine_status config kyc aml ≡ approved) ↔ (
        (aml.is_blocked ≡ false)
        × (aml.risk_score < config.aml_risk_threshold)
        × (kyc.status ≢ rejected)
        × (kyc.status ≢ pending)
        × (config.required_kyc_level ≤ kyc.level))
unfolding determine_status
determine_status-approved config kyc aml = (
  λ h. (ground arith, ground arith, λ e. ground (arith, e), λ e. ground (arith, e), ground arith),
  λ (open_, low, not_rejected, not_pending, level).
      let r = not_rejected_test kyc.status not_rejected in
      let p = not_pending_test kyc.status not_pending in ground arith,
)

-- Where the screening provider fails and the identity provider verifies at a sufficient level, the
-- address is approved with a score of 50 if the threshold is above 50, as the default of 70 is, and is
-- put up for review otherwise.
pub check_address_unscreened :
    (config : ComplianceConfig) (level : ℕ)
    → config.has_kyc_provider ≡ true
    → config.has_aml_provider ≡ true
    → level < 256
    → config.required_kyc_level ≤ level
    → check_address config (some (record { status = some verified_text; level = some level })) none
      ≡ ((if ltb 50 config.aml_risk_threshold then approved else requires_review), 50)
unfolding check_address verify kyc_of screen determine_status calculate_risk_score
check_address_unscreened config level k a small enough =
    let fits : level % 256 ≡ level = omega arith in
    let ready : ltb (level % 256) config.required_kyc_level ≡ false = ground arith in
    elim (Bool-cases (ltb 50 config.aml_risk_threshold)) [
      | inl e ↦
          let low : leb config.aml_risk_threshold 50 ≡ false = ground arith in
          rw (k, a, e, low, ready) refl
      | inr e ↦
          let high : leb config.aml_risk_threshold 50 ≡ true = ground arith in
          rw (k, a, e, high) refl
    ]

-- An answer of the screening provider at or above the threshold, or
-- with any sanction, blocks the address whatever its identity.
pub check_address_screened :
    (config : ComplianceConfig) (kyc : Option KycAnswer) (risk : ℕ) (matches : List ℕ)
    → config.has_aml_provider ≡ true
    → risk ≤ 100
    → not (is_nil matches) || leb config.aml_risk_threshold risk ≡ true
    → (check_address config kyc
        (some (record { risk_score = some risk; sanctions_matches = matches }))).0
      ≡ blocked
unfolding check_address screen aml_of determine_status
check_address_screened config kyc risk matches a small h =
    let is : min risk 100 ≡ risk = ground arith in rw (a, is, h) refl
