-- ===== src/Indexer/Compliance.antt =====
-- indexer/src/compliance_service: the screening of an address (kyc.rs, aml.rs), the status that follows
-- (mod.rs) and the workflow (workflow.rs). What a provider answers is a parameter; the fields of an
-- answer that no decision reads are left out, and so are persistence and logging. A list of sanctions
-- or categories is a list of numbers.
pub mod Decision
use stellar_escrow.Prelude.{
  ℕ, ◌+◌, ◌%◌, Bool, true, false, not, ◌&&◌, ◌||◌, Option, none, some, List, [], ◌∷◌, ltb, leb, min,
  get_or, if◌then◌else◌,
}
use stellar_escrow.Escrow.State.{KycStatus, unverified, pending, verified, rejected}

pub data ComplianceStatus : Type 0 where
  waiting : ComplianceStatus
  approved : ComplianceStatus
  refused : ComplianceStatus
  requires_review : ComplianceStatus
  blocked : ComplianceStatus

pub record ComplianceConfig : Type 0 where
  pub has_kyc_provider : Bool
  pub has_aml_provider : Bool
  pub required_kyc_level : ℕ
  pub aml_risk_threshold : ℕ

pub record KycResult : Type 0 where
  pub status : KycStatus
  pub level : ℕ

pub record AmlResult : Type 0 where
  pub risk_score : ℕ
  pub is_blocked : Bool
  pub sanctions_matches : List ℕ

-- the text in the field `status` of an answer
pub data StatusText : Type 0 where
  verified_text : StatusText
  rejected_text : StatusText
  other_text : StatusText

pub record KycAnswer : Type 0 where
  pub status : Option StatusText
  pub level : Option ℕ

pub record AmlAnswer : Type 0 where
  pub risk_score : Option ℕ
  pub sanctions_matches : List ℕ

abbrev pub status_of : StatusText → KycStatus
status_of verified_text = verified
status_of rejected_text = rejected
status_of other_text = pending

-- the end of KycProvider::call_provider
unfoldable pub kyc_of : KycAnswer → KycResult
kyc_of a = record {
  status = status_of (get_or a.status other_text);
  level = get_or a.level 0 % 256;
}

-- `none` is an error of the provider.
unfoldable pub verify : Bool → Option KycAnswer → KycResult
unfolding kyc_of
verify false answer = record { status = unverified; level = 0 }
verify true none = record { status = pending; level = 0 }
verify true (some a) = kyc_of a

abbrev pub is_nil : List ℕ → Bool
is_nil [] = true
is_nil (_ ∷ _) = false

-- the end of AmlScreener::call_provider
unfoldable pub aml_of : ℕ → AmlAnswer → AmlResult
aml_of risk_threshold a =
    let risk = min (get_or a.risk_score 0) 100 in
    record {
      risk_score = risk;
      is_blocked = not (is_nil a.sanctions_matches) || leb risk_threshold risk;
      sanctions_matches = a.sanctions_matches;
    }

unfoldable pub screen : Bool → ℕ → Option AmlAnswer → AmlResult
unfolding aml_of
screen false threshold answer = record {
  risk_score = 0;
  is_blocked = false;
  sanctions_matches = [];
}
screen true threshold none = record { risk_score = 50; is_blocked = false; sanctions_matches = [] }
screen true threshold (some a) = aml_of threshold a

abbrev pub is_rejected : KycStatus → Bool
is_rejected rejected = true
is_rejected _ = false

abbrev pub is_pending : KycStatus → Bool
is_pending pending = true
is_pending _ = false

unfoldable pub determine_status : ComplianceConfig → KycResult → AmlResult → ComplianceStatus
determine_status config kyc aml =
    if aml.is_blocked || is_rejected kyc.status
    then blocked
    else if leb config.aml_risk_threshold aml.risk_score
    then requires_review
    else if is_pending kyc.status
    then waiting
    else if ltb kyc.level config.required_kyc_level
    then requires_review
    else approved

abbrev pub kyc_penalty : KycStatus → ℕ
kyc_penalty verified = 0
kyc_penalty pending = 20
kyc_penalty rejected = 50
kyc_penalty unverified = 30

-- `saturating_add` on `u8`, and the cap
unfoldable pub calculate_risk_score : KycResult → AmlResult → ℕ
calculate_risk_score kyc aml = min (min (aml.risk_score + kyc_penalty kyc.status) 255) 100

-- the status and the score of check_address
unfoldable pub check_address :
    ComplianceConfig → Option KycAnswer → Option AmlAnswer → ComplianceStatus × ℕ
unfolding verify screen determine_status calculate_risk_score
check_address config kyc_answer aml_answer =
    let kyc = verify config.has_kyc_provider kyc_answer in
    let aml = screen config.has_aml_provider config.aml_risk_threshold aml_answer in
    (determine_status config kyc aml, calculate_risk_score kyc aml)

pub data WorkflowStep : Type 0 where
  kyc_initiated kyc_completed aml_screened risk_assessed manual_review_required : WorkflowStep
  manual_review_completed step_approved step_rejected step_blocked : WorkflowStep

unfoldable pub next_step : ComplianceStatus → WorkflowStep
next_step approved = step_approved
next_step blocked = step_blocked
next_step refused = step_rejected
next_step requires_review = manual_review_required
next_step waiting = kyc_initiated

unfoldable pub is_valid_transition : ComplianceStatus → ComplianceStatus → Bool
is_valid_transition waiting approved = true
is_valid_transition waiting refused = true
is_valid_transition waiting requires_review = true
is_valid_transition waiting blocked = true
is_valid_transition requires_review approved = true
is_valid_transition requires_review refused = true
is_valid_transition requires_review blocked = true
is_valid_transition _ _ = false
