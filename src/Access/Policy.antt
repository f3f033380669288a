-- ===== src/Access/Policy.antt =====
-- protocol/src/risk-policy.ts and protocol/src/egress-policy.ts. The default registry, the check of a
-- signature and the bytes that it covers are arguments; an instant is a text, and a date is `none` if
-- it is invalid.
use agent_life.Shared.{
  ℕ, String, Bool, true, false, not, ◌&&◌, ◌==◌, leb, ltb, Option, none, some, List, ◌∷◌, length,
  all, any, str_eq, Result, ok, ◌>>◌, require, schema_invalid, integrity_failed, if◌then◌else◌,
}
use agent_life.Shared.Int.{u64_max}
use agent_life.Shared.Text.{codes, decimal_text, decimal_value, is_printable}
use agent_life.Shared.Instant.{instant_ms, valid_instant}
use agent_life.Capabilities.{
  CapabilityRisk, l0, l1, l2, l3, l4, CapabilityApproval, continuous, per_operation,
  per_operation_on_device, CapabilityDefinition,
}

pub record SmsConfirmationBinding : Type 0 where
  pub recipient : String
  pub body : String
  pub subscription_id : String
  pub direct : Bool
  pub operation_id : String
  pub expires_at : String
  pub revision : String

pub data PolicyDecision : Type 0 where
  allowed : CapabilityApproval → Option SmsConfirmationBinding → PolicyDecision
  policy_blocked : PolicyDecision

pub data Correction : Type 0 where
  metadata content sensitive control no_data : Correction

-- The input without its capability, which is resolved: `none` is a name that the registry does not have.
pub record RiskPolicyInput : Type 0 where
  pub deterministic_risk : Option CapabilityRisk
  pub data_sensitivity_correction : Option Correction
  pub user_override : Option CapabilityApproval
  pub selected_backend : Option String
  pub enhanced_backend_session_active : Option Bool
  pub sms : Option SmsConfirmationBinding

abbrev pub risk_rank : CapabilityRisk → ℕ
risk_rank l0 = 0
risk_rank l1 = 1
risk_rank l2 = 2
risk_rank l3 = 3
risk_rank l4 = 4

abbrev pub approval_rank : CapabilityApproval → ℕ
approval_rank continuous = 0
approval_rank per_operation = 1
approval_rank per_operation_on_device = 2

abbrev pub corrected_risk : Option Correction → CapabilityRisk
corrected_risk (some control) = l4
corrected_risk (some sensitive) = l3
corrected_risk (some content) = l2
corrected_risk (some metadata) = l1
corrected_risk _ = l0

abbrev pub risk_or_zero : Option CapabilityRisk → ℕ
risk_or_zero none = 0
risk_or_zero (some risk) = risk_rank risk

-- `Math.max` of ranks.
abbrev pub larger : ℕ → ℕ → ℕ
larger m n = if leb m n then n else m

abbrev pub override_or_continuous : Option CapabilityApproval → CapabilityApproval
override_or_continuous none = continuous
override_or_continuous (some approval) = approval

abbrev pub is_text : Option String → String → Bool
is_text none text = false
is_text (some value) text = str_eq value text

abbrev pub is_true : Option Bool → Bool
is_true (some true) = true
is_true _ = false

-- `approvals[Math.max(rank(minimum), rank(override))]`.
abbrev pub stronger : CapabilityApproval → CapabilityApproval → CapabilityApproval
stronger a b = if leb (approval_rank a) (approval_rank b) then b else a

unfoldable pub approve : RiskPolicyInput → CapabilityDefinition → PolicyDecision
approve input capability =
    if str_eq capability.scope "sms.send"
    then allowed per_operation_on_device input.sms
    else allowed (stronger capability.minimum_approval (override_or_continuous input.user_override))
        none

-- Whether a B1 backend lacks its session.
abbrev pub lacks_session : RiskPolicyInput → Bool
lacks_session input =
    is_text input.selected_backend "B1" && not (is_true input.enhanced_backend_session_active)

unfoldable pub policy_for : RiskPolicyInput → CapabilityDefinition → PolicyDecision
unfolding approve
policy_for input capability =
    let risk = larger (risk_rank capability.risk_floor) (
      larger (risk_or_zero input.deterministic_risk)
        (risk_rank (corrected_risk input.data_sensitivity_correction))) in
    if leb 4 risk
    then policy_blocked
    else if lacks_session input
    then policy_blocked
    else approve input capability

unfoldable pub evaluate_risk_policy : RiskPolicyInput → Option CapabilityDefinition → PolicyDecision
unfolding policy_for
evaluate_risk_policy input none = policy_blocked
evaluate_risk_policy input (some capability) = policy_for input capability

pub record ExpectedEgressDeployment : Type 0 where
  pub provider_destination : String
  pub account_profile_id : String
  pub contract_config_digest : String
  pub evidence_revision : ℕ

-- The four rows of the statement, request, response, attachment and tool payload, each of the flags
-- log, training, review, cache and backup.
pub record ZeroRetentionEvidenceInput : Type 0 where
  pub provider_destination : String
  pub account_profile_id : String
  pub evidence_revision : String
  pub contract_config_digest : String
  pub verified_at : String
  pub expires_at : String
  pub key_id : String
  pub signature_domain : String
  pub retention_statement : List (List Bool)
  pub signature : String

pub record VerifiedZeroRetentionEvidence : Type 0 where
  pub object : ℕ
  pub provider_destination : String
  pub account_profile_id : String
  pub evidence_revision : ℕ
  pub contract_config_digest : String
  pub verified_at : String
  pub expires_at : String

-- `/^[^\u0000-\u001f\u007f]{1,4096}$/u`.
unfoldable pub evidence_id : String → Bool
evidence_id text =
    let cs = codes text in leb 1 (length cs) && leb (length cs) 4096 && all is_printable cs

unfoldable pub false_matrix : List (List Bool) → Bool
false_matrix rows =
    length rows == 4 && all (λ row. length row == 5 && all (λ flag. not flag) row) rows

abbrev pub in_order : Option ℕ → Option ℕ → Bool
in_order (some verified) (some expires) = ltb verified expires
in_order _ _ = false

unfoldable pub well_formed : ZeroRetentionEvidenceInput → Bool
well_formed e =
    evidence_id e.provider_destination
    && evidence_id e.account_profile_id
    && evidence_id e.contract_config_digest
    && evidence_id e.key_id
    && evidence_id e.signature
    && str_eq e.signature_domain "zero-retention/bridge"
    && valid_instant e.verified_at
    && valid_instant e.expires_at
    && in_order (instant_ms e.verified_at) (instant_ms e.expires_at)
    && false_matrix e.retention_statement

-- The revision, if it fits 64 bits and is the expected one.
unfoldable pub is_expected : ExpectedEgressDeployment → ZeroRetentionEvidenceInput → Bool
is_expected expected e =
    let revision = decimal_value 0 (codes e.evidence_revision) in
    decimal_text e.evidence_revision
    && leb revision u64_max
    && str_eq e.provider_destination expected.provider_destination
    && str_eq e.account_profile_id expected.account_profile_id
    && str_eq e.contract_config_digest expected.contract_config_digest
    && revision == expected.evidence_revision

-- The verified evidence and the weak set that holds it; `object` is a fresh object.
unfoldable pub verify_zero_retention_evidence :
    (ZeroRetentionEvidenceInput → Bool)
    → List ℕ
    → ℕ
    → ZeroRetentionEvidenceInput
    → ExpectedEgressDeployment
    → Result (VerifiedZeroRetentionEvidence × List ℕ)
unfolding well_formed is_expected
verify_zero_retention_evidence signed authority object e expected = do
  require (well_formed e) schema_invalid
  require (is_expected expected e) integrity_failed
  require (signed e) integrity_failed
  ok (
    record {
      object = object;
      provider_destination = e.provider_destination;
      account_profile_id = e.account_profile_id;
      evidence_revision = decimal_value 0 (codes e.evidence_revision);
      contract_config_digest = e.contract_config_digest;
      verified_at = e.verified_at;
      expires_at = e.expires_at;
    },
    object ∷ authority,
  )

pub data ProviderObjectObservation : Type 0 where
  nothing returned unknown : ProviderObjectObservation

abbrev pub is_nothing : ProviderObjectObservation → Bool
is_nothing nothing = true
is_nothing _ = false

unfoldable pub matches_deployment : VerifiedZeroRetentionEvidence → ExpectedEgressDeployment → Bool
matches_deployment e expected =
    str_eq e.provider_destination expected.provider_destination
    && str_eq e.account_profile_id expected.account_profile_id
    && str_eq e.contract_config_digest expected.contract_config_digest
    && e.evidence_revision == expected.evidence_revision

abbrev pub in_force : Option ℕ → Option ℕ → Option ℕ → Bool
in_force (some verified) (some expires) (some now) = leb verified now && ltb now expires
in_force _ _ _ = false

-- Whether the egress is allowed; otherwise it is POLICY_BLOCKED.
unfoldable pub evaluate_egress_profile :
    List ℕ
    → Option VerifiedZeroRetentionEvidence
    → ExpectedEgressDeployment
    → Option ℕ
    → ProviderObjectObservation
    → Bool
unfolding matches_deployment
evaluate_egress_profile authority none expected now observed = false
evaluate_egress_profile authority (some e) expected now observed =
    any (λ o. o == e.object) authority
    && is_nothing observed
    && matches_deployment e expected
    && in_force (instant_ms e.verified_at) (instant_ms e.expires_at) now
