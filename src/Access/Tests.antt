-- ===== src/Access/Tests.antt =====
-- Samples of access, policy and egress, and the theorems at them.
use agent_life.Shared.{Any, ◌≤◌, ◌≡◌, ◌≢◌, refl, Bool, true, false, none, some, List, [], ◌∷◌, ok}
use agent_life.Shared.Instant.{instant_ms, valid_instant}
use agent_life.Shared.Text.{codes, decimal_text, decimal_value, is_printable}
use agent_life.Shared.Int.{u64_max}
use agent_life.Capabilities.{
  CapabilitySensitivity, CapabilityOfflinePolicy, CapabilityDefinition, no_filter, l1, l2,
  continuous, per_operation,
}
use agent_life.Authorization.{RevisionState, active, system_permission_change, next}
use agent_life.Authorization.Step.{apply_revision_event, apply_change}
use agent_life.Authorization.Order.{history}
use agent_life.Access.{
  ServerAgentSessionBinding, DeviceAccessInput, allowed, evaluate_device_access, scope_matches,
}
use agent_life.Access.Gate.{
  EnvelopeAuthorizationState, BindingContext, evaluate_gate, pass, deny, scope_denied,
}
use agent_life.Capabilities.Manifest.{validate_scope_ceiling}
use agent_life.Shared.Sets.{has}
use agent_life.Capabilities.{resolve, validate_capability_filter}
use agent_life.Access.Policy.{
  allowed as permitted, RiskPolicyInput, evaluate_risk_policy, policy_for, approve, approval_rank,
  risk_rank, risk_or_zero, corrected_risk, override_or_continuous, is_text, is_true,
  ExpectedEgressDeployment, ZeroRetentionEvidenceInput, VerifiedZeroRetentionEvidence,
  verify_zero_retention_evidence, evaluate_egress_profile, evidence_id, false_matrix, nothing,
  well_formed, is_expected,
}
use agent_life.Access.Stale.{access_revision, stale_access}
use agent_life.Access.Risk.{risk_policy-bounds}
use agent_life.Access.Opening.{Open}
use agent_life.Access.Egress.{Attempt, authority_after, returned, Issued, Identified, egress-Issued}

named_part : scope_matches "sensors.<sensor>.stream" "sensors.light.stream" ≡ true
unfolding scope_matches codes
named_part = refl

abbrev calendar : CapabilityDefinition
calendar = record {
  scope = "calendar.read";
  filter_schema = no_filter;
  risk_floor = l1;
  sensitivity = CapabilitySensitivity.metadata;
  offline_policy = CapabilityOfflinePolicy.wait_read;
  minimum_approval = continuous;
  allowed_backends = "B0" ∷ [];
  invariant_ids = [];
}

abbrev device : RevisionState
device = record {
  pairing_generation = 1;
  authorization_epoch = 4;
  scope_revisions = [];
  device_id = "device";
  lifecycle = active;
  active_pairing = true;
  enrollment_scope_ceiling = "calendar.read" ∷ [];
  local_consent = "calendar.read" ∷ [];
  system_permission = "calendar.read" ∷ [];
  backend_available = "B0" ∷ [];
  used_local_transition_ids = [];
  bound_bridge_credential_id = none;
}

abbrev changed : RevisionState
changed = record device { authorization_epoch = 5 }

permission_changed : apply_revision_event [] device system_permission_change ≡ ok changed
unfolding apply_revision_event next u64_max apply_change
permission_changed = refl

abbrev requester : ServerAgentSessionBinding
requester = record {
  tenant_id = "tenant";
  human_principal_id = "human";
  agent_principal_id = "agent";
  agent_instance_id = "instance";
  workspace_id = "workspace";
  session_id = "session";
  device_id = "device";
  agent_scope_ceiling = "calendar.read" ∷ [];
}

abbrev access : DeviceAccessInput
access = record {
  binding = record { tenant_id = "tenant"; human_principal_id = "human"; device_id = "device" };
  requester = requester;
  capability = "calendar.read";
  required_revision = access_revision device;
  current = record {
    lifecycle = active;
    active_pairing = true;
    enrollment_scope_ceiling = "calendar.read" ∷ [];
    local_consent = "calendar.read" ∷ [];
    system_permission = "calendar.read" ∷ [];
    backend_available = "B0" ∷ [];
    revision = access_revision (history changed []);
  };
  registry = calendar ∷ [];
}

stale_access_example : evaluate_device_access access ≢ allowed
stale_access_example =
    stale_access [] device changed system_permission_change [] access permission_changed refl refl

abbrev risk_input : RiskPolicyInput
risk_input = record {
  deterministic_risk = some l2;
  data_sensitivity_correction = none;
  user_override = some per_operation;
  selected_backend = some "B0";
  enhanced_backend_session_active = none;
  sms = none;
}

calendar_decision : evaluate_risk_policy risk_input (some calendar) ≡ permitted per_operation none
unfolding evaluate_risk_policy policy_for approve
calendar_decision = refl

risk_policy-bounds_example :
    (approval_rank calendar.minimum_approval ≤ approval_rank per_operation)
    × (approval_rank (override_or_continuous risk_input.user_override)
        ≤ approval_rank per_operation)
    × (risk_rank calendar.risk_floor ≤ 3)
    × (risk_or_zero risk_input.deterministic_risk ≤ 3)
    × (risk_rank (corrected_risk risk_input.data_sensitivity_correction) ≤ 3)
    × (is_text risk_input.selected_backend "B1" ≡ true
        → is_true risk_input.enhanced_backend_session_active ≡ true)
risk_policy-bounds_example = risk_policy-bounds risk_input calendar calendar_decision

abbrev no_flags : List Bool
no_flags = false ∷ false ∷ false ∷ false ∷ false ∷ []

abbrev evidence : ZeroRetentionEvidenceInput
evidence = record {
  provider_destination = "provider";
  account_profile_id = "profile";
  evidence_revision = "3";
  contract_config_digest = "digest";
  verified_at = "2026-08-08T00:00:00.000Z";
  expires_at = "2026-09-08T00:00:00.000Z";
  key_id = "key";
  signature_domain = "zero-retention/bridge";
  retention_statement = no_flags ∷ no_flags ∷ no_flags ∷ no_flags ∷ [];
  signature = "signature";
}

abbrev deployment : ExpectedEgressDeployment
deployment = record {
  provider_destination = "provider";
  account_profile_id = "profile";
  contract_config_digest = "digest";
  evidence_revision = 3;
}

abbrev verified : VerifiedZeroRetentionEvidence
verified = record {
  object = 9;
  provider_destination = "provider";
  account_profile_id = "profile";
  evidence_revision = 3;
  contract_config_digest = "digest";
  verified_at = "2026-08-08T00:00:00.000Z";
  expires_at = "2026-09-08T00:00:00.000Z";
}

evidence_verified :
    verify_zero_retention_evidence (λ e. true) [] 9 evidence deployment ≡ ok (verified, 9 ∷ [])
unfolding verify_zero_retention_evidence well_formed is_expected evidence_id false_matrix codes
    is_printable valid_instant instant_ms decimal_text decimal_value u64_max
evidence_verified = refl

abbrev attempts : List Attempt
attempts = record { object = 9; input = evidence; expected = deployment } ∷ []

-- One day after the verification.
gate_opens :
    evaluate_egress_profile
      (authority_after (λ e. true) attempts)
      (some verified)
      deployment
      (instant_ms "2026-08-09T00:00:00.000Z")
      nothing
    ≡ true
unfolding evaluate_egress_profile authority_after verify_zero_retention_evidence well_formed
    is_expected evidence_id false_matrix codes is_printable valid_instant instant_ms decimal_text
    decimal_value u64_max
gate_opens = refl

only_verified : Identified (λ e. true) verified (returned (λ e. true) attempts)
unfolding Identified returned authority_after verify_zero_retention_evidence well_formed is_expected
    evidence_id false_matrix codes is_printable valid_instant instant_ms decimal_text decimal_value
    u64_max
only_verified = (λ same. refl, tt)

egress-Issued_example :
    Any (Issued (λ e. true) verified) attempts
    × Open verified deployment (instant_ms "2026-08-09T00:00:00.000Z") nothing
egress-Issued_example =
    egress-Issued (λ e. true) attempts verified deployment (instant_ms "2026-08-09T00:00:00.000Z")
      nothing only_verified gate_opens

abbrev gate : EnvelopeAuthorizationState
gate = record {
  scope_ceiling = "device.status" ∷ [];
  registry = record calendar { scope = "device.status" } ∷ [];
  binding = none;
  active_pairing = none;
}

abbrev on_device : BindingContext
on_device = record { tenant_id = "tenant"; human_principal_id = "human"; device_id = some "device" }

-- A ping asks for the status without naming it.
ping_passes : evaluate_gate gate "device_ping" none on_device ≡ pass
unfolding evaluate_gate resolve validate_scope_ceiling has codes validate_capability_filter
ping_passes = refl

other_message : evaluate_gate gate "sms_send" none on_device ≡ deny scope_denied
unfolding evaluate_gate validate_scope_ceiling resolve has codes
other_message = refl
