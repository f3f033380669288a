-- ===== src/Operation.antt =====
-- protocol/src/operation-machine.ts: the records of an operation and their validation. The shape
-- tests on `unknown` values (`isRecord`, `exactKeys`, `typeof`, membership in the closed sets of
-- statuses and outcomes) hold of every value of the types below; the rest is tested. `bigint`
-- fields, which are refused when negative, are natural numbers.
pub mod Machine
pub mod Effect
pub mod Invariant
pub mod Lifecycle
pub mod Terminal
pub mod Execution
pub mod Tests
use agent_life.Shared.{
  ℕ, zero, suc, String, Bool, true, false, not, ◌&&◌, ◌||◌, Option, none, some, List, [], ◌∷◌, all,
  is_none, str_eq, Result, ok, err, if◌then◌else◌, Failure, schema_invalid,
}
use agent_life.Shared.Text.{non_empty, digest}
use agent_life.Shared.Instant.{valid_instant}

pub data RequestStatus : Type 0 where
  created waiting_device dispatching accepted_device : RequestStatus
  awaiting_approval approved executing : RequestStatus

pub data TerminalOutcome : Type 0 where
  succeeded failed denied cancelled expired result_unknown : TerminalOutcome

pub data OperationReason : Type 0 where
  not_authorized policy_blocked user_denied platform_unsupported : OperationReason
  backend_unavailable device_offline device_locked payload_too_large : OperationReason
  rate_limited security_ledger_full queue_limit internal_error : OperationReason

pub record WireOperationState : Type 0 where
  pub request_status : Option RequestStatus
  pub terminal_outcome : Option TerminalOutcome
  pub operation_reason : Option OperationReason

abbrev pub requested : RequestStatus → WireOperationState
requested s = record { request_status = some s; terminal_outcome = none; operation_reason = none }

abbrev pub concluded : TerminalOutcome → Option OperationReason → WireOperationState
concluded t reason = record {
  request_status = none;
  terminal_outcome = some t;
  operation_reason = reason;
}

pub data SessionOrJob : Type 0 where
  session job : String → SessionOrJob

pub record StoredOperationBinding : Type 0 where
  pub tenant_id : String
  pub human_principal_id : String
  pub agent_principal_id : String
  pub agent_instance_id : String
  pub workspace_id : String
  pub session_or_job : SessionOrJob
  pub device_id : String
  pub operation_id : String
  pub capability : String
  pub parameters_digest : String

pub record RevisionSnapshot : Type 0 where
  pub pairing_generation : ℕ
  pub authorization_epoch : ℕ
  pub scope_revisions : List (String × ℕ)

pub data OfflinePolicy : Type 0 where
  wait_read fail_offline : OfflinePolicy

pub data EvidenceOutcome : Type 0 where
  proved_success proved_failure : EvidenceOutcome

pub record Reconciliation : Type 0 where
  pub outcome : EvidenceOutcome
  pub evidence_digest : String
  pub observed_at : String

pub record OperationRecord : Type 0 where
  pub binding : StoredOperationBinding
  pub revision_snapshot : RevisionSnapshot
  pub operation_expires_at : String
  pub offline_policy : OfflinePolicy
  pub state_revision : ℕ
  pub state : WireOperationState
  pub reconciliation : Option Reconciliation

pub data OperationEvent : Type 0 where
  queue_wait_read dispatch device_accepted approval_required : OperationEvent
  approval_not_required approval_granted approval_denied execution_claimed : OperationEvent
  fail_before_claim : OperationReason → OperationEvent
  execution_succeeded : OperationEvent
  execution_failed deny : OperationReason → OperationEvent
  execution_result_unknown cancel expire : OperationEvent
  reconcile_evidence : Reconciliation → OperationEvent

-- FAILURE_REASONS and DENIAL_REASONS.
abbrev pub denial_reason : OperationReason → Bool
denial_reason not_authorized = true
denial_reason policy_blocked = true
denial_reason user_denied = true
denial_reason rate_limited = true
denial_reason _ = false

abbrev pub failure_reason : OperationReason → Bool
failure_reason platform_unsupported = true
failure_reason backend_unavailable = true
failure_reason device_offline = true
failure_reason device_locked = true
failure_reason payload_too_large = true
failure_reason security_ledger_full = true
failure_reason queue_limit = true
failure_reason internal_error = true
failure_reason _ = false

valid_evidence : Reconciliation → Bool
valid_evidence e = non_empty e.evidence_digest && valid_instant e.observed_at

unfoldable pub validate_operation_event : OperationEvent → Bool
unfolding valid_evidence
validate_operation_event (fail_before_claim reason) = failure_reason reason
validate_operation_event (execution_failed reason) = failure_reason reason
validate_operation_event (deny reason) = denial_reason reason
validate_operation_event (reconcile_evidence e) = valid_evidence e
validate_operation_event _ = true

valid_session_or_job : SessionOrJob → Bool
valid_session_or_job (session id) = non_empty id
valid_session_or_job (job id) = non_empty id

unfoldable pub valid_binding : StoredOperationBinding → Bool
unfolding valid_session_or_job
valid_binding b =
    non_empty b.tenant_id
    && non_empty b.human_principal_id
    && non_empty b.agent_principal_id
    && non_empty b.agent_instance_id
    && non_empty b.workspace_id
    && non_empty b.device_id
    && non_empty b.operation_id
    && non_empty b.capability
    && valid_session_or_job b.session_or_job
    && digest b.parameters_digest

unfoldable pub valid_revision_snapshot : RevisionSnapshot → Bool
valid_revision_snapshot r = all (λ e. non_empty e.0) r.scope_revisions

abbrev valid_outcome : TerminalOutcome → Option OperationReason → Bool
valid_outcome denied (some reason) = denial_reason reason
valid_outcome denied none = false
valid_outcome failed (some reason) = failure_reason reason
valid_outcome failed none = false
valid_outcome _ reason = is_none reason

abbrev valid_parts : Option RequestStatus → Option TerminalOutcome → Option OperationReason → Bool
valid_parts (some _) outcome reason = is_none outcome && is_none reason
valid_parts none none reason = false
valid_parts none (some outcome) reason = valid_outcome outcome reason

unfoldable pub validate_wire_operation_state : WireOperationState → Bool
validate_wire_operation_state s = valid_parts s.request_status s.terminal_outcome s.operation_reason

abbrev pub is_result_unknown : Option TerminalOutcome → Bool
is_result_unknown (some result_unknown) = true
is_result_unknown _ = false

valid_reconciliation : WireOperationState → Option Reconciliation → Bool
unfolding valid_evidence
valid_reconciliation s none = true
valid_reconciliation s (some e) =
    is_none s.request_status && is_result_unknown s.terminal_outcome && valid_evidence e

unfoldable pub validate_operation_record : OperationRecord → Bool
unfolding valid_reconciliation validate_wire_operation_state
validate_operation_record r =
    valid_binding r.binding
    && valid_revision_snapshot r.revision_snapshot
    && valid_instant r.operation_expires_at
    && validate_wire_operation_state r.state
    && valid_reconciliation r.state r.reconciliation

abbrev fresh_state : Option WireOperationState → WireOperationState
fresh_state none = requested created
fresh_state (some s) = s

unfoldable pub create_operation_record :
    StoredOperationBinding
    → RevisionSnapshot
    → String
    → OfflinePolicy
    → Option WireOperationState
    → Result OperationRecord
create_operation_record binding snapshot expires policy state =
    let candidate : OperationRecord = record {
      binding = binding;
      revision_snapshot = snapshot;
      operation_expires_at = expires;
      offline_policy = policy;
      state_revision = 0;
      state = fresh_state state;
      reconciliation = none;
    } in
    if validate_operation_record candidate then ok candidate else err schema_invalid
