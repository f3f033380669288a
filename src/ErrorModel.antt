-- ===== src/ErrorModel.antt =====
-- protocol/src/error-model.ts: the public answer to a failure, and the test of an answer. A value of
-- the wire is read by the keys that the test asks for; any other keys are a list.
pub mod Answers
mod Tests
use agent_life.Shared.{
  ℕ, String, Bool, true, false, not, ◌&&◌, ◌||◌, ◌==◌, leb, Option, none, some, List, [], ◌∷◌,
  length, map, str_eq, is_none, Failure, Result, ok, err, retry_after_required, if◌then◌else◌,
}
use agent_life.Shared.Int.{ℤ, pos, negsuc, is_negative}
use agent_life.Shared.Sets.{has}
use agent_life.Shared.Text.{codes, decimal, decimal_text}

pub data ProtocolErrorCode : Type 0 where
  message_too_large schema_invalid auth_failed integrity_failed message_expired : ProtocolErrorCode
  connection_fenced auth_binding_mismatch version_unsupported replay_rejected idempotency_conflict
        not_authorized :
      ProtocolErrorCode
  security_ledger_full flow_control_violation invalid_state_transition result_conflict rate_limited
        internal_error :
      ProtocolErrorCode

pub data InternalDecisionReason : Type 0 where
  adapter_principal_missing pairing_inactive scope_denied revision_mismatch policy_blocked :
      InternalDecisionReason
  capacity_exhausted security_partition_exhausted message_id_conflict pending window_rejected :
      InternalDecisionReason
  compacted_duplicate pending_limit cooldown credit_exhausted : InternalDecisionReason

pub data InternalProtocolFailureReason : Type 0 where
  code : ProtocolErrorCode → InternalProtocolFailureReason
  decision : InternalDecisionReason → InternalProtocolFailureReason

pub data ProtocolStage : Type 0 where
  size canonical_schema registry_schema authentication payload_integrity : ProtocolStage
  expiry connection_fence authenticated_binding operation_binding semantic_integrity : ProtocolStage
  authorization_revision replay_duplicate_sequence_capacity operation_transition : ProtocolStage
  execution_claim result_persistence : ProtocolStage

abbrev pub code_text : ProtocolErrorCode → String
code_text message_too_large = "MESSAGE_TOO_LARGE"
code_text schema_invalid = "SCHEMA_INVALID"
code_text auth_failed = "AUTH_FAILED"
code_text integrity_failed = "INTEGRITY_FAILED"
code_text message_expired = "MESSAGE_EXPIRED"
code_text connection_fenced = "CONNECTION_FENCED"
code_text auth_binding_mismatch = "AUTH_BINDING_MISMATCH"
code_text version_unsupported = "VERSION_UNSUPPORTED"
code_text replay_rejected = "REPLAY_REJECTED"
code_text idempotency_conflict = "IDEMPOTENCY_CONFLICT"
code_text not_authorized = "NOT_AUTHORIZED"
code_text security_ledger_full = "SECURITY_LEDGER_FULL"
code_text flow_control_violation = "FLOW_CONTROL_VIOLATION"
code_text invalid_state_transition = "INVALID_STATE_TRANSITION"
code_text result_conflict = "RESULT_CONFLICT"
code_text rate_limited = "RATE_LIMITED"
code_text internal_error = "INTERNAL_ERROR"

abbrev pub stage_text : ProtocolStage → String
stage_text size = "size"
stage_text canonical_schema = "canonical_schema"
stage_text registry_schema = "registry_schema"
stage_text authentication = "authentication"
stage_text payload_integrity = "payload_integrity"
stage_text expiry = "expiry"
stage_text connection_fence = "connection_fence"
stage_text authenticated_binding = "authenticated_binding"
stage_text operation_binding = "operation_binding"
stage_text semantic_integrity = "semantic_integrity"
stage_text authorization_revision = "authorization_revision"
stage_text replay_duplicate_sequence_capacity = "replay_duplicate_sequence_capacity"
stage_text operation_transition = "operation_transition"
stage_text execution_claim = "execution_claim"
stage_text result_persistence = "result_persistence"

-- `CODES` and `STAGES`.
abbrev pub error_codes : List String
error_codes =
    "MESSAGE_TOO_LARGE" ∷ "SCHEMA_INVALID" ∷ "AUTH_FAILED" ∷ "INTEGRITY_FAILED" ∷ "MESSAGE_EXPIRED"
    ∷ "CONNECTION_FENCED" ∷ "AUTH_BINDING_MISMATCH" ∷ "VERSION_UNSUPPORTED" ∷ "REPLAY_REJECTED"
    ∷ "IDEMPOTENCY_CONFLICT" ∷ "NOT_AUTHORIZED" ∷ "SECURITY_LEDGER_FULL" ∷ "FLOW_CONTROL_VIOLATION"
    ∷ "INVALID_STATE_TRANSITION" ∷ "RESULT_CONFLICT" ∷ "RATE_LIMITED" ∷ "INTERNAL_ERROR" ∷ []

abbrev pub protocol_stages : List String
protocol_stages =
    "size" ∷ "canonical_schema" ∷ "registry_schema" ∷ "authentication" ∷ "payload_integrity"
    ∷ "expiry" ∷ "connection_fence" ∷ "authenticated_binding" ∷ "operation_binding"
    ∷ "semantic_integrity" ∷ "authorization_revision" ∷ "replay_duplicate_sequence_capacity"
    ∷ "operation_transition" ∷ "execution_claim" ∷ "result_persistence" ∷ []

is_lower_hex : ℕ → Bool
is_lower_hex c = (leb b'0' c && leb c b'9') || (leb b'a' c && leb c b'f')

-- `n` characters that pass a test, and then the rest.
repeated : ℕ → (ℕ → Bool) → (List ℕ → Bool) → List ℕ → Bool
repeated ℕ.zero test rest cs = rest cs
repeated (ℕ.suc n) test rest [] = false
repeated (ℕ.suc n) test rest (c ∷ cs) = test c && repeated n test rest cs

-- `UUID`.
unfoldable pub uuid : String → Bool
unfolding is_lower_hex repeated
uuid s =
    let hyphen = λ (c : ℕ). c == b'-' in
    repeated 8 is_lower_hex
      (repeated 1 hyphen (
        repeated 4 is_lower_hex (
          repeated 1 hyphen (
            repeated 1 (λ c. c == b'4')
              (repeated 3 is_lower_hex (
                repeated 1 hyphen (
                  repeated 1 (λ c. c == b'8' || c == b'9' || c == b'a' || c == b'b')
                    (repeated 3 is_lower_hex
                      (repeated 1 hyphen (repeated 12 is_lower_hex (λ cs. length cs == 0)))))))))))
      (codes s)

pub record ProtocolFailure : Type 0 where
  pub stage : ProtocolStage
  pub reason : InternalProtocolFailureReason
  pub correlation_message_id : Option String
  pub retry_after_seconds : Option ℤ

pub record ErrorResponsePayload : Type 0 where
  pub code : ProtocolErrorCode
  pub stage : ProtocolStage
  pub correlation_message_id : Option String
  pub retry_after : Option String

abbrev pub map_internal : InternalDecisionReason → ProtocolErrorCode
map_internal adapter_principal_missing = auth_binding_mismatch
map_internal pairing_inactive = connection_fenced
map_internal scope_denied = not_authorized
map_internal revision_mismatch = not_authorized
map_internal policy_blocked = not_authorized
map_internal capacity_exhausted = replay_rejected
map_internal pending = replay_rejected
map_internal window_rejected = replay_rejected
map_internal compacted_duplicate = replay_rejected
map_internal message_id_conflict = integrity_failed
map_internal security_partition_exhausted = security_ledger_full
map_internal pending_limit = rate_limited
map_internal cooldown = rate_limited
map_internal credit_exhausted = flow_control_violation

abbrev pub mapped_code : InternalProtocolFailureReason → ProtocolErrorCode
mapped_code (code c) = c
mapped_code (decision d) = map_internal d

abbrev pub is_rate_limited : ProtocolErrorCode → Bool
is_rate_limited rate_limited = true
is_rate_limited _ = false

abbrev pub id_valid : Option String → Bool
id_valid none = true
id_valid (some id) = uuid id

abbrev pub retry_valid : Option ℤ → Bool
retry_valid none = true
retry_valid (some n) = not (is_negative n)

-- `toString(10)` of seconds that were tested not to be negative.
abbrev pub seconds_text : ℤ → String
seconds_text (pos n) = decimal n
seconds_text (negsuc n) = ""

-- The answer to a failure of this code, whether it is `RATE_LIMITED`, after these seconds.
unfoldable pub answer_for :
    ProtocolFailure → ProtocolErrorCode → Bool → Option ℤ → Result ErrorResponsePayload
answer_for f c true none = err retry_after_required
answer_for f c true (some seconds) = ok (record {
  code = c;
  stage = f.stage;
  correlation_message_id = f.correlation_message_id;
  retry_after = some (seconds_text seconds);
})
answer_for f c false none = ok (record {
  code = c;
  stage = f.stage;
  correlation_message_id = f.correlation_message_id;
  retry_after = none;
})
answer_for f c false (some seconds) = err Failure.integrity_failed

unfoldable pub classify_protocol_failure : ProtocolFailure → Result ErrorResponsePayload
unfolding answer_for
classify_protocol_failure f =
    let c = mapped_code f.reason in
    if not (id_valid f.correlation_message_id)
    then err Failure.schema_invalid
    else if not (retry_valid f.retry_after_seconds)
    then err Failure.schema_invalid
    else answer_for f c (is_rate_limited c) f.retry_after_seconds

pub data WireValue : Type 0 where
  missing null_value other_value : WireValue
  text : String → WireValue

pub record WireRecord : Type 0 where
  pub code : WireValue
  pub stage : WireValue
  pub correlation_message_id : WireValue
  pub retry_after : WireValue
  pub other_keys : List String

abbrev pub is_in : List String → WireValue → Bool
is_in names (text s) = has s names
is_in names _ = false

abbrev pub is_message_id : WireValue → Bool
is_message_id null_value = true
is_message_id (text s) = uuid s
is_message_id _ = false

abbrev pub is_exactly : String → WireValue → Bool
is_exactly t (text s) = str_eq s t
is_exactly t _ = false

abbrev pub is_seconds : WireValue → Bool
is_seconds (text s) = decimal_text s
is_seconds _ = false

abbrev pub is_missing : WireValue → Bool
is_missing missing = true
is_missing _ = false

-- The keys are compared after the others were found.
unfoldable pub validate_error_response : WireRecord → Bool
validate_error_response candidate =
    if not (
      is_in error_codes candidate.code
      && is_in protocol_stages candidate.stage
      && is_message_id candidate.correlation_message_id)
    then false
    else if is_exactly "RATE_LIMITED" candidate.code
    then length candidate.other_keys == 0 && is_seconds candidate.retry_after
    else length candidate.other_keys == 0 && is_missing candidate.retry_after
