-- ===== src/ErrorModel/Answers.antt =====
-- The answers that the classifier makes.
use agent_life.Shared.{
  ◌≡◌, ◌∙◌, ap, refl, sym, if◌then◌else◌, ◌&&◌, Failure, String, Bool, true, false, not, Option,
  none, some, [], subst, Result, ok, err, arith,
}
use agent_life.Shared.Int.{ℤ, pos, negsuc}
use agent_life.Shared.Sets.{has}
use agent_life.Shared.Text.{codes, decimal_value}
use agent_life.Shared.Decimal.{decimal_value-decimal, decimal_text-decimal}
use agent_life.ErrorModel.{
  message_too_large, schema_invalid, auth_failed, integrity_failed, message_expired,
  connection_fenced, auth_binding_mismatch, version_unsupported, replay_rejected,
  idempotency_conflict, not_authorized, security_ledger_full, flow_control_violation,
  invalid_state_transition, result_conflict, rate_limited, internal_error, size, canonical_schema,
  registry_schema, authentication, payload_integrity, expiry, connection_fence,
  authenticated_binding, operation_binding, semantic_integrity, authorization_revision,
  replay_duplicate_sequence_capacity, operation_transition, execution_claim, result_persistence,
  is_missing, ProtocolFailure, ErrorResponsePayload, ProtocolErrorCode, ProtocolStage, mapped_code,
  is_rate_limited, id_valid, retry_valid, is_seconds, answer_for, classify_protocol_failure,
  WireValue, WireRecord, missing, null_value, text, code_text, stage_text, error_codes,
  protocol_stages, is_message_id, is_exactly, validate_error_response,
}

abbrev pub wire_id : Option String → WireValue
wire_id none = null_value
wire_id (some id) = text id

abbrev pub wire_seconds : Option String → WireValue
wire_seconds none = missing
wire_seconds (some s) = text s

-- A payload as an object of the wire.
abbrev pub wire : ErrorResponsePayload → WireRecord
wire p = record {
  code = text (code_text p.code);
  stage = text (stage_text p.stage);
  correlation_message_id = wire_id p.correlation_message_id;
  retry_after = wire_seconds p.retry_after;
  other_keys = [];
}

-- The seconds of a payload, read back from their text.
abbrev pub read_seconds : Option String → Option ℤ
read_seconds none = none
read_seconds (some s) = some (pos (decimal_value 0 (codes s)))

code-known :
    (c : ProtocolErrorCode)
    → (has (code_text c) error_codes ≡ true)
      × (is_exactly "RATE_LIMITED" (text (code_text c)) ≡ is_rate_limited c)
unfolding has
code-known message_too_large = (refl, refl)
code-known schema_invalid = (refl, refl)
code-known auth_failed = (refl, refl)
code-known integrity_failed = (refl, refl)
code-known message_expired = (refl, refl)
code-known connection_fenced = (refl, refl)
code-known auth_binding_mismatch = (refl, refl)
code-known version_unsupported = (refl, refl)
code-known replay_rejected = (refl, refl)
code-known idempotency_conflict = (refl, refl)
code-known not_authorized = (refl, refl)
code-known security_ledger_full = (refl, refl)
code-known flow_control_violation = (refl, refl)
code-known invalid_state_transition = (refl, refl)
code-known result_conflict = (refl, refl)
code-known rate_limited = (refl, refl)
code-known internal_error = (refl, refl)

stage-known : (t : ProtocolStage) → has (stage_text t) protocol_stages ≡ true
unfolding has
stage-known size = refl
stage-known canonical_schema = refl
stage-known registry_schema = refl
stage-known authentication = refl
stage-known payload_integrity = refl
stage-known expiry = refl
stage-known connection_fence = refl
stage-known authenticated_binding = refl
stage-known operation_binding = refl
stage-known semantic_integrity = refl
stage-known authorization_revision = refl
stage-known replay_duplicate_sequence_capacity = refl
stage-known operation_transition = refl
stage-known execution_claim = refl
stage-known result_persistence = refl

id-valid : (o : Option String) → id_valid o ≡ is_message_id (wire_id o)
id-valid none = refl
id-valid (some id) = refl

-- What an answer says of its failure, and that it is one that the test accepts.
pub record Answers (f : ProtocolFailure) (p : ErrorResponsePayload) : Type 0 where
  pub accepted : validate_error_response (wire p) ≡ true
  pub same_code : p.code ≡ mapped_code f.reason
  pub same_stage : p.stage ≡ f.stage
  pub same_id : p.correlation_message_id ≡ f.correlation_message_id
  pub same_seconds : read_seconds p.retry_after ≡ f.retry_after_seconds

abbrev value_or {ℓ} : {T : Type ℓ} → T → Result T → T
value_or x (ok y) = y
value_or x (err _) = x

-- The test of the keys that depend on the code.
abbrev retry_fits : Bool → WireValue → Bool
retry_fits b w = if b then is_seconds w else is_missing w

Answered : ProtocolFailure → ProtocolErrorCode → Bool → Option ℤ → ErrorResponsePayload → Type 0
Answered f c b retry p =
    (p.code ≡ c)
    × (p.stage ≡ f.stage)
    × (p.correlation_message_id ≡ f.correlation_message_id)
    × (read_seconds p.retry_after ≡ retry)
    × (retry_fits b (wire_seconds p.retry_after) ≡ true)

answer_for-Answered :
    (f : ProtocolFailure) (c : ProtocolErrorCode) (b : Bool) (retry : Option ℤ)
    (p : ErrorResponsePayload)
    → retry_valid retry ≡ true
    → answer_for f c b retry ≡ ok p
    → Answered f c b retry p
unfolding answer_for Answered
answer_for-Answered f c true none p h e = absurd (ground arith)
answer_for-Answered f c true (some (negsuc n)) p h e = absurd (ground arith)
answer_for-Answered f c true (some (pos n)) p h e =
    subst (Answered f c true (some (pos n))) (ap (value_or p) e)
      (refl, refl, refl, ap (λ m. some (pos m)) (decimal_value-decimal n), decimal_text-decimal n)
answer_for-Answered f c false none p h e =
    subst (Answered f c false none) (ap (value_or p) e) (refl, refl, refl, refl, refl)
answer_for-Answered f c false (some s) p h e = absurd (ground arith)

classify-answer_for :
    (f : ProtocolFailure) (p : ErrorResponsePayload)
    → classify_protocol_failure f ≡ ok p
    → (id_valid f.correlation_message_id ≡ true)
      × (retry_valid f.retry_after_seconds ≡ true)
      × (answer_for f
            (mapped_code f.reason)
            (is_rate_limited (mapped_code f.reason))
            f.retry_after_seconds
          ≡ ok p)
unfolding classify_protocol_failure
classify-answer_for f p e =
    passed (id_valid f.correlation_message_id) (retry_valid f.retry_after_seconds)
      (answer_for f (mapped_code f.reason) (is_rate_limited (mapped_code f.reason))
        f.retry_after_seconds)
      e
  where
    passed :
        (a b : Bool) (r : Result ErrorResponsePayload)
        → (if not a
            then err Failure.schema_invalid
            else if not b
            then err Failure.schema_invalid
            else r)
          ≡ ok p
        → (a ≡ true) × (b ≡ true) × (r ≡ ok p)
    passed a b r h = ground arith

wire-accepted :
    (p : ErrorResponsePayload)
    → id_valid p.correlation_message_id ≡ true
    → retry_fits (is_rate_limited p.code) (wire_seconds p.retry_after) ≡ true
    → validate_error_response (wire p) ≡ true
unfolding validate_error_response
wire-accepted p id fits =
    let (known, limited) = code-known p.code in
    accepts (has (code_text p.code) error_codes) (has (stage_text p.stage) protocol_stages)
      (is_message_id (wire_id p.correlation_message_id))
      (is_exactly "RATE_LIMITED" (text (code_text p.code)))
      (is_seconds (wire_seconds p.retry_after)) (is_missing (wire_seconds p.retry_after)) known
      (stage-known p.stage) (sym (id-valid p.correlation_message_id) ∙ id)
      (ap (λ b. retry_fits b (wire_seconds p.retry_after)) limited ∙ fits)
  where
    accepts :
        (a b c d s m : Bool)
        → a ≡ true
        → b ≡ true
        → c ≡ true
        → (if d then s else m) ≡ true
        → (if not (a && b && c) then false else if d then s else m) ≡ true
    accepts a b c d s m h k l g = ground arith

-- The answer to a failure passes the test of answers, and has the code of its reason, its stage, its
-- message id and its seconds, which are read back from their text.
pub classify-Answers :
    (f : ProtocolFailure) (p : ErrorResponsePayload)
    → classify_protocol_failure f ≡ ok p
    → Answers f p
unfolding Answered
classify-Answers f p e =
    let (id, retry, answered) = classify-answer_for f p e in
    let c = mapped_code f.reason in
    let (code, stage, same_id, seconds, fits) =
      answer_for-Answered f c (is_rate_limited c) f.retry_after_seconds p retry answered in
    record {
      accepted =
          wire-accepted p (ap id_valid same_id ∙ id)
            (ap (λ k. retry_fits (is_rate_limited k) (wire_seconds p.retry_after)) code ∙ fits);
      same_code = code;
      same_stage = stage;
      same_id = same_id;
      same_seconds = seconds;
    }
