-- ===== src/ErrorModel/Tests.antt =====
-- Samples of failures and answers, and the theorem at one.
use agent_life.Shared.{◌≡◌, refl, false, none, some, Failure, ok, err, retry_after_required}
use agent_life.Shared.Int.{pos, negsuc}
use agent_life.Shared.Text.{codes, decimal, decimal_text}
use agent_life.Shared.Sets.{has}
use agent_life.ErrorModel.{
  ProtocolFailure, ErrorResponsePayload, decision, cooldown, rate_limited, execution_claim, uuid,
  classify_protocol_failure, validate_error_response, text,
}
use agent_life.ErrorModel.Answers.{wire, Answers, classify-Answers}

abbrev failure : ProtocolFailure
failure = record {
  stage = execution_claim;
  reason = decision cooldown;
  correlation_message_id = some "0123abcd-0123-4abc-8def-0123456789ab";
  retry_after_seconds = some (pos 120);
}

abbrev payload : ErrorResponsePayload
payload = record {
  code = rate_limited;
  stage = execution_claim;
  correlation_message_id = some "0123abcd-0123-4abc-8def-0123456789ab";
  retry_after = some "120";
}

classified : classify_protocol_failure failure ≡ ok payload
unfolding classify_protocol_failure uuid codes decimal
classified = refl

no_seconds :
    classify_protocol_failure (record failure { retry_after_seconds = none })
    ≡ err retry_after_required
unfolding classify_protocol_failure uuid codes
no_seconds = refl

negative_seconds :
    classify_protocol_failure (record failure { retry_after_seconds = some (negsuc 0) })
    ≡ err Failure.schema_invalid
unfolding classify_protocol_failure uuid codes
negative_seconds = refl

-- The fourth group of a random id starts with 8, 9, a or b.
other_variant : uuid "0123abcd-0123-4abc-cdef-0123456789ab" ≡ false
unfolding uuid codes
other_variant = refl

leading_zero : validate_error_response (record (wire payload) { retry_after = text "0120" }) ≡ false
unfolding validate_error_response has uuid codes decimal_text
leading_zero = refl

classify-Answers_example : Answers failure payload
classify-Answers_example = classify-Answers failure payload classified
