-- ===== src/Execution/Tests.antt =====
-- A sample ledger: a claimed operation, its receipt, and the theorems at them.
use agent_life.Shared.{
  ◌≡◌, ◌≢◌, refl, inl, String, Bool, true, Option, none, some, List, [], ◌∷◌, ok, err,
  integrity_failed, ℕ, ap,
}
use agent_life.Shared.Text.{non_empty, digest}
use agent_life.Shared.Instant.{valid_instant}
use agent_life.Shared.Dict.{get, set}
use agent_life.Operation.{
  approved, executing, succeeded, requested, concluded, validate_operation_record,
  validate_operation_event, validate_wire_operation_state, valid_binding, valid_revision_snapshot,
}
use agent_life.Operation.Machine.{reduce_operation, next}
use agent_life.Operation.Tests.{sample, now}
use agent_life.Execution.{
  Json, SignedOperationReceipt, validate_signed_operation_receipt, registered, claimed, result,
  Ledger, equal_bytes,
}
use agent_life.Execution.Ledger.{
  claimed_as, result_conflict, claim, put_result, recover_claimed_without_result,
}
use agent_life.Execution.Invariant.{Inv}
use agent_life.Execution.Recovery.{recover-claimed_ids, recover_again}
use agent_life.Execution.Lifecycle.{Grows}
use agent_life.Execution.Calls.{
  register_call, claim_call, recover_call, Call, step, run, run-Inv, step-Grows, claim_once,
  result_final,
}

abbrev op : String
op = "operation-1"

abbrev params : String
params = "47DEQpj8HBSa-_TImW-5JCeuQeRkm5NMpJWZG3hSuFU"

abbrev receipt : SignedOperationReceipt
receipt = record {
  operation_id = op;
  parameters_digest = params;
  state_revision = 2;
  state = concluded succeeded none;
  result_digest = none;
  envelope_digest = params;
  message_id = "message-1";
  canonical_bytes = 123 ∷ 125 ∷ [];
}

abbrev other_receipt : SignedOperationReceipt
other_receipt = record receipt { canonical_bytes = 123 ∷ 32 ∷ 125 ∷ [] }

-- Stands for `canonicalize`: a constant text.
abbrev canonical : Json → Option (List ℕ)
canonical _ = some (110 ∷ [])

abbrev date_parses : String → Bool
date_parses _ = true

abbrev waiting : Ledger
waiting = (op, registered (sample (requested approved)) "replay-1") ∷ []

abbrev running : Ledger
running =
    (
      op,
      claimed (next (sample (requested approved)) (requested executing) none) "claim-1" now params,
    )
    ∷ []

abbrev finished : Ledger
finished =
    (
      op,
      result
          (next (next (sample (requested approved)) (requested executing) none)
            (concluded succeeded none) none)
          "claim-1" params receipt,
    )
    ∷ []

claim-claimed_as :
    claim date_parses waiting op params now "claim-1" now ≡ (running, ok (claimed_as "claim-1"))
unfolding claim get set reduce_operation validate_operation_record validate_operation_event
    valid_binding valid_revision_snapshot non_empty digest valid_instant
claim-claimed_as = refl

put_result-stored : (put_result running op params "claim-1" receipt now).0 ≡ finished
unfolding put_result get set reduce_operation validate_operation_record validate_operation_event
    valid_binding valid_revision_snapshot non_empty digest valid_instant
    validate_signed_operation_receipt validate_wire_operation_state
put_result-stored = refl

waiting-Inv : Inv waiting
unfolding validate_operation_record valid_binding valid_revision_snapshot non_empty digest
    valid_instant validate_wire_operation_state
waiting-Inv = ((refl, refl), tt)

running-Inv : Inv running
unfolding validate_operation_record valid_binding valid_revision_snapshot non_empty digest
    valid_instant validate_wire_operation_state
running-Inv = (((refl, refl), refl, inl refl), tt)

other_receipt-valid : validate_signed_operation_receipt other_receipt ≡ true
unfolding validate_signed_operation_receipt non_empty digest validate_wire_operation_state
other_receipt-valid = refl

abbrev calls : List Call
calls = register_call (sample (requested approved)) "replay-2" ∷ recover_call now ∷ []

run-Inv_example : Inv (run canonical date_parses waiting calls)
run-Inv_example = run-Inv canonical date_parses waiting calls waiting-Inv

step-Grows_example :
    Grows
      (get op waiting)
      (get op (step canonical date_parses waiting (claim_call op params now "claim-1" now)))
step-Grows_example =
    step-Grows canonical date_parses waiting (claim_call op params now "claim-1" now) op

claim_once_example :
    (claim date_parses
      (run canonical date_parses (claim date_parses waiting op params now "claim-1" now).0 calls)
      op
      params
      now
      "claim-2"
      now).1
    ≢ ok (claimed_as "claim-2")
claim_once_example =
    claim_once canonical date_parses waiting calls op params now "claim-1" now "claim-1" params now
      "claim-2" now "claim-2" (ap (λ x. x.1) claim-claimed_as)

result_final_example :
    put_result (run canonical date_parses finished calls) op params "claim-1" other_receipt now
    ≡ (run canonical date_parses finished calls, ok result_conflict)
unfolding get equal_bytes
result_final_example =
    result_final canonical date_parses finished calls op params "claim-1" "claim-1" params now _
      receipt other_receipt refl refl other_receipt-valid refl refl

recover_again_example :
    (recover_claimed_without_result now (recover_claimed_without_result now running).0).1
    ≡ err integrity_failed
recover_again_example =
    recover_again now now running (op ∷ []) running-Inv refl
      (recover-claimed_ids now running running-Inv (refl, tt))
