-- ===== src/Execution/Ledger.antt =====
-- protocol/src/execution-ledger.ts: the methods of MemoryExecutionLedger. A method returns the
-- entries that it leaves and what it returns or throws; random claim ids and the clock that
-- `reduceOperation` reads are arguments.
use agent_life.Shared.{
  ℕ, suc, String, Bool, not, ◌&&◌, ◌||◌, ◌==◌, Option, none, some, List, [], ◌∷◌, str_eq, Result,
  ok, err, if◌then◌else◌, schema_invalid, integrity_failed,
}
use agent_life.Shared.Text.{non_empty, digest}
use agent_life.Shared.Dict.{get, set}
use agent_life.Operation.{
  TerminalOutcome, succeeded, failed, OperationReason, WireOperationState, OperationRecord,
  execution_claimed, execution_succeeded, execution_failed, execution_result_unknown,
  validate_operation_record,
}
use agent_life.Operation.Machine.{
  Reduction, accepted, refused, invalid_transition, reduce_operation,
}
use agent_life.Execution.{
  Json, SignedOperationReceipt, validate_signed_operation_receipt, ExecutionLedgerEntry, registered,
  claimed, result, Ledger, entry_record, equal_bytes, equivalent_record,
}

pub data Registration : Type 0 where
  new same conflict : Registration

pub data Claim : Type 0 where
  claimed_as already_claimed : String → Claim
  already_result : SignedOperationReceipt → Claim
  invalid_state : WireOperationState → Claim
  digest_conflict not_found : Claim

pub data Put : Type 0 where
  stored same_result result_conflict digest_mismatch claim_mismatch invalid_put : Put

-- What `recordResult` makes of it.
pub data Recorded : Type 0 where
  recorded recorded_before conflicting_result integrity_error invalid_transition_error : Recorded

module _ (canonical : Json → Option (List ℕ)) where
  unfoldable pub register_over :
      Ledger → OperationRecord → String → Option ExecutionLedgerEntry → Ledger × Registration
  register_over l r replay none = (set r.binding.operation_id (registered r replay) l, new)
  register_over l r replay (some prior) =
      if str_eq (entry_record prior).binding.parameters_digest r.binding.parameters_digest
        && equivalent_record canonical (entry_record prior) r
      then (l, same)
      else (l, conflict)

  unfoldable pub register : Ledger → OperationRecord → String → Ledger × Result Registration
  unfolding register_over
  register l r replay =
      if validate_operation_record r && non_empty replay
      then (let (l', answer) = register_over l r replay (get r.binding.operation_id l) in
          (l', ok answer))
      else (l, err schema_invalid)

unfoldable pub claim_reduced :
    Ledger
    → String
    → String
    → String
    → String
    → OperationRecord
    → Result Reduction
    → Ledger × Result Claim
claim_reduced l op at d fresh prior (err e) = (l, err e)
claim_reduced l op at d fresh prior (ok (refused _ _)) = (l, ok (invalid_state prior.state))
claim_reduced l op at d fresh prior (ok (accepted r _)) =
    if non_empty fresh
    then (set op (claimed r fresh at d) l, ok (claimed_as fresh))
    else (l, err schema_invalid)

unfoldable pub claim_entry :
    Ledger
    → String
    → String
    → String
    → String
    → String
    → ExecutionLedgerEntry
    → Ledger × Result Claim
unfolding claim_reduced
claim_entry l op d at fresh now (result _ _ _ receipt) = (l, ok (already_result receipt))
claim_entry l op d at fresh now (claimed _ c _ _) = (l, ok (already_claimed c))
claim_entry l op d at fresh now (registered r _) =
    claim_reduced l op at d fresh r (reduce_operation r execution_claimed now)

unfoldable pub claim_over :
    Ledger
    → String
    → String
    → String
    → String
    → String
    → Option ExecutionLedgerEntry
    → Ledger × Result Claim
unfolding claim_entry
claim_over l op d at fresh now none = (l, ok not_found)
claim_over l op d at fresh now (some prior) =
    if str_eq (entry_record prior).binding.parameters_digest d
    then claim_entry l op d at fresh now prior
    else (l, ok digest_conflict)

unfoldable pub claim :
    (String → Bool) → Ledger → String → String → String → String → String → Ledger × Result Claim
unfolding claim_over
claim date_parses l op d at fresh now =
    if non_empty op && digest d && date_parses at
    then claim_over l op d at fresh now (get op l)
    else (l, ok not_found)

-- `reduced` in `putResult`, with its record's revision.
unfoldable pub conclude :
    OperationRecord → String → Option TerminalOutcome → Option OperationReason → Result Reduction
conclude r now (some succeeded) _ = reduce_operation r execution_succeeded now
conclude r now (some failed) (some reason) = reduce_operation r (execution_failed reason) now
conclude r now _ _ = ok (refused invalid_transition r)

unfoldable pub put_reduced :
    Ledger
    → String
    → String
    → String
    → SignedOperationReceipt
    → Result Reduction
    → Ledger × Result Put
put_reduced l op c d receipt (err e) = (l, err e)
put_reduced l op c d receipt (ok (refused _ _)) = (l, ok invalid_put)
put_reduced l op c d receipt (ok (accepted r _)) =
    if r.state_revision == receipt.state_revision
    then (set op (result r c d receipt) l, ok stored)
    else (l, ok invalid_put)

unfoldable pub put_entry :
    Ledger
    → String
    → String
    → SignedOperationReceipt
    → String
    → ExecutionLedgerEntry
    → Ledger × Result Put
unfolding put_reduced conclude
put_entry l op c receipt now (result _ _ _ prior) =
    if equal_bytes prior.canonical_bytes receipt.canonical_bytes
    then (l, ok same_result)
    else (l, ok result_conflict)
put_entry l op c receipt now (registered _ _) = (l, ok invalid_put)
put_entry l op c receipt now (claimed r c' _ d) =
    if not (str_eq c' c)
    then (l, ok claim_mismatch)
    else if not (receipt.state_revision == suc r.state_revision)
    then (l, ok invalid_put)
    else put_reduced l op c' d receipt
        (conclude r now receipt.state.terminal_outcome receipt.state.operation_reason)

unfoldable pub put_over :
    Ledger
    → String
    → String
    → String
    → SignedOperationReceipt
    → String
    → Option ExecutionLedgerEntry
    → Ledger × Result Put
unfolding put_entry
put_over l op d c receipt now none = (l, ok invalid_put)
put_over l op d c receipt now (some prior) =
    if not (str_eq (entry_record prior).binding.parameters_digest d)
      || not (str_eq receipt.parameters_digest d)
    then (l, ok digest_mismatch)
    else if not (validate_signed_operation_receipt receipt) || not (str_eq receipt.operation_id op)
    then (l, ok claim_mismatch)
    else put_entry l op c receipt now prior

unfoldable pub put_result :
    Ledger → String → String → String → SignedOperationReceipt → String → Ledger × Result Put
unfolding put_over
put_result l op d c receipt now = put_over l op d c receipt now (get op l)

-- The loop of `recoverClaimedWithoutResult` over the entries; an exception keeps what the rounds
-- before it have set.
abbrev pub also : String → Result (List String) → Result (List String)
also op (ok ops) = ok (op ∷ ops)
also op (err e) = err e

-- One round at a claimed entry, `later` being what the later rounds would do.
unfoldable pub recover_round :
    String
    → OperationRecord
    → String
    → String
    → String
    → Ledger
    → Ledger × Result (List String)
    → Result Reduction
    → Ledger × Result (List String)
recover_round op r c at d l later (err e) = ((op, claimed r c at d) ∷ l, err e)
recover_round op r c at d l later (ok (refused _ _)) =
    ((op, claimed r c at d) ∷ l, err integrity_failed)
recover_round op r c at d l (l', out) (ok (accepted r' _)) =
    ((op, claimed r' c at d) ∷ l', also op out)

abbrev pub keep_entry :
    String → ExecutionLedgerEntry → Ledger × Result (List String) → Ledger × Result (List String)
keep_entry op entry (l, out) = ((op, entry) ∷ l, out)

unfoldable pub recover_claimed_without_result : String → Ledger → Ledger × Result (List String)
unfolding recover_round
recover_claimed_without_result now [] = ([], ok [])
recover_claimed_without_result now ((op, claimed r c at d) ∷ l) =
    recover_round op r c at d l (recover_claimed_without_result now l)
      (reduce_operation r execution_result_unknown now)
recover_claimed_without_result now ((op, entry) ∷ l) =
    keep_entry op entry (recover_claimed_without_result now l)

pub record_result : Result Put → Result Recorded
record_result (err e) = err e
record_result (ok stored) = ok recorded
record_result (ok same_result) = ok recorded_before
record_result (ok result_conflict) = ok conflicting_result
record_result (ok digest_mismatch) = ok integrity_error
record_result (ok claim_mismatch) = ok integrity_error
record_result (ok invalid_put) = ok invalid_transition_error
