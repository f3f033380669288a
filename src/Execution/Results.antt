-- ===== src/Execution/Results.antt =====
-- `putResult` keeps the invariant: what is stored witnesses the record.
use agent_life.Shared.{
  ◌≡◌, refl, inl, inr, String, Bool, true, Option, none, some, arith, Result, ok, err, eq_iff,
  Bool-cases, sym, ◌∙◌, ◌==◌,
}
use agent_life.Shared.Dict.{get, Entries-get, Entries-set}
use agent_life.Operation.{
  TerminalOutcome, succeeded, failed, OperationReason, validate_wire_operation_state,
  OperationRecord, OperationEvent, execution_succeeded, execution_failed,
}
use agent_life.Operation.Machine.{Reduction, accepted, refused, reduce_operation}
use agent_life.Operation.Execution.{target, reduce_operation-target}
use agent_life.Execution.{
  SignedOperationReceipt, validate_signed_operation_receipt, ExecutionLedgerEntry, registered,
  claimed, result, Ledger, entry_record,
}
use agent_life.Execution.Ledger.{put_result, put_over, put_entry, put_reduced, conclude}
use agent_life.Execution.Invariant.{Bound, Sound, Inv, reduced-Bound, reduced-digest}

-- The event that `putResult` reduces by, with the state that the receipt signs.
record Reduces (r : OperationRecord) (now : String) (receipt : SignedOperationReceipt)
    (r' : OperationRecord) (c : Bool) : Type 0 where
  event : OperationEvent
  reduced : reduce_operation r event now ≡ ok (accepted r' c)
  signed : target event ≡ some receipt.state

conclude-Reduces :
    (r : OperationRecord) (now : String) (receipt : SignedOperationReceipt)
    (o : Option TerminalOutcome) (reason : Option OperationReason) {r' : OperationRecord} {c : Bool}
    → validate_signed_operation_receipt receipt ≡ true
    → receipt.state.terminal_outcome ≡ o
    → receipt.state.operation_reason ≡ reason
    → conclude r now o reason ≡ ok (accepted r' c)
    → Reduces r now receipt r' c
unfolding conclude validate_signed_operation_receipt validate_wire_operation_state
conclude-Reduces r now receipt (some succeeded) reason v p q h = record {
  event = execution_succeeded;
  reduced = h;
  signed = ground arith;
}
conclude-Reduces r now receipt (some failed) (some reason) v p q h = record {
  event = execution_failed reason;
  reduced = h;
  signed = ground arith;
}
conclude-Reduces r now receipt o reason v p q h = absurd (ground arith)

put_reduced-Inv :
    (l : Ledger) (op c d now : String) (r : OperationRecord) (receipt : SignedOperationReceipt)
    (x : Result Reduction)
    → Inv l
    → Bound op r
    → r.binding.parameters_digest ≡ d
    → receipt.operation_id ≡ op
    → receipt.parameters_digest ≡ d
    → validate_signed_operation_receipt receipt ≡ true
    → conclude r now receipt.state.terminal_outcome receipt.state.operation_reason ≡ x
    → Inv (put_reduced l op c d receipt x).0
unfolding put_reduced
put_reduced-Inv l op c d now r receipt (err e) inv b p i k v h = inv
put_reduced-Inv l op c d now r receipt (ok (refused _ _)) inv b p i k v h = inv
put_reduced-Inv l op c d now r receipt (ok (accepted r' changed)) inv b p i k v h =
    let x =
      conclude-Reduces r now receipt receipt.state.terminal_outcome receipt.state.operation_reason v
        refl refl h in
    elim (Bool-cases (r'.state_revision == receipt.state_revision)) [
      | inl same ↦
          rw (same, put_reduced)
            (Entries-set Sound op (result r' c d receipt) l inv (
              reduced-Bound op r x.event now b x.reduced,
              ground (arith, reduced-digest r x.event now x.reduced),
              record {
                operation = i;
                digest = k;
                revision = ground arith;
                state = sym (reduce_operation-target r x.event now x.reduced x.signed);
                valid = v;
              },
            ))
      | inr other ↦ rw (other, put_reduced) inv
    ]

put_entry-Inv :
    (l : Ledger) (op c now : String) (receipt : SignedOperationReceipt)
    (prior : ExecutionLedgerEntry)
    → Inv l
    → Sound op prior
    → receipt.operation_id ≡ op
    → receipt.parameters_digest ≡ (entry_record prior).binding.parameters_digest
    → validate_signed_operation_receipt receipt ≡ true
    → Inv (put_entry l op c receipt now prior).0
unfolding put_entry
put_entry-Inv l op c now receipt (result _ _ _ _) inv b i k v = ground arith
put_entry-Inv l op c now receipt (registered _ _) inv b i k v = inv
put_entry-Inv l op c now receipt (claimed r c' at d) inv (b, p, _) i k v = ground (
  arith,
  put_reduced-Inv l op c' d now r receipt
      (conclude r now receipt.state.terminal_outcome receipt.state.operation_reason) inv b p i
      (k ∙ p) v refl,
)

put_over-Inv :
    (l : Ledger) (op d c now : String) (receipt : SignedOperationReceipt)
    (prior : Option ExecutionLedgerEntry)
    → Inv l
    → get op l ≡ prior
    → Inv (put_over l op d c receipt now prior).0
unfolding put_over
put_over-Inv l op d c now receipt none inv g = inv
put_over-Inv l op d c now receipt (some prior) inv g = ground (
  arith,
  eq_iff (entry_record prior).binding.parameters_digest d,
  eq_iff receipt.parameters_digest d,
  eq_iff receipt.operation_id op,
  put_entry-Inv l op c now receipt prior inv (Entries-get Sound op l inv g),
)

pub put_result-Inv :
    (l : Ledger) (op d c now : String) (receipt : SignedOperationReceipt)
    → Inv l
    → Inv (put_result l op d c receipt now).0
unfolding put_result
put_result-Inv l op d c now receipt inv = put_over-Inv l op d c now receipt (get op l) inv refl
