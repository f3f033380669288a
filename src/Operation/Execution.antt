-- ===== src/Operation/Execution.antt =====
-- What the events of an execution do to a record.
use agent_life.Shared.{◌≡◌, inl, inr, String, Bool, true, Option, none, some, arith, ok}
use agent_life.Operation.{
  executing, succeeded, failed, result_unknown, WireOperationState, requested, concluded,
  OperationRecord, OperationEvent, execution_claimed, execution_succeeded, execution_failed,
  execution_result_unknown, validate_operation_event, validate_operation_record,
}
use agent_life.Operation.Machine.{
  accepted, refused, invalid_transition, next, reduce_operation, reduce, proceed, from_status,
  settle, advance,
}
use agent_life.Operation.Effect.{Effect, reduce_operation-Effect}

-- The states that the four events of an execution lead to.
abbrev pub target : OperationEvent → Option WireOperationState
target execution_claimed = some (requested executing)
target execution_succeeded = some (concluded succeeded none)
target (execution_failed reason) = some (concluded failed (some reason))
target execution_result_unknown = some (concluded result_unknown none)
target _ = none

Effect-target :
    (r : OperationRecord) (now : String) (e : OperationEvent) {r' : OperationRecord} {c : Bool}
    {s : WireOperationState}
    → Effect r e now r' c
    → target e ≡ some s
    → r'.state ≡ s
unfolding advance
Effect-target r now e (inl x) t = ground (arith, x.step)
Effect-target r now e (inr (inl x)) t = absurd (ground arith)
Effect-target r now e (inr (inr x)) t = absurd (ground arith)

pub reduce_operation-target :
    (r : OperationRecord) (e : OperationEvent) (now : String) {r' : OperationRecord} {c : Bool}
    {s : WireOperationState}
    → reduce_operation r e now ≡ ok (accepted r' c)
    → target e ≡ some s
    → r'.state ≡ s
reduce_operation-target r e now h t = Effect-target r now e (reduce_operation-Effect r now e h).2 t

-- An executing record can be given up; a concluded one cannot.
pub give_up :
    (r : OperationRecord) (now : String)
    → validate_operation_record r ≡ true
    → r.state ≡ requested executing
    → reduce_operation r execution_result_unknown now
      ≡ ok (accepted (next r (concluded result_unknown none) r.reconciliation) true)
unfolding reduce_operation reduce proceed from_status settle advance validate_operation_event
give_up r now v e = ground arith

pub give_up_again :
    (r : OperationRecord) (now : String)
    → validate_operation_record r ≡ true
    → r.state ≡ concluded result_unknown none
    → reduce_operation r execution_result_unknown now ≡ ok (refused invalid_transition r)
unfolding reduce_operation reduce proceed validate_operation_event
give_up_again r now v e = ground arith
