-- ===== src/Operation/Invariant.antt =====
-- `reduceOperation` keeps records valid, changes nothing but the state, and counts its changes.
use agent_life.Shared.{
  ℕ, suc, ◌+◌, ◌≤◌, ◌≡◌, inl, inr, String, Bool, true, false, Option, none, some, List, arith, ok,
  if◌then◌else◌,
}
use agent_life.Operation.{
  RequestStatus, created, waiting_device, dispatching, accepted_device, awaiting_approval, approved,
  executing, StoredOperationBinding, RevisionSnapshot, OfflinePolicy, WireOperationState,
  Reconciliation, OperationRecord, OperationEvent, create_operation_record,
  validate_wire_operation_state, validate_operation_event, validate_operation_record,
}
use agent_life.Operation.Machine.{accepted, reduce_operation, run, advance}
use agent_life.Operation.Effect.{Effect, reduce_operation-Effect, run_inv}

advance-valid :
    (r : OperationRecord) (now : String) (e : OperationEvent) (s : RequestStatus)
    {st : WireOperationState}
    → validate_operation_event e ≡ true
    → advance r now e s ≡ some st
    → validate_wire_operation_state st ≡ true
unfolding advance validate_operation_event validate_wire_operation_state
advance-valid r now e s v h = ground arith

Effect-valid :
    (r : OperationRecord) (now : String) (e : OperationEvent) {r' : OperationRecord} {c : Bool}
    → validate_operation_record r ≡ true
    → validate_operation_event e ≡ true
    → Effect r e now r' c
    → validate_operation_record r' ≡ true
unfolding validate_operation_record validate_operation_event
Effect-valid r now e v w (inl x) = ground (arith, advance-valid r now e x.from w x.step)
Effect-valid r now e v w (inr (inl x)) = ground arith
Effect-valid r now e v w (inr (inr x)) = ground arith

-- Whatever is accepted leaves a valid record.
pub reduce_operation-valid :
    (r : OperationRecord) (e : OperationEvent) (now : String) {r' : OperationRecord} {c : Bool}
    → reduce_operation r e now ≡ ok (accepted r' c)
    → validate_operation_record r' ≡ true
reduce_operation-valid r e now h =
    let (v, w, x) = reduce_operation-Effect r now e h in Effect-valid r now e v w x

abbrev pub Frame : OperationRecord → OperationRecord → Bool → Type 0
Frame r r' c =
    (r'.state_revision ≡ r.state_revision + (if c then 1 else 0))
    × (c ≡ false → r' ≡ r)
    × (r'.binding ≡ r.binding)
    × (r'.revision_snapshot ≡ r.revision_snapshot)
    × (r'.operation_expires_at ≡ r.operation_expires_at)
    × (r'.offline_policy ≡ r.offline_policy)

Effect-Frame :
    (r : OperationRecord) (e : OperationEvent) (now : String) {r' : OperationRecord} {c : Bool}
    → Effect r e now r' c
    → Frame r r' c
Effect-Frame r e now (inl x) = ground arith
Effect-Frame r e now (inr (inl x)) = ground arith
Effect-Frame r e now (inr (inr x)) = ground arith

-- An accepted event adds one to the revision if it changed the record and nothing otherwise; an
-- unchanged record is the old one. Binding, snapshot, expiry and offline policy never change.
pub reduce_operation-Frame :
    (r : OperationRecord) (e : OperationEvent) (now : String) {r' : OperationRecord} {c : Bool}
    → reduce_operation r e now ≡ ok (accepted r' c)
    → Frame r r' c
reduce_operation-Frame r e now h =
    let (_, _, x) = reduce_operation-Effect r now e h in Effect-Frame r e now x

-- How far a record has come; a reconciliation is the last step.
abbrev rank : Option RequestStatus → ℕ
rank (some created) = 0
rank (some waiting_device) = 1
rank (some dispatching) = 2
rank (some accepted_device) = 3
rank (some awaiting_approval) = 4
rank (some approved) = 5
rank (some executing) = 6
rank none = 7

abbrev reconciled : Option Reconciliation → ℕ
reconciled none = 0
reconciled (some _) = 1

abbrev pub progress : OperationRecord → ℕ
progress r = rank r.state.request_status + reconciled r.reconciliation

advance-rank :
    (r : OperationRecord) (now : String) (e : OperationEvent) (s : RequestStatus)
    {st : WireOperationState}
    → advance r now e s ≡ some st
    → suc (rank (some s)) ≤ rank st.request_status
unfolding advance
advance-rank r now e s h = ground arith

Effect-progress :
    (r : OperationRecord) (now : String) (e : OperationEvent) {r' : OperationRecord} {c : Bool}
    → Effect r e now r' c
    → r.state_revision ≤ progress r
    → r'.state_revision ≤ progress r'
Effect-progress r now e (inl x) b = ground (arith, advance-rank r now e x.from x.step)
Effect-progress r now e (inr (inl x)) b = ground arith
Effect-progress r now e (inr (inr x)) b = ground arith

progress-le : (r : OperationRecord) → progress r ≤ 8
progress-le r = ground arith

created-progress :
    (b : StoredOperationBinding) (s : RevisionSnapshot) (expires : String) (p : OfflinePolicy)
    (st : Option WireOperationState) {r : OperationRecord}
    → create_operation_record b s expires p st ≡ ok r
    → r.state_revision ≤ progress r
unfolding create_operation_record
created-progress b s expires p st h = ground arith

-- A record that `createOperationRecord` made, in whatever state, changes at most eight times under
-- any sequence of events: its revision never exceeds 8.
run_revision_bound :
    (b : StoredOperationBinding) (s : RevisionSnapshot) (expires : String) (p : OfflinePolicy)
    (st : Option WireOperationState) {r : OperationRecord} (es : List (OperationEvent × String))
    → create_operation_record b s expires p st ≡ ok r
    → (run r es).state_revision ≤ 8
run_revision_bound b s expires p st {r} es h = omega (
  arith,
  run_inv (λ q. q.state_revision ≤ progress q) (λ r e now r' c v w x. Effect-progress r now e x) r
      es (created-progress b s expires p st h),
  progress-le (run r es),
)
