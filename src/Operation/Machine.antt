-- ===== src/Operation/Machine.antt =====
-- protocol/src/operation-machine.ts: `reduceOperation`, and histories of events. The default of
-- `now`, the clock, is an argument.
use agent_life.Shared.{
  suc, ◌-◌, String, Bool, true, false, ◌&&◌, Option, none, some, List, [], ◌∷◌, str_eq, leb, Result,
  ok, err, if◌then◌else◌, schema_invalid,
}
use agent_life.Shared.Text.{non_empty}
use agent_life.Shared.Instant.{instant_ms, valid_instant}
use agent_life.Operation.{
  RequestStatus, created, waiting_device, dispatching, accepted_device, awaiting_approval, approved,
  executing, TerminalOutcome, succeeded, failed, denied, cancelled, expired, result_unknown,
  user_denied, WireOperationState, requested, concluded, OfflinePolicy, wait_read, fail_offline,
  EvidenceOutcome, proved_success, proved_failure, Reconciliation, OperationRecord, OperationEvent,
  queue_wait_read, dispatch, device_accepted, approval_required, approval_not_required,
  approval_granted, approval_denied, execution_claimed, fail_before_claim, execution_succeeded,
  execution_failed, deny, execution_result_unknown, cancel, expire, reconcile_evidence,
  failure_reason, denial_reason, is_result_unknown, validate_operation_event,
  validate_operation_record,
}

pub data ReductionError : Type 0 where
  invalid_transition result_conflict : ReductionError

pub data Reduction : Type 0 where
  accepted : OperationRecord → Bool → Reduction
  refused : ReductionError → OperationRecord → Reduction

abbrev pub next : OperationRecord → WireOperationState → Option Reconciliation → OperationRecord
next r s e = record r { state_revision = suc r.state_revision; state = s; reconciliation = e }

abbrev pub invalid : OperationRecord → Reduction
invalid r = refused invalid_transition r

abbrev pub same_outcome : EvidenceOutcome → EvidenceOutcome → Bool
same_outcome proved_success proved_success = true
same_outcome proved_failure proved_failure = true
same_outcome _ _ = false

unfoldable pub same_evidence : Reconciliation → Reconciliation → Bool
same_evidence a b =
    same_outcome a.outcome b.outcome
    && str_eq a.evidence_digest b.evidence_digest
    && str_eq a.observed_at b.observed_at

unfoldable pub against_prior : OperationRecord → Reconciliation → Option Reconciliation → Reduction
unfolding same_evidence
against_prior r e none = accepted (next r r.state (some e)) true
against_prior r e (some prior) =
    if same_evidence prior e then accepted r false else refused result_conflict r

unfoldable pub reconcile : OperationRecord → Reconciliation → Reduction
unfolding against_prior
reconcile r e =
    if is_result_unknown r.state.terminal_outcome
    then if non_empty e.evidence_digest && valid_instant e.observed_at
      then against_prior r e r.reconciliation
      else invalid r
    else invalid r

-- At most 15 minutes are left. A difference with NaN passes both tests of the source.
unfoldable pub in_queue_window : String → String → Bool
in_queue_window expires now = elim (instant_ms now) [
  | none ↦ false
  | some t ↦ elim (instant_ms expires) [
    | none ↦ true
    | some limit ↦ leb t limit && leb (limit - t) 900000
  ]
]

abbrev pub waits : OfflinePolicy → Bool
waits wait_read = true
waits fail_offline = false

abbrev pub before_claim : RequestStatus → Bool
before_claim executing = false
before_claim _ = true

abbrev pub when : Bool → WireOperationState → Option WireOperationState
when true s = some s
when false s = none

-- The switch of `reduceOperation`: the state that follows, if the event fits the status.
unfoldable pub advance :
    OperationRecord → String → OperationEvent → RequestStatus → Option WireOperationState
advance r now queue_wait_read created =
    when (waits r.offline_policy && in_queue_window r.operation_expires_at now)
      (requested waiting_device)
advance r now dispatch created = some (requested dispatching)
advance r now dispatch waiting_device = some (requested dispatching)
advance r now device_accepted dispatching = some (requested accepted_device)
advance r now approval_required accepted_device = some (requested awaiting_approval)
advance r now approval_not_required accepted_device = some (requested approved)
advance r now approval_granted awaiting_approval = some (requested approved)
advance r now approval_denied awaiting_approval = some (concluded denied (some user_denied))
advance r now execution_claimed approved = some (requested executing)
advance r now (fail_before_claim reason) status =
    when (before_claim status && failure_reason reason) (concluded failed (some reason))
advance r now execution_succeeded executing = some (concluded succeeded none)
advance r now (execution_failed reason) executing =
    when (failure_reason reason) (concluded failed (some reason))
advance r now execution_result_unknown executing = some (concluded result_unknown none)
advance r now cancel status = when (before_claim status) (concluded cancelled none)
advance r now expire status = when (before_claim status) (concluded expired none)
advance r now (deny reason) status =
    when (before_claim status && denial_reason reason) (concluded denied (some reason))
advance r now _ _ = none

unfoldable pub settle : OperationRecord → Option WireOperationState → Reduction
settle r none = invalid r
settle r (some s) = accepted (next r s r.reconciliation) true

-- No case of the switch takes a missing status.
unfoldable pub from_status :
    OperationRecord → String → OperationEvent → Option RequestStatus → Reduction
unfolding advance settle
from_status r now e none = invalid r
from_status r now e (some status) = settle r (advance r now e status)

unfoldable pub proceed :
    OperationRecord → String → OperationEvent → Option TerminalOutcome → Reduction
unfolding from_status
proceed r now e (some _) = invalid r
proceed r now e none = from_status r now e r.state.request_status

unfoldable pub reduce : OperationRecord → String → OperationEvent → Reduction
unfolding reconcile proceed
reduce r now (reconcile_evidence e) = reconcile r e
reduce r now e = proceed r now e r.state.terminal_outcome

unfoldable pub reduce_operation : OperationRecord → OperationEvent → String → Result Reduction
unfolding reduce in_queue_window
reduce_operation r e now =
    if validate_operation_record r && validate_operation_event e
    then ok (reduce r now e)
    else err schema_invalid

-- What a store holds after a call: the record of an accepted reduction, else what it held.
abbrev pub held : OperationRecord → Result Reduction → OperationRecord
held r (ok (accepted r' _)) = r'
held r (ok (refused _ _)) = r
held r (err _) = r

unfoldable pub run : OperationRecord → List (OperationEvent × String) → OperationRecord
run r [] = r
run r ((e, now) ∷ es) = run (held r (reduce_operation r e now)) es
