-- ===== src/Operation/Tests.antt =====
-- Sample operations: the reducer's theorems at inputs that meet their hypotheses.
use agent_life.Shared.{◌≡◌, ◌⊎◌, refl, String, true, none, some, List, [], ◌∷◌, ok, any}
use agent_life.Shared.Text.{non_empty, digest}
use agent_life.Shared.Instant.{valid_instant}
use agent_life.Operation.{
  created, succeeded, result_unknown, session, WireOperationState, requested, concluded,
  StoredOperationBinding, RevisionSnapshot, wait_read, proved_success, proved_failure,
  Reconciliation, OperationRecord, OperationEvent, queue_wait_read, dispatch, device_accepted,
  approval_not_required, execution_claimed, execution_succeeded, reconcile_evidence,
  validate_operation_event, validate_operation_record, create_operation_record, valid_binding,
  valid_revision_snapshot,
}
use agent_life.Operation.Machine.{
  accepted, refused, result_conflict, next, reduce_operation, run, same_evidence,
}
use agent_life.Operation.Invariant.{reduce_operation-valid}
use agent_life.Operation.Terminal.{run_terminal_state, reconcile_once}
use agent_life.Operation.Lifecycle.{past_approval, is_approval, run_needs_approval}

abbrev pub sample_binding : StoredOperationBinding
sample_binding = record {
  tenant_id = "tenant-1";
  human_principal_id = "human-1";
  agent_principal_id = "agent-1";
  agent_instance_id = "instance-1";
  workspace_id = "workspace-1";
  session_or_job = session "session-1";
  device_id = "device-1";
  operation_id = "operation-1";
  capability = "notifications.read";
  parameters_digest = "47DEQpj8HBSa-_TImW-5JCeuQeRkm5NMpJWZG3hSuFU";
}

abbrev pub sample_snapshot : RevisionSnapshot
sample_snapshot = record {
  pairing_generation = 1;
  authorization_epoch = 2;
  scope_revisions = ("notifications.read", 3) ∷ [];
}

abbrev pub expires : String
expires = "2026-08-01T00:15:00.000Z"

abbrev pub now : String
now = "2026-08-01T00:00:00.000Z"

abbrev pub sample : WireOperationState → OperationRecord
sample s = record {
  binding = sample_binding;
  revision_snapshot = sample_snapshot;
  operation_expires_at = expires;
  offline_policy = wait_read;
  state_revision = 0;
  state = s;
  reconciliation = none;
}

abbrev proof : Reconciliation
proof = record { outcome = proved_success; evidence_digest = "evidence-1"; observed_at = now }

abbrev other_proof : Reconciliation
other_proof = record { outcome = proved_failure; evidence_digest = "evidence-2"; observed_at = now }

abbrev history : List (OperationEvent × String)
history =
    (queue_wait_read, now)
    ∷ (dispatch, now)
    ∷ (device_accepted, now)
    ∷ (approval_not_required, now)
    ∷ (execution_claimed, now)
    ∷ (execution_succeeded, now)
    ∷ []

abbrev unknown : OperationRecord
unknown = sample (concluded result_unknown none)

history_succeeds : (run (sample (requested created)) history).state ≡ concluded succeeded none
unfolding run reduce_operation validate_operation_record valid_binding valid_revision_snapshot
    validate_operation_event non_empty digest valid_instant
history_succeeds = refl

created_sample :
    create_operation_record sample_binding sample_snapshot expires wait_read none
    ≡ ok (sample (requested created))
unfolding create_operation_record validate_operation_record valid_binding valid_revision_snapshot
    non_empty digest valid_instant
created_sample = refl

abbrev reconciled_unknown : OperationRecord
reconciled_unknown = next unknown unknown.state (some proof)

unknown_reconciled :
    reduce_operation unknown (reconcile_evidence proof) now
    ≡ ok (accepted (reconciled_unknown) true)
unfolding reduce_operation validate_operation_record valid_binding valid_revision_snapshot
    validate_operation_event non_empty digest valid_instant
unknown_reconciled = refl

other_proof_valid : validate_operation_event (reconcile_evidence other_proof) ≡ true
unfolding validate_operation_event non_empty valid_instant
other_proof_valid = refl

reduce_operation-valid_example : validate_operation_record (reconciled_unknown) ≡ true
reduce_operation-valid_example =
    reduce_operation-valid unknown (reconcile_evidence proof) now unknown_reconciled

run_terminal_state_example : (run unknown history).state ≡ concluded result_unknown none
run_terminal_state_example = run_terminal_state unknown result_unknown history refl

reconcile_once_example :
    reduce_operation (reconciled_unknown) (reconcile_evidence other_proof) now
    ≡ ok (refused result_conflict (reconciled_unknown))
unfolding same_evidence
reconcile_once_example =
    reconcile_once unknown proof other_proof now now unknown_reconciled other_proof_valid

run_needs_approval_example :
    (past_approval (requested created) ≡ true) ⊎ (any (λ c. is_approval c.0) history ≡ true)
run_needs_approval_example =
    run_needs_approval (sample (requested created)) history (rw history_succeeds refl)
