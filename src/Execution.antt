-- ===== src/Execution.antt =====
-- protocol/src/execution-ledger.ts: receipts, the entries of the ledger and its invariant's parts.
-- `canonicalize`, the package behind `canonicalBytes`, and `Date.parse` on texts that are no ISO
-- instants are parameters of the operations. The brands of receipts and reconcilers hold by typing.
pub mod Ledger
pub mod Invariant
pub mod Results
pub mod Recovery
pub mod Lifecycle
pub mod Calls
mod Tests
use agent_life.Shared.{
  ℕ, String, Bool, true, false, not, ◌&&◌, ◌==◌, Option, none, some, List, [], ◌∷◌, length, leb,
  is_none, Result, ok, err, ◌>>=◌, ◌>>◌, require, schema_invalid, non_canonical_json,
}
use agent_life.Shared.Text.{non_empty, digest}
use agent_life.Operation.{
  RequestStatus, TerminalOutcome, WireOperationState, SessionOrJob, session, job,
  StoredOperationBinding, OfflinePolicy, wait_read, fail_offline, EvidenceOutcome, proved_success,
  proved_failure, Reconciliation, OperationRecord, requested, OperationReason, is_result_unknown,
  validate_wire_operation_state,
}

-- The values that `equivalentRecord` encodes; `decimal` is `toString` of a `bigint`.
mutual
  pub data Json : Type 0 where
    null : Json
    text : String → Json
    decimal : ℕ → Json
    status : RequestStatus → Json
    outcome : TerminalOutcome → Json
    reason : OperationReason → Json
    object : Members → Json

  pub data Members : Type 0 where
    end : Members
    member : String → Json → Members → Members

pub record SignedOperationReceipt : Type 0 where
  pub operation_id : String
  pub parameters_digest : String
  pub state_revision : ℕ
  pub state : WireOperationState
  pub result_digest : Option String
  pub envelope_digest : String
  pub message_id : String
  pub canonical_bytes : List ℕ

valid_result_digest : Option String → Bool
valid_result_digest none = true
valid_result_digest (some d) = digest d

-- The tests that minting and validation share.
receipt_fields : SignedOperationReceipt → Bool
unfolding valid_result_digest
receipt_fields r =
    non_empty r.operation_id
    && digest r.parameters_digest
    && validate_wire_operation_state r.state
    && is_none r.state.request_status
    && not (is_result_unknown r.state.terminal_outcome)
    && valid_result_digest r.result_digest
    && digest r.envelope_digest
    && non_empty r.message_id

unfoldable pub validate_signed_operation_receipt : SignedOperationReceipt → Bool
unfolding receipt_fields
validate_signed_operation_receipt r = receipt_fields r && leb 1 (length r.canonical_bytes)

state_copy : WireOperationState → WireOperationState
state_copy s = elim s.request_status [
  | none ↦ record {
    request_status = none;
    terminal_outcome = s.terminal_outcome;
    operation_reason = s.operation_reason;
  }
  | some current ↦ requested current
]

-- The entries of the ledger.
pub data ExecutionLedgerEntry : Type 0 where
  registered : OperationRecord → String → ExecutionLedgerEntry
  claimed : OperationRecord → String → String → String → ExecutionLedgerEntry
  result : OperationRecord → String → String → SignedOperationReceipt → ExecutionLedgerEntry

abbrev pub entry_record : ExecutionLedgerEntry → OperationRecord
entry_record (registered r _) = r
entry_record (claimed r _ _ _) = r
entry_record (result r _ _ _) = r

abbrev pub Ledger : Type 0
Ledger = List (String × ExecutionLedgerEntry)

optional {ℓ} : {A : Type ℓ} → (A → Json) → Option A → Json
optional f none = null
optional f (some a) = f a

encode_session : SessionOrJob → Json
encode_session (session id) =
    object (member "kind" (text "session") (member "sessionId" (text id) end))
encode_session (job id) = object (member "kind" (text "job") (member "jobId" (text id) end))

encode_binding : StoredOperationBinding → Json
unfolding encode_session
encode_binding b = object (
    member "tenantId" (text b.tenant_id) (
      member "humanPrincipalId" (text b.human_principal_id) (
        member "agentPrincipalId" (text b.agent_principal_id) (
          member "agentInstanceId" (text b.agent_instance_id) (
            member "workspaceId" (text b.workspace_id) (
              member "sessionOrJob" (encode_session b.session_or_job) (
                member "deviceId" (text b.device_id) (
                  member "operationId" (text b.operation_id) (
                    member "capability" (text b.capability)
                      (member "parametersDigest" (text b.parameters_digest) end))))))))))

encode_scopes : List (String × ℕ) → Members
encode_scopes [] = end
encode_scopes ((scope, revision) ∷ rest) = member scope (decimal revision) (encode_scopes rest)

encode_policy : OfflinePolicy → Json
encode_policy wait_read = text "WAIT_READ"
encode_policy fail_offline = text "FAIL_OFFLINE"

encode_evidence : Reconciliation → Json
encode_evidence e = object (
    member "outcome" (proved e.outcome) (
      member "evidenceDigest" (text e.evidence_digest)
        (member "observedAt" (text e.observed_at) end)))
  where
    proved : EvidenceOutcome → Json
    proved proved_success = text "succeeded"
    proved proved_failure = text "failed"

encode_state : WireOperationState → Json
unfolding optional
encode_state s = object (
    member "request_status" (optional status s.request_status) (
      member "terminal_outcome" (optional outcome s.terminal_outcome)
        (member "operation_reason" (optional reason s.operation_reason) end)))

unfoldable pub encode : OperationRecord → Json
unfolding encode_binding encode_scopes encode_policy encode_evidence encode_state optional
encode r = object (
    member "binding" (encode_binding r.binding) (
      member "revisionSnapshot"
        (object (
          member "pairingGeneration" (decimal r.revision_snapshot.pairing_generation) (
            member "authorizationEpoch" (decimal r.revision_snapshot.authorization_epoch) (
              member "scopeRevisions" (object (encode_scopes r.revision_snapshot.scope_revisions))
                end))))
        (member "operationExpiresAt" (text r.operation_expires_at) (
          member "offlinePolicy" (encode_policy r.offline_policy) (
            member "stateRevision" (decimal r.state_revision) (
              member "state" (encode_state r.state)
                (member "reconciliation" (optional encode_evidence r.reconciliation) end)))))))

unfoldable pub equal_bytes : List ℕ → List ℕ → Bool
equal_bytes [] [] = true
equal_bytes (a ∷ as_) (b ∷ bs) = a == b && equal_bytes as_ bs
equal_bytes _ _ = false

same_bytes : Option (List ℕ) → Option (List ℕ) → Bool
unfolding equal_bytes
same_bytes (some a) (some b) = equal_bytes a b
same_bytes _ _ = false

-- `canonicalBytes`; `none` is its exception.
module _ (canonical : Json → Option (List ℕ)) where
  unfoldable pub equivalent_record : OperationRecord → OperationRecord → Bool
  unfolding same_bytes
  equivalent_record left right = same_bytes (canonical (encode left)) (canonical (encode right))

  with_bytes : SignedOperationReceipt → Option (List ℕ) → Result SignedOperationReceipt
  with_bytes r none = err non_canonical_json
  with_bytes r (some bytes) = ok (record r { state = state_copy r.state; canonical_bytes = bytes })

  -- The receipt holds no bytes yet: they are those of the canonical value.
  unfoldable pub mint_signed_operation_receipt :
      SignedOperationReceipt → Json → Result SignedOperationReceipt
  unfolding receipt_fields state_copy with_bytes
  mint_signed_operation_receipt input canonical_value = do
    require (receipt_fields input) schema_invalid
    with_bytes input (canonical canonical_value)
