-- ===== src/Gateway/Results.antt =====
-- integrations/openclaw/src/core/device-request-store.ts: results, replays, the queue and recovery of
-- DeviceRequestStore, over the rows of Requests.
use agent_life.Shared.{
  ℕ, suc, ◌+◌, ◌*◌, Bool, true, false, not, ◌&&◌, ◌==◌, leb, String, Option, none, some, List, [],
  ◌∷◌, str_eq, Result, ok, err, if◌then◌else◌, is_none, outcome_unknown as throws_unknown,
  constraint_violated,
}
use agent_life.Shared.Dict.{get, set}
use agent_life.Gateway.{
  DeviceRequestState, pending, claimed, cancel_requested, expired, DeviceRequestEvent,
  result_succeeded, result_failed, result_denied, result_cancelled, result_outcome_unknown,
  DeviceRequestRisk, next_device_request_state, maximum_device_request_queue_seconds,
}
use agent_life.Gateway.Store.{
  DeviceRequestRow, ClaimRow, ResultOutcome, success, failure, denial, cancellation, unknown,
  request_result, Work, ◌>>=◌, ◌>>◌, lift, pure, transaction, append_audit, append_event,
}
use agent_life.Gateway.Requests.{
  DeviceRequestRecord, DeviceCall, found, get_row, assert_binding, update_state, overdue_event,
  expire_by, expire_if_due, known, get_request, is_pending,
}

unfoldable pub result_event : ResultOutcome → DeviceRequestEvent
result_event success = result_succeeded
result_event failure = result_failed
result_event denial = result_denied
result_event cancellation = result_cancelled
result_event unknown = result_outcome_unknown

abbrev pub is_running : DeviceRequestState → Bool
is_running claimed = true
is_running cancel_requested = true
is_running _ = false

-- The receipt of a request under the claim id that the device names.
unfoldable pub named_claim : String → Option ClaimRow → Result ClaimRow
named_claim claim_id none = err throws_unknown
named_claim claim_id (some row) =
    if str_eq row.claim_id claim_id then ok row else err throws_unknown

unfoldable pub get_claim : String → String → Work ClaimRow
unfolding named_claim
get_claim id claim_id db = (db, named_claim claim_id (get id db.claims))

module _ (account : String) where
  unfoldable pub store_result :
      DeviceCall → DeviceRequestRow → String → ResultOutcome → ℕ → Work (Option DeviceRequestRecord)
  unfolding result_event
  store_result call row claim_id result now =
      if is_running row.state
      then (do
        s ← lift (next_device_request_state row.state (result_event result))
        update_state call.request_id s
        append_audit (
            request_result account call.device_id call.request_id claim_id result
              call.correlation_id now)
        stored ← get_request call.request_id
        pure (some stored))
      else pure none

  unfoldable pub submit_within :
      DeviceCall
      → DeviceRequestRow
      → String
      → ResultOutcome
      → ℕ
      → Bool
      → Work (Option DeviceRequestRecord)
  submit_within call row claim_id result now true = pure none
  submit_within call row claim_id result now false = do
    receipt ← get_claim call.request_id claim_id
    assert_binding call receipt.device_id receipt.pairing_generation receipt.grant_revision
    store_result call row claim_id result now

  unfoldable pub submit_work :
      DeviceCall → String → ResultOutcome → ℕ → Work (Option DeviceRequestRecord)
  unfolding submit_within
  submit_work call claim_id result now = do
    row ← get_row call.request_id
    assert_binding call row.device_id row.pairing_generation row.grant_revision
    due ← expire_if_due call.request_id row now
    submit_within call row claim_id result now due

  unfoldable pub submit_result : DeviceCall → String → ResultOutcome → ℕ → Work DeviceRequestRecord
  unfolding submit_work
  submit_result call claim_id result now = do
    outcome ← transaction (submit_work call claim_id result now)
    known outcome

-- `undefined`, the answer of a replay that stands, is `some`; OUTCOME_UNKNOWN is `none`.
unfoldable pub validate_within : DeviceCall → Work ClaimRow → Bool → Work (Option Unit)
validate_within call receipt_of true = pure none
validate_within call receipt_of false = do
  receipt ← receipt_of
  assert_binding call receipt.device_id receipt.pairing_generation receipt.grant_revision
  pure (some tt)

-- What both validations share, up to the query for the receipt.
unfoldable pub validate_replay : DeviceCall → Work ClaimRow → ℕ → Work (Option Unit)
unfolding validate_within
validate_replay call receipt_of now = transaction do
  row ← get_row call.request_id
  assert_binding call row.device_id row.pairing_generation row.grant_revision
  due ← expire_if_due call.request_id row now
  validate_within call receipt_of due

unfoldable pub validate_claim_replay : DeviceCall → ℕ → Work (Option Unit)
unfolding found
validate_claim_replay call now =
    validate_replay call (λ db. (db, found (get call.request_id db.claims))) now

unfoldable pub validate_result_replay : DeviceCall → String → ℕ → Work (Option Unit)
validate_result_replay call claim_id now =
    validate_replay call (get_claim call.request_id claim_id) now

pub record EnqueueInput : Type 0 where
  pub request_id : String
  pub device_id : String
  pub pairing_generation : ℕ
  pub grant_revision : ℕ
  pub risk : DeviceRequestRisk
  pub capability_json : String
  pub provider_json : String
  pub parameters_json : String
  pub correlation_id : String

unfoldable pub insert_request : String → DeviceRequestRow → Work Unit
insert_request id row db =
    if is_none (get id db.requests)
    then (record db { requests = set id row db.requests }, ok tt)
    else (db, err constraint_violated)

-- `retention` is the event store's, in seconds.
unfoldable pub enqueue : ℕ → EnqueueInput → ℕ → String → Work DeviceRequestRecord
unfolding maximum_device_request_queue_seconds
enqueue retention input now event_id = do
  let ttl = maximum_device_request_queue_seconds input.risk
  let s : DeviceRequestState = if ttl == 0 then expired else pending
  insert_request input.request_id record {
    device_id = input.device_id;
    pairing_generation = input.pairing_generation;
    grant_revision = input.grant_revision;
    risk = input.risk;
    state = s;
    capability_json = input.capability_json;
    provider_json = input.provider_json;
    parameters_json = input.parameters_json;
    created_at = now;
    expires_at = now + ttl * 1000;
  }
  (if is_pending s
      then append_event record {
        event_id = event_id;
        correlation_id = input.correlation_id;
        occurred_at = now;
        request_id = input.request_id;
        risk = input.risk;
        grant_revision = input.grant_revision;
        expires_at = now + retention * 1000;
      }
      else pure tt)
  get_request input.request_id

-- The rows of recovery: open and overdue, as read before any is changed.
unfoldable pub overdue : ℕ → List (String × DeviceRequestRow) → List (String × DeviceRequestRow)
overdue now [] = []
overdue now ((id, row) ∷ rows) =
    if leb row.expires_at now && not (is_none (overdue_event row.state))
    then (id, row) ∷ overdue now rows
    else overdue now rows

unfoldable pub recover_rows : ℕ → List (String × DeviceRequestRow) → Work ℕ
recover_rows recovered [] = pure recovered
recover_rows recovered ((id, row) ∷ rows) = do
  done ← transaction (expire_by id row.state (overdue_event row.state))
  recover_rows (suc recovered) rows

unfoldable pub recover_expired : ℕ → Work ℕ
unfolding overdue recover_rows
recover_expired now db = recover_rows 0 (overdue now db.requests) db
