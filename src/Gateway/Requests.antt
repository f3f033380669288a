-- ===== src/Gateway/Requests.antt =====
-- integrations/openclaw/src/core/device-request-store.ts: the methods of DeviceRequestStore. The
-- clock, the random ids and the JSON texts are arguments; `account` is the store's account.
use agent_life.Shared.{
  ℕ, Bool, true, false, not, ◌&&◌, ◌||◌, ◌==◌, ltb, String, Option, none, some, any, str_eq, Result,
  ok, err, if◌then◌else◌, is_none, outcome_unknown as throws_unknown, pairing_generation_stale,
  grant_stale, constraint_violated,
}
use agent_life.Shared.Dict.{get, set}
use agent_life.Gateway.{
  DeviceRequestState, pending, claimed, cancel_requested, DeviceRequestEvent, claim as claim_event,
  expire, recover_outcome_unknown, DeviceRequestRisk, next_device_request_state,
}
use agent_life.Gateway.Store.{
  DeviceRequestRow, ClaimRow, request_claimed, Database, Work, ◌>>=◌, ◌>>◌, lift, pure, throw,
  transaction, append_audit,
}

pub record ClaimReceipt : Type 0 where
  pub claim_id : String
  pub request_id : String
  pub account_id : String
  pub device_id : String
  pub pairing_generation : ℕ
  pub grant_revision : ℕ

pub record DeviceRequestRecord : Type 0 where
  pub request_id : String
  pub device_id : String
  pub pairing_generation : ℕ
  pub grant_revision : ℕ
  pub risk : DeviceRequestRisk
  pub state : DeviceRequestState
  pub expires_at : ℕ

-- What a device names in a call: the request and its binding.
pub record DeviceCall : Type 0 where
  pub request_id : String
  pub device_id : String
  pub pairing_generation : ℕ
  pub grant_revision : ℕ
  pub correlation_id : String

unfoldable pub found : {T : Type 0} → Option T → Result T
found none = err throws_unknown
found (some row) = ok row

unfoldable pub get_row : String → Work DeviceRequestRow
unfolding found
get_row id db = (db, found (get id db.requests))

-- Of the row of a request, or of its receipt.
unfoldable pub assert_binding : DeviceCall → String → ℕ → ℕ → Work Unit
assert_binding call device generation grant =
    if not (str_eq device call.device_id && generation == call.pairing_generation)
    then throw pairing_generation_stale
    else if grant == call.grant_revision
    then pure tt
    else throw grant_stale

-- `UPDATE device_requests SET state = ? WHERE request_id = ?`.
unfoldable pub with_state :
    String → DeviceRequestState → Database → Option DeviceRequestRow → Database
with_state id s db none = db
with_state id s db (some row) = record db {
  requests = set id (record row { state = s }) db.requests;
}

unfoldable pub update_state : String → DeviceRequestState → Work Unit
unfolding with_state
update_state id s db = (with_state id s db (get id db.requests), ok tt)

-- The event of an open request that is overdue.
unfoldable pub overdue_event : DeviceRequestState → Option DeviceRequestEvent
overdue_event pending = some expire
overdue_event claimed = some recover_outcome_unknown
overdue_event cancel_requested = some recover_outcome_unknown
overdue_event _ = none

unfoldable pub expire_by : String → DeviceRequestState → Option DeviceRequestEvent → Work Bool
expire_by id s none = pure false
expire_by id s (some event) = do
  s' ← lift (next_device_request_state s event)
  update_state id s'
  pure true

unfoldable pub expire_if_due : String → DeviceRequestRow → ℕ → Work Bool
unfolding expire_by
expire_if_due id row now =
    if ltb now row.expires_at then pure false else expire_by id row.state (overdue_event row.state)

-- `none` is the outcome OUTCOME_UNKNOWN of a transaction that is committed.
unfoldable pub known : {T : Type 0} → Option T → Work T
known none = throw throws_unknown
known (some value) = pure value

unfoldable pub map_receipt : String → String → ClaimRow → ClaimReceipt
map_receipt account id row = record {
  claim_id = row.claim_id;
  request_id = id;
  account_id = account;
  device_id = row.device_id;
  pairing_generation = row.pairing_generation;
  grant_revision = row.grant_revision;
}

unfoldable pub map_request : String → DeviceRequestRow → DeviceRequestRecord
map_request id row = record {
  request_id = id;
  device_id = row.device_id;
  pairing_generation = row.pairing_generation;
  grant_revision = row.grant_revision;
  risk = row.risk;
  state = row.state;
  expires_at = row.expires_at;
}

unfoldable pub get_request : String → Work DeviceRequestRecord
unfolding map_request
get_request id = do row ← get_row id; pure (map_request id row)

abbrev pub is_pending : DeviceRequestState → Bool
is_pending pending = true
is_pending _ = false

-- The guarded UPDATE of a claim, and whether it changed its row.
unfoldable pub claim_row :
    DeviceCall → DeviceRequestState → Database → Option DeviceRequestRow → Database × Result Bool
claim_row call s db none = (db, ok false)
claim_row call s db (some row) =
    if is_pending row.state
      && str_eq row.device_id call.device_id
      && row.pairing_generation == call.pairing_generation
      && row.grant_revision == call.grant_revision
    then (
      record db { requests = set call.request_id (record row { state = s }) db.requests },
      ok true,
    )
    else (db, ok false)

unfoldable pub update_pending : DeviceCall → DeviceRequestState → Work Bool
unfolding claim_row
update_pending call s db = claim_row call s db (get call.request_id db.requests)

-- Claim id and request are unique.
unfoldable pub insert_claim : String → ClaimRow → Work Unit
insert_claim id row db =
    if not (is_none (get id db.claims)) || any (λ (_, c). str_eq c.claim_id row.claim_id) db.claims
    then (db, err constraint_violated)
    else (record db { claims = set id row db.claims }, ok tt)

unfoldable pub find_claim : String → Work (Option ClaimRow)
find_claim id db = (db, ok (get id db.claims))

module _ (account : String) where
  -- What follows the guarded UPDATE, by whether it changed its row.
  unfoldable pub store_claim : DeviceCall → ℕ → String → Bool → Work ClaimReceipt
  unfolding map_receipt
  store_claim call now claim_id false = throw throws_unknown
  store_claim call now claim_id true = do
    let receipt : ClaimRow = record {
      claim_id = claim_id;
      device_id = call.device_id;
      pairing_generation = call.pairing_generation;
      grant_revision = call.grant_revision;
      created_at = now;
    }
    insert_claim call.request_id receipt
    append_audit (
        request_claimed account call.device_id call.request_id claim_id call.grant_revision
          call.correlation_id now)
    pure (map_receipt account call.request_id receipt)

  -- A claim of a request that was read in this state, is not overdue, and has no receipt.
  unfoldable pub first_claim : DeviceCall → DeviceRequestState → ℕ → String → Work ClaimReceipt
  unfolding store_claim
  first_claim call pending now claim_id = do
    s ← lift (next_device_request_state pending claim_event)
    changed ← update_pending call s
    store_claim call now claim_id changed
  first_claim call _ now claim_id = throw throws_unknown

  unfoldable pub claim_over :
      DeviceCall → DeviceRequestRow → ℕ → String → Option ClaimRow → Work (Option ClaimReceipt)
  unfolding map_receipt
  claim_over call row now claim_id none = do
    receipt ← first_claim call row.state now claim_id
    pure (some receipt)
  claim_over call row now claim_id (some existing) = do
    assert_binding call existing.device_id existing.pairing_generation existing.grant_revision
    pure (some (map_receipt account call.request_id existing))

  unfoldable pub claim_within :
      DeviceCall → DeviceRequestRow → ℕ → String → Bool → Work (Option ClaimReceipt)
  claim_within call row now claim_id true = pure none
  claim_within call row now claim_id false = do
    existing ← find_claim call.request_id
    claim_over call row now claim_id existing

  unfoldable pub claim_work : DeviceCall → ℕ → String → Work (Option ClaimReceipt)
  unfolding claim_within
  claim_work call now claim_id = do
    row ← get_row call.request_id
    assert_binding call row.device_id row.pairing_generation row.grant_revision
    due ← expire_if_due call.request_id row now
    claim_within call row now claim_id due

  unfoldable pub claim : DeviceCall → ℕ → String → Work ClaimReceipt
  unfolding claim_work
  claim call now claim_id = do outcome ← transaction (claim_work call now claim_id); known outcome
