-- ===== src/Gateway/Samples.antt =====
-- A sample database of device requests, and the theorems at it.
use agent_life.Shared.{◌≡◌, refl, List, [], ◌∷◌, ok}
use agent_life.Shared.Dict.{get, set, Distinct}
use agent_life.Gateway.{pending, write, next_device_request_state}
use agent_life.Gateway.Store.{
  DeviceRequestRow, Database, onward, transaction, append_audit, success,
}
use agent_life.Gateway.Requests.{
  DeviceCall, ClaimReceipt, claim, claim_work, claim_within, claim_over, first_claim, store_claim,
  insert_claim, find_claim, map_receipt, known, found, assert_binding, get_row, expire_if_due,
  update_pending, claim_row, overdue_event,
}
use agent_life.Gateway.Results.{overdue, recover_rows, recover_expired}
use agent_life.Gateway.Moves.{Moves}
use agent_life.Gateway.Calls.{
  StoreCall, claim_call, result_call, recover_call, step, run, run-Moves, one_receipt,
}

abbrev row : DeviceRequestRow
row = record {
  device_id = "device-1";
  pairing_generation = 2;
  grant_revision = 5;
  risk = write;
  state = pending;
  capability_json = "{}";
  provider_json = "{}";
  parameters_json = "{}";
  created_at = 1000;
  expires_at = 901000;
}

abbrev database : Database
database = record { requests = ("request-1", row) ∷ []; claims = []; audit = []; events = [] }

abbrev call : DeviceCall
call = record {
  request_id = "request-1";
  device_id = "device-1";
  pairing_generation = 2;
  grant_revision = 5;
  correlation_id = "correlation-1";
}

abbrev receipt : ClaimReceipt
receipt = record {
  claim_id = "claim-1";
  request_id = "request-1";
  account_id = "account-1";
  device_id = "device-1";
  pairing_generation = 2;
  grant_revision = 5;
}

abbrev claimed_database : Database
claimed_database = (claim "account-1" call 2000 "claim-1" database).0

claims_first : claim "account-1" call 2000 "claim-1" database ≡ (claimed_database, ok receipt)
unfolding claim claim_work claim_within claim_over first_claim store_claim insert_claim find_claim
    map_receipt known found assert_binding get_row expire_if_due update_pending claim_row onward
    transaction append_audit get set next_device_request_state
claims_first = refl

claims_again :
    claim "account-1" call 3000 "claim-2"
      (run "account-1" 86400 claimed_database (recover_call 2500 ∷ []))
    ≡ (
      (claim "account-1" call 3000 "claim-2"
          (run "account-1" 86400 claimed_database (recover_call 2500 ∷ []))).0,
      ok receipt,
    )
unfolding claim claim_work claim_within claim_over first_claim store_claim insert_claim find_claim
    map_receipt known found assert_binding get_row expire_if_due update_pending claim_row onward
    transaction append_audit get set next_device_request_state run step recover_expired overdue
    recover_rows overdue_event
claims_again = refl

database-Distinct : Distinct database.requests
unfolding get
database-Distinct = (refl, tt)

one_receipt_example : receipt ≡ receipt
one_receipt_example =
    one_receipt "account-1" 86400 database claimed_database
      (claim "account-1" call 3000 "claim-2"
        (run "account-1" 86400 claimed_database (recover_call 2500 ∷ []))).0
      call call 2000 3000 "claim-1" "claim-2" receipt receipt (recover_call 2500 ∷ [])
      database-Distinct refl claims_first claims_again

abbrev calls : List StoreCall
calls =
    claim_call call 2000 "claim-1"
    ∷ result_call call "claim-1" success 3000
    ∷ recover_call 4000
    ∷ []

run-Moves_example : Moves database (run "account-1" 86400 database calls)
run-Moves_example = run-Moves "account-1" 86400 database calls database-Distinct
