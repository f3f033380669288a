-- ===== src/Gateway/Histories.antt =====
-- Histories of calls of DeviceRequestStore, and what they keep.
use agent_life.Shared.{
  ℕ, ◌≡◌, inl, inr, refl, subst, arith, String, Bool, true, false, some, ok, eq_iff, Bool-cases,
  if◌then◌else◌, is_none,
}
use agent_life.Shared.Dict.{get, get-set, Distinct, Distinct-set}
use agent_life.Gateway.Store.{
  DeviceRequestRow, ClaimRow, Database, Work, onward, append_event, GatewayEvent, pure,
  ResultOutcome,
}
use agent_life.Gateway.Requests.{DeviceCall, get_row, assert_binding, get_request}
use agent_life.Gateway.Results.{
  result_event, is_running, get_claim, store_result, submit_within, submit_work, submit_result,
  validate_within, validate_replay, EnqueueInput, insert_request, enqueue,
}
use agent_life.Gateway.Moves.{
  Moves, Moves-refl, onward-Moves, transaction-Moves, known-Moves, assert_binding-Moves, Bound,
  Bound-Moves, assert_binding-holds, update_state-Moves, next-Reaches, append_audit-Moves,
}

get_request-Moves : (id : String) (db : Database) → Moves db (get_request id db).0
unfolding get_request get_row onward
get_request-Moves id db = subst (Moves db) (ground arith) (Moves-refl db)

pub get_claim-Moves : (id claim_id : String) (db : Database) → Moves db (get_claim id claim_id db).0
unfolding get_claim
get_claim-Moves id claim_id db = Moves-refl db

unmoved :
    (call : DeviceCall) (claim_id : String) (c : ClaimRow) (db db' db'' : Database)
    → get_claim call.request_id claim_id db ≡ (db', ok c)
    → assert_binding call c.device_id c.pairing_generation c.grant_revision db' ≡ (db'', ok tt)
    → (row : DeviceRequestRow) → get call.request_id db.requests ≡ some row
    → get call.request_id db''.requests ≡ some row
unfolding get_claim
unmoved call claim_id c db db' db'' e e' row there = ground (
  arith,
  (assert_binding-holds call c.device_id c.pairing_generation c.grant_revision db' db'' e').0,
)

module _ (account : String) where
  store_result-Moves :
      (call : DeviceCall) (row : DeviceRequestRow) (claim_id : String) (result : ResultOutcome)
      (now : ℕ) (db : Database)
      → get call.request_id db.requests ≡ some row
      → Moves db (store_result account call row claim_id result now db).0
  unfolding store_result
  store_result-Moves call row claim_id result now db there =
      elim (Bool-cases (is_running row.state)) [
        | inl runs ↦
            rw (runs, store_result)
              (onward-Moves _ db _ (Moves-refl db) (λ s db' e.
                onward-Moves _ db' _
                  (update_state-Moves call.request_id s db' row (ground arith)
                    (next-Reaches row.state (result_event result) s (ground arith)))
                  (λ u db'' e'. onward-Moves _ db'' _ (append_audit-Moves _ db'') (λ u' three e''.
                    onward-Moves _ three _ (get_request-Moves call.request_id three)
                      (λ stored four last. Moves-refl four)))))
        | inr idles ↦ rw (idles, store_result) (Moves-refl db)
      ]

  submit_within-Moves :
      (call : DeviceCall) (row : DeviceRequestRow) (claim_id : String) (result : ResultOutcome)
      (now : ℕ) (due : Bool) (db : Database)
      → (due ≡ false → Bound call row db)
      → Moves db (submit_within account call row claim_id result now due db).0
  unfolding submit_within
  submit_within-Moves call row claim_id result now true db bound = Moves-refl db
  submit_within-Moves call row claim_id result now false db bound =
      onward-Moves _ db _ (get_claim-Moves call.request_id claim_id db) (λ c db' e.
        onward-Moves _ db' _
          (assert_binding-Moves call c.device_id c.pairing_generation c.grant_revision db')
          (λ u db'' e'.
            store_result-Moves call row claim_id result now db''
              (unmoved call claim_id c db db' db'' e e' row (bound refl).stands)))

  pub submit_result-Moves :
      (call : DeviceCall) (claim_id : String) (result : ResultOutcome) (now : ℕ) (db : Database)
      → Moves db (submit_result account call claim_id result now db).0
  unfolding submit_result submit_work
  submit_result-Moves call claim_id result now db =
      onward-Moves _ db _
        (transaction-Moves (submit_work account call claim_id result now) db (
          Bound-Moves call _ now db
            (λ row due db' b. submit_within-Moves call row claim_id result now due db' b)))
        (λ outcome db' e. known-Moves outcome db')

validate_within-Moves :
    (call : DeviceCall) (receipt_of : Work ClaimRow) (due : Bool) (db : Database)
    → ((db' : Database) → Moves db' (receipt_of db').0)
    → Moves db (validate_within call receipt_of due db).0
unfolding validate_within
validate_within-Moves call receipt_of true db reads = Moves-refl db
validate_within-Moves call receipt_of false db reads = onward-Moves _ db _ (reads db) (λ c db' e.
    onward-Moves _ db' _
      (assert_binding-Moves call c.device_id c.pairing_generation c.grant_revision db')
      (λ u db'' e'. Moves-refl db''))

pub validate_replay-Moves :
    (call : DeviceCall) (receipt_of : Work ClaimRow) (now : ℕ) (db : Database)
    → ((db' : Database) → Moves db' (receipt_of db').0)
    → Moves db (validate_replay call receipt_of now db).0
unfolding validate_replay
validate_replay-Moves call receipt_of now db reads = transaction-Moves _ db (
    Bound-Moves call _ now db
      (λ row due db' b. validate_within-Moves call receipt_of due db' reads))

insert_request-Distinct :
    (id : String) (row : DeviceRequestRow) (db : Database)
    → Distinct db.requests
    → Distinct (insert_request id row db).0.requests
unfolding insert_request
insert_request-Distinct id row db d = elim (Bool-cases (is_none (get id db.requests))) [
  | inl free ↦ rw (free, insert_request) (Distinct-set id row db.requests d)
  | inr taken ↦ rw (taken, insert_request) d
]

insert_request-Moves :
    (id : String) (row : DeviceRequestRow) (db : Database) → Moves db (insert_request id row db).0
unfolding insert_request
insert_request-Moves id row db = record {
  rows = λ k r h. (r.state, ground (arith, get-set id k row db.requests, eq_iff id k), inl refl);
  receipts = λ k c h. ground arith;
  keys = λ d. insert_request-Distinct id row db d;
}

append_event-requests :
    (event : GatewayEvent) (db : Database) → db.requests ≡ (append_event event db).0.requests
unfolding append_event
append_event-requests event db = ground arith

append_event-Moves : (event : GatewayEvent) (db : Database) → Moves db (append_event event db).0
unfolding append_event
append_event-Moves event db = record {
  rows = λ k r h. (r.state, ground arith, inl refl);
  receipts = λ k c h. ground arith;
  keys = λ d. subst Distinct (append_event-requests event db) d;
}

announce-Moves :
    (b : Bool) (event : GatewayEvent) (db : Database)
    → Moves db ((if b then append_event event else pure tt) db).0
announce-Moves true event db = append_event-Moves event db
announce-Moves false event db = Moves-refl db

pub enqueue-Moves :
    (retention : ℕ) (input : EnqueueInput) (now : ℕ) (event_id : String) (db : Database)
    → Moves db (enqueue retention input now event_id db).0
unfolding enqueue
enqueue-Moves retention input now event_id db =
    onward-Moves _ db _ (insert_request-Moves input.request_id _ db) (λ u db' e.
      onward-Moves _ db' _ (announce-Moves _ _ db')
        (λ u' db'' e'. get_request-Moves input.request_id db''))
