-- ===== src/Gateway/Claims.antt =====
-- Claims of device requests: what they move, and that a request has one receipt for good.
use agent_life.Shared.{
  ℕ, ◌≡◌, inl, inr, refl, sym, subst, arith, String, Bool, true, false, Option, none, some, eq_iff,
  str_eq, Bool-cases, ◌&&◌, ◌==◌,
}
use agent_life.Shared.Dict.{get, get-set, Distinct}
use agent_life.Gateway.{DeviceRequestState, pending, claimed, next_device_request_state}
use agent_life.Gateway.Store.{DeviceRequestRow, ClaimRow, Database, onward}
use agent_life.Gateway.Requests.{
  DeviceCall, update_pending, claim_row, insert_claim, find_claim, first_claim, store_claim,
  claim_over, claim_within, claim_work, claim, is_pending,
}
use agent_life.Gateway.Moves.{
  Moves, Moves-refl, onward-Moves, transaction-Moves, set-Moves, known-Moves, assert_binding-Moves,
  Bound-Moves, append_audit-Moves,
}

unchanged :
    (id : String) (row : ClaimRow) (db : Database)
    → (insert_claim id row db).0.requests ≡ db.requests
unfolding insert_claim
unchanged id row db = ground arith

insert_claim-Moves :
    (id : String) (row : ClaimRow) (db : Database) → Moves db (insert_claim id row db).0
unfolding insert_claim
insert_claim-Moves id row db = record {
  rows = λ k r h. (r.state, ground arith, inl refl);
  receipts = λ k c h. ground (arith, get-set id k row db.claims, eq_iff id k);
  keys = λ d. subst Distinct (sym (unchanged id row db)) d;
}

claim_row-Moves :
    (call : DeviceCall) (db : Database) (prior : Option DeviceRequestRow)
    → get call.request_id db.requests ≡ prior
    → Moves db (claim_row call claimed db prior).0
unfolding claim_row
claim_row-Moves call db none there = Moves-refl db
claim_row-Moves call db (some row) there =
    elim (Bool-cases (
      is_pending row.state
      && str_eq row.device_id call.device_id
      && row.pairing_generation == call.pairing_generation
      && row.grant_revision == call.grant_revision)) [
        | inl fits ↦
            rw (fits, claim_row)
              (set-Moves call.request_id claimed db row there (inr (ground arith)))
        | inr differs ↦ rw (differs, claim_row) (Moves-refl db)
      ]

update_pending-Moves :
    (call : DeviceCall) (db : Database) → Moves db (update_pending call claimed db).0
unfolding update_pending
update_pending-Moves call db = claim_row-Moves call db (get call.request_id db.requests) refl

module _ (account : String) where
  store_claim-Moves :
      (call : DeviceCall) (now : ℕ) (claim_id : String) (changed : Bool) (db : Database)
      → Moves db (store_claim account call now claim_id changed db).0
  unfolding store_claim
  store_claim-Moves call now claim_id false db = Moves-refl db
  store_claim-Moves call now claim_id true db =
      onward-Moves _ db _ (insert_claim-Moves _ _ db) (λ value db' e.
        onward-Moves _ db' _ (append_audit-Moves _ db') (λ value' db'' e'. Moves-refl db''))

  first_claim-Moves :
      (call : DeviceCall) (s : DeviceRequestState) (now : ℕ) (claim_id : String) (db : Database)
      → Moves db (first_claim account call s now claim_id db).0
  unfolding first_claim onward next_device_request_state
  first_claim-Moves call pending now claim_id db =
      onward-Moves (λ changed. store_claim account call now claim_id changed) db
        (update_pending call claimed db) (update_pending-Moves call db)
        (λ changed db' e. store_claim-Moves call now claim_id changed db')
  first_claim-Moves call _ now claim_id db = Moves-refl db

  claim_over-Moves :
      (call : DeviceCall) (row : DeviceRequestRow) (now : ℕ) (claim_id : String)
      (existing : Option ClaimRow) (db : Database)
      → Moves db (claim_over account call row now claim_id existing db).0
  unfolding claim_over
  claim_over-Moves call row now claim_id none db =
      onward-Moves _ db _ (first_claim-Moves call row.state now claim_id db)
        (λ value db' e. Moves-refl db')
  claim_over-Moves call row now claim_id (some c) db =
      onward-Moves _ db _
        (assert_binding-Moves call c.device_id c.pairing_generation c.grant_revision db)
        (λ value db' e. Moves-refl db')

  claim_within-Moves :
      (call : DeviceCall) (row : DeviceRequestRow) (now : ℕ) (claim_id : String) (due : Bool)
      (db : Database)
      → Moves db (claim_within account call row now claim_id due db).0
  unfolding claim_within find_claim
  claim_within-Moves call row now claim_id true db = Moves-refl db
  claim_within-Moves call row now claim_id false db =
      onward-Moves _ db _ (Moves-refl db)
        (λ existing db' e. claim_over-Moves call row now claim_id existing db')

  pub claim-Moves :
      (call : DeviceCall) (now : ℕ) (claim_id : String) (db : Database)
      → Moves db (claim account call now claim_id db).0
  unfolding claim claim_work
  claim-Moves call now claim_id db =
      onward-Moves _ db _
        (transaction-Moves (claim_work account call now claim_id) db (
          Bound-Moves call _ now db
            (λ row due db' b. claim_within-Moves call row now claim_id due db')))
        (λ outcome db' e. known-Moves outcome db')
