-- ===== src/Gateway/Receipts.antt =====
-- A successful claim returns the receipt that the tables hold for its request.
use agent_life.Shared.{
  ℕ, ◌≡◌, inl, inr, refl, ◌∙◌, arith, String, Bool, true, false, Option, none, some, Result, ok,
  err, eq_refl, Option-cases,
}
use agent_life.Shared.Dict.{get, get-set}
use agent_life.Gateway.{DeviceRequestState, pending}
use agent_life.Gateway.Store.{
  DeviceRequestRow, ClaimRow, Database, Work, onward, transaction, settle, append_audit,
}
use agent_life.Gateway.Requests.{
  DeviceCall, ClaimReceipt, claim, claim_work, claim_within, claim_over, first_claim, store_claim,
  insert_claim, find_claim, map_receipt, known,
}
use agent_life.Gateway.Moves.{Moves, assert_binding-reads}

-- Where work succeeded, its steps did.
onward_inv :
    {T U : Type 0} (f : T → Work U) (x : Database × Result T) {db' : Database} {b : U}
    → onward f x ≡ (db', ok b)
    → (a : T) × (mid : Database) × (x ≡ (mid, ok a)) × (f a mid ≡ (db', ok b))
unfolding onward
onward_inv f (mid, err thrown) h = absurd (cc)
onward_inv f (mid, ok a) h = (a, mid, refl, h)

settle_inv :
    {T : Type 0} (before : Database) (x : Database × Result T) {db' : Database} {b : T}
    → settle before x ≡ (db', ok b)
    → x ≡ (db', ok b)
settle_inv before (mid, err thrown) h = absurd (cc)
settle_inv before (mid, ok a) h = h

module _ (account : String) where
  -- The receipt of a request in the tables.
  abbrev pub receipt_in : String → Database → Option ClaimReceipt
  receipt_in id db = receipt_of (get id db.claims)
    where
      receipt_of : Option ClaimRow → Option ClaimReceipt
      receipt_of none = none
      receipt_of (some row) = some (map_receipt account id row)

  store_claim-receipt_in :
      (call : DeviceCall) (now : ℕ) (claim_id : String) (changed : Bool) (db db' : Database)
      (receipt : ClaimReceipt)
      → store_claim account call now claim_id changed db ≡ (db', ok receipt)
      → receipt_in call.request_id db' ≡ some receipt
  unfolding store_claim insert_claim append_audit onward map_receipt
  store_claim-receipt_in call now claim_id false db db' receipt h = absurd (ground arith)
  store_claim-receipt_in call now claim_id true db db' receipt h = ground (
    arith,
    get-set call.request_id call.request_id
        (record {
          claim_id = claim_id;
          device_id = call.device_id;
          pairing_generation = call.pairing_generation;
          grant_revision = call.grant_revision;
          created_at = now;
        })
        db.claims,
    eq_refl call.request_id,
  )

  first_claim-receipt_in :
      (call : DeviceCall) (s : DeviceRequestState) (now : ℕ) (claim_id : String) (db db' : Database)
      (receipt : ClaimReceipt)
      → first_claim account call s now claim_id db ≡ (db', ok receipt)
      → receipt_in call.request_id db' ≡ some receipt
  unfolding first_claim
  first_claim-receipt_in call pending now claim_id db db' receipt h =
      let (s, mid, read, rest) = onward_inv _ _ h in
      let (changed, mid', update, rest') = onward_inv _ _ rest in
      store_claim-receipt_in call now claim_id changed mid' db' receipt rest'
  first_claim-receipt_in call _ now claim_id db db' receipt h = absurd (ground arith)

  claim_over-receipt_in :
      (call : DeviceCall) (row : DeviceRequestRow) (now : ℕ) (claim_id : String)
      (existing : Option ClaimRow) (db db' : Database) (receipt : ClaimReceipt)
      → get call.request_id db.claims ≡ existing
      → claim_over account call row now claim_id existing db ≡ (db', ok (some receipt))
      → receipt_in call.request_id db' ≡ some receipt
  unfolding claim_over
  claim_over-receipt_in call row now claim_id none db db' receipt g h =
      let (r, mid, first, rest) = onward_inv _ _ h in
      let same : (r ≡ receipt) × (mid ≡ db') = (ground arith, ground arith) in
      first_claim-receipt_in call row.state now claim_id db db' receipt (ground (arith, same))
  claim_over-receipt_in call row now claim_id (some c) db db' receipt g h =
      let (u, mid, bound, rest) = onward_inv _ _ h in
      let kept = assert_binding-reads call c.device_id c.pairing_generation c.grant_revision db in
      ground (arith, kept)

  claim_within-receipt_in :
      (call : DeviceCall) (row : DeviceRequestRow) (now : ℕ) (claim_id : String) (due : Bool)
      (db db' : Database) (receipt : ClaimReceipt)
      → claim_within account call row now claim_id due db ≡ (db', ok (some receipt))
      → receipt_in call.request_id db' ≡ some receipt
  unfolding claim_within find_claim onward
  claim_within-receipt_in call row now claim_id true db db' receipt h = absurd (ground arith)
  claim_within-receipt_in call row now claim_id false db db' receipt h =
      claim_over-receipt_in call row now claim_id (get call.request_id db.claims) db db' receipt
        refl h

  known_inv :
      (outcome : Option ClaimReceipt) (db db' : Database) (receipt : ClaimReceipt)
      → known outcome db ≡ (db', ok receipt)
      → (outcome ≡ some receipt) × (db ≡ db')
  unfolding known
  known_inv none db db' receipt h = absurd (ground arith)
  known_inv (some r) db db' receipt h = (ground arith, ground arith)

  claim_work-receipt_in :
      (call : DeviceCall) (now : ℕ) (claim_id : String) (db db' : Database) (receipt : ClaimReceipt)
      → claim_work account call now claim_id db ≡ (db', ok (some receipt))
      → receipt_in call.request_id db' ≡ some receipt
  unfolding claim_work
  claim_work-receipt_in call now claim_id db db' receipt h =
      let (row, mid, read, rest) = onward_inv _ _ h in
      let (u, mid', bound, rest') = onward_inv _ _ rest in
      let (due, mid'', late, rest'') = onward_inv _ _ rest' in
      claim_within-receipt_in call row now claim_id due mid'' db' receipt rest''

  pub claim-receipt_in :
      (call : DeviceCall) (now : ℕ) (claim_id : String) (db db' : Database) (receipt : ClaimReceipt)
      → claim account call now claim_id db ≡ (db', ok receipt)
      → receipt_in call.request_id db' ≡ some receipt
  unfolding claim transaction
  claim-receipt_in call now claim_id db db' receipt h =
      let (outcome, end, work, rest) = onward_inv _ _ h in
      let (is, at) = known_inv outcome end db' receipt rest in
      claim_work-receipt_in call now claim_id db db' receipt
        (settle_inv db (claim_work account call now claim_id db) work ∙ together outcome end is at)
    where
      together :
          (outcome : Option ClaimReceipt) (end : Database)
          → outcome ≡ some receipt
          → end ≡ db'
          → ◌≡◌ {A = Database × Result (Option ClaimReceipt)}
              (end, ok outcome)
              (db', ok (some receipt))
      together outcome end is at = ground arith

  pub receipt_in-stays :
      (db db' : Database) (id : String) (receipt : ClaimReceipt)
      → Moves db db'
      → receipt_in id db ≡ some receipt
      → receipt_in id db' ≡ some receipt
  unfolding map_receipt
  receipt_in-stays db db' id receipt m h = elim (Option-cases (get id db.claims)) [
    | inl missing ↦ absurd (ground arith)
    | inr (c, there) ↦ ground (arith, m.receipts id c there)
  ]
