-- ===== src/Gateway/Calls.antt =====
-- Histories of calls of DeviceRequestStore: one receipt for a request, and final outcomes.
use agent_life.Shared.{ℕ, ◌≡◌, subst, arith, String, some, List, [], ◌∷◌, Result, ok}
use agent_life.Shared.Dict.{get, Distinct}
use agent_life.Gateway.Machines.{request_rank}
use agent_life.Gateway.Store.{DeviceRequestRow, Database, ResultOutcome}
use agent_life.Gateway.Requests.{DeviceCall, ClaimReceipt, claim}
use agent_life.Gateway.Results.{
  submit_result, validate_claim_replay, validate_result_replay, EnqueueInput, enqueue,
  recover_expired,
}
use agent_life.Gateway.Moves.{Moves, Moves-refl, Moves-trans}
use agent_life.Gateway.Claims.{claim-Moves}
use agent_life.Gateway.Histories.{
  submit_result-Moves, validate_replay-Moves, enqueue-Moves, get_claim-Moves,
}
use agent_life.Gateway.Recovery.{recover_expired-Moves}
use agent_life.Gateway.Receipts.{receipt_in, claim-receipt_in, receipt_in-stays}

pub data StoreCall : Type 0 where
  enqueue_call : EnqueueInput → ℕ → String → StoreCall
  claim_call : DeviceCall → ℕ → String → StoreCall
  claim_replay_call : DeviceCall → ℕ → StoreCall
  result_call : DeviceCall → String → ResultOutcome → ℕ → StoreCall
  result_replay_call : DeviceCall → String → ℕ → StoreCall
  recover_call : ℕ → StoreCall

validate_claim_replay-Moves :
    (call : DeviceCall) (now : ℕ) (db : Database) → Moves db (validate_claim_replay call now db).0
unfolding validate_claim_replay
validate_claim_replay-Moves call now db =
    validate_replay-Moves call _ now db (λ db'. Moves-refl db')

validate_result_replay-Moves :
    (call : DeviceCall) (claim_id : String) (now : ℕ) (db : Database)
    → Moves db (validate_result_replay call claim_id now db).0
unfolding validate_result_replay
validate_result_replay-Moves call claim_id now db =
    validate_replay-Moves call _ now db (λ db'. get_claim-Moves call.request_id claim_id db')

module _ (account : String) where
  unfoldable pub step : ℕ → Database → StoreCall → Database
  step retention db (enqueue_call input now event) = (enqueue retention input now event db).0
  step retention db (claim_call call now claim_id) = (claim account call now claim_id db).0
  step retention db (claim_replay_call call now) = (validate_claim_replay call now db).0
  step retention db (result_call call claim_id result now) =
      (submit_result account call claim_id result now db).0
  step retention db (result_replay_call call claim_id now) =
      (validate_result_replay call claim_id now db).0
  step retention db (recover_call now) = (recover_expired now db).0

  unfoldable pub run : ℕ → Database → List StoreCall → Database
  run retention db [] = db
  run retention db (c ∷ cs) = run retention (step retention db c) cs

  step-Moves :
      (retention : ℕ) (db : Database) (c : StoreCall)
      → Distinct db.requests
      → Moves db (step retention db c)
  unfolding step
  step-Moves retention db (enqueue_call input now event) d =
      enqueue-Moves retention input now event db
  step-Moves retention db (claim_call call now claim_id) d =
      claim-Moves account call now claim_id db
  step-Moves retention db (claim_replay_call call now) d = validate_claim_replay-Moves call now db
  step-Moves retention db (result_call call claim_id result now) d =
      submit_result-Moves account call claim_id result now db
  step-Moves retention db (result_replay_call call claim_id now) d =
      validate_result_replay-Moves call claim_id now db
  step-Moves retention db (recover_call now) d = recover_expired-Moves now db d

  -- Whatever calls come, a request keeps its columns and its state only goes down the table of device
  -- requests, a receipt stays as it is, and the request ids stay distinct.
  pub run-Moves :
      (retention : ℕ) (db : Database) (cs : List StoreCall)
      → Distinct db.requests
      → Moves db (run retention db cs)
  unfolding run
  run-Moves retention db [] d = Moves-refl db
  run-Moves retention db (c ∷ cs) d =
      let first = step-Moves retention db c d in
      Moves-trans db (step retention db c) (run retention (step retention db c) cs) first
        (run-Moves retention (step retention db c) cs (first.keys d))

  -- A request whose state is final stays as it is, whatever calls come.
  final_outcome :
      (retention : ℕ) (db : Database) (cs : List StoreCall) (id : String) (row : DeviceRequestRow)
      → Distinct db.requests
      → get id db.requests ≡ some row
      → request_rank row.state ≡ 0
      → get id (run retention db cs).requests ≡ some row
  final_outcome retention db cs id row d there final =
      let (s, after, down) = (run-Moves retention db cs d).rows id row there in ground arith

  -- Two successful claims of a request return the same receipt, with the first one's claim id, whatever
  -- calls come between them.
  pub one_receipt :
      (retention : ℕ) (db db' db'' : Database) (call again : DeviceCall) (now now' : ℕ)
      (claim_id claim_id' : String) (first second : ClaimReceipt) (cs : List StoreCall)
      → Distinct db.requests
      → again.request_id ≡ call.request_id
      → claim account call now claim_id db ≡ (db', ok first)
      → claim account again now' claim_id' (run retention db' cs) ≡ (db'', ok second)
      → second ≡ first
  one_receipt retention db db' db'' call again now now' claim_id claim_id' first second cs d same h
        k =
      let one = claim-receipt_in account call now claim_id db db' first h in
      let two =
        claim-receipt_in account again now' claim_id' (run retention db' cs) db'' second k in
      let m : Moves db db' =
        subst (λ (x : Database × Result ClaimReceipt). Moves db x.0) h
          (claim-Moves account call now claim_id db) in
      let m' = run-Moves retention db' cs (m.keys d) in
      let m'' : Moves (run retention db' cs) db'' =
        subst (λ (x : Database × Result ClaimReceipt). Moves (run retention db' cs) x.0) k
          (claim-Moves account again now' claim_id' (run retention db' cs)) in
      let late =
        receipt_in-stays account (run retention db' cs) db'' call.request_id first m''
          (receipt_in-stays account db' (run retention db' cs) call.request_id first m' one) in
      let two' = subst (λ id. receipt_in account id db'' ≡ some second) same two in
      ground (arith, late, two')
