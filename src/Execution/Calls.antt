-- ===== src/Execution/Calls.antt =====
-- Histories of calls on the ledger: one claim and one result for an operation.
use agent_life.Shared.{
  ◌≡◌, ◌≢◌, refl, inl, inr, String, Bool, true, false, Option, none, some, List, [], ◌∷◌, arith, ℕ,
  Result, ok, err, eq_iff, eq_refl, Option-cases, if◌then◌else◌, ap, ◌∙◌,
}
use agent_life.Shared.Dict.{get, get-set}
use agent_life.Operation.{OperationRecord, execution_claimed}
use agent_life.Operation.Machine.{Reduction, accepted, refused, reduce_operation}
use agent_life.Execution.{
  Json, SignedOperationReceipt, validate_signed_operation_receipt, ExecutionLedgerEntry, registered,
  claimed, result, Ledger, equal_bytes,
}
use agent_life.Execution.Ledger.{
  claimed_as, same_result, result_conflict, register, claim, claim_over, claim_entry, claim_reduced,
  put_result, put_over, put_entry, recover_claimed_without_result,
}
use agent_life.Execution.Invariant.{Inv, register-Inv, claim-Inv}
use agent_life.Execution.Results.{put_result-Inv}
use agent_life.Execution.Recovery.{recover-Inv}
use agent_life.Execution.Lifecycle.{
  Grows, keeps, registers, claims, gives_up, stores, register-Grows, claim-Grows, put_result-Grows,
  recover-Grows,
}

pub data Call : Type 0 where
  register_call : OperationRecord → String → Call
  claim_call : String → String → String → String → String → Call
  put_call : String → String → String → SignedOperationReceipt → String → Call
  recover_call : String → Call

-- The claim id of an entry.
abbrev claim_id : Option ExecutionLedgerEntry → Option String
claim_id (some (claimed _ c _ _)) = some c
claim_id (some (result _ c _ _)) = some c
claim_id _ = none

Grows-claim_id :
    {e e' : Option ExecutionLedgerEntry} (c : String)
    → Grows e e'
    → claim_id e ≡ some c
    → claim_id e' ≡ some c
Grows-claim_id c keeps h = h
Grows-claim_id c registers h = absurd (cc)
Grows-claim_id c claims h = absurd (cc)
Grows-claim_id c gives_up h = h
Grows-claim_id c stores h = h

abbrev is_result : Option ExecutionLedgerEntry → Bool
is_result (some (result _ _ _ _)) = true
is_result _ = false

Grows-result : {e e' : Option ExecutionLedgerEntry} → Grows e e' → is_result e ≡ true → e' ≡ e
Grows-result keeps h = refl
Grows-result registers h = absurd (cc)
Grows-result claims h = absurd (cc)
Grows-result gives_up h = absurd (cc)
Grows-result stores h = absurd (cc)

-- A successful claim leaves its id in the entry.
claim_entry-holds :
    (l : Ledger) (op d at fresh now c : String) (prior : ExecutionLedgerEntry)
    → (claim_entry l op d at fresh now prior).1 ≡ ok (claimed_as c)
    → claim_id (get op (claim_entry l op d at fresh now prior).0) ≡ some c
unfolding claim_entry claim_reduced
claim_entry-holds l op d at fresh now c (registered r replay) h =
    holds (reduce_operation r execution_claimed now) h
  where
    holds :
        (x : Result Reduction)
        → (claim_reduced l op at d fresh r x).1 ≡ ok (claimed_as c)
        → claim_id (get op (claim_reduced l op at d fresh r x).0) ≡ some c
    holds (err _) h = absurd (cc)
    holds (ok (refused _ _)) h = absurd (cc)
    holds (ok (accepted r' _)) h =
        ground (arith, get-set op op (claimed r' fresh at d) l, eq_refl op)
claim_entry-holds l op d at fresh now c (claimed _ _ _ _) h = absurd (cc)
claim_entry-holds l op d at fresh now c (result _ _ _ _) h = absurd (cc)

claim-holds :
    (date_parses : String → Bool) (l : Ledger) (op d at fresh now c : String)
    → (claim date_parses l op d at fresh now).1 ≡ ok (claimed_as c)
    → claim_id (get op (claim date_parses l op d at fresh now).0) ≡ some c
unfolding claim claim_over
claim-holds date_parses l op d at fresh now c h = elim (Option-cases (get op l)) [
  | inl free ↦ absurd (ground arith)
  | inr (prior, taken) ↦ ground (arith, claim_entry-holds l op d at fresh now c prior)
]

-- An entry that is claimed is not claimed again.
claim-taken :
    (date_parses : String → Bool) (l : Ledger) (op d at fresh now c c' : String)
    → claim_id (get op l) ≡ some c
    → (claim date_parses l op d at fresh now).1 ≢ ok (claimed_as c')
unfolding claim claim_over claim_entry
claim-taken date_parses l op d at fresh now c c' h e = ground arith

module _ (canonical : Json → Option (List ℕ)) (date_parses : String → Bool) where
  pub step : Ledger → Call → Ledger
  step l (register_call r replay) = (register canonical l r replay).0
  step l (claim_call op d at fresh now) = (claim date_parses l op d at fresh now).0
  step l (put_call op d c receipt now) = (put_result l op d c receipt now).0
  step l (recover_call now) = (recover_claimed_without_result now l).0

  unfoldable pub run : Ledger → List Call → Ledger
  run l [] = l
  run l (c ∷ cs) = run (step l c) cs

  step-Inv : (l : Ledger) (c : Call) → Inv l → Inv (step l c)
  unfolding step
  step-Inv l (register_call r replay) inv = register-Inv canonical l r replay inv
  step-Inv l (claim_call op d at fresh now) inv = claim-Inv date_parses l op d at fresh now inv
  step-Inv l (put_call op d c receipt now) inv = put_result-Inv l op d c now receipt inv
  step-Inv l (recover_call now) inv = recover-Inv now l inv

  -- After any calls on a sound ledger every entry is sound: it is a valid record under its own
  -- operation id, a claimed one executes or was given up, and a stored receipt is valid, names the
  -- operation and its parameters, and signs the state and revision of the record.
  pub run-Inv : (l : Ledger) (cs : List Call) → Inv l → Inv (run l cs)
  unfolding run
  run-Inv l [] inv = inv
  run-Inv l (c ∷ cs) inv = run-Inv (step l c) cs (step-Inv l c inv)

  -- Under every key each call keeps the entry, registers one, claims a registered one, gives a
  -- claimed one up under the same claim, or stores a result for it under the same claim.
  pub step-Grows : (l : Ledger) (c : Call) (k : String) → Grows (get k l) (get k (step l c))
  unfolding step
  step-Grows l (register_call r replay) k = register-Grows l k canonical r replay
  step-Grows l (claim_call op d at fresh now) k = claim-Grows l k date_parses op d at fresh now
  step-Grows l (put_call op d c receipt now) k = put_result-Grows l k op d c now receipt
  step-Grows l (recover_call now) k = recover-Grows k now l

  run-claim_id :
      (l : Ledger) (cs : List Call) (k c : String)
      → claim_id (get k l) ≡ some c
      → claim_id (get k (run l cs)) ≡ some c
  unfolding run
  run-claim_id l [] k c h = h
  run-claim_id l (x ∷ cs) k c h =
      run-claim_id (step l x) cs k c (Grows-claim_id c (step-Grows l x k) h)

  -- Once a claim on an operation has succeeded, none succeeds again after any further calls,
  -- whatever digest, time and fresh id it comes with.
  pub claim_once :
      (l : Ledger) (cs : List Call) (op d at fresh now c d' at' fresh' now' c' : String)
      → (claim date_parses l op d at fresh now).1 ≡ ok (claimed_as c)
      → (claim date_parses
          (run (claim date_parses l op d at fresh now).0 cs)
          op
          d'
          at'
          fresh'
          now').1
        ≢ ok (claimed_as c')
  claim_once l cs op d at fresh now c d' at' fresh' now' c' h =
      claim-taken date_parses (run (claim date_parses l op d at fresh now).0 cs) op d' at' fresh'
        now' c c'
        (run-claim_id (claim date_parses l op d at fresh now).0 cs op c
          (claim-holds date_parses l op d at fresh now c h))

  run-result :
      (l : Ledger) (cs : List Call) (k : String)
      → is_result (get k l) ≡ true
      → get k (run l cs) ≡ get k l
  unfolding run
  run-result l [] k h = refl
  run-result l (x ∷ cs) k h =
      let same = Grows-result (step-Grows l x k) h in
      run-result (step l x) cs k (ap is_result same ∙ h) ∙ same

  -- A stored result is final: after any further calls, putting a valid receipt of the same
  -- operation and parameters answers same or conflict by its bytes, and the ledger stays as it is.
  pub result_final :
      (l : Ledger) (cs : List Call) (op d c c' at now : String) (r : OperationRecord)
      (receipt other : SignedOperationReceipt)
      → get op l ≡ some (result r c' at receipt)
      → r.binding.parameters_digest ≡ d
      → validate_signed_operation_receipt other ≡ true
      → other.operation_id ≡ op
      → other.parameters_digest ≡ d
      → put_result (run l cs) op d c other now ≡ (
        run l cs,
        ok (
            if equal_bytes receipt.canonical_bytes other.canonical_bytes
            then same_result
            else result_conflict),
      )
  unfolding put_result put_over put_entry
  result_final l cs op d c c' at now r receipt other g b v i p =
      let held = run-result l cs op (ap is_result g) ∙ g in
      ground (
        arith,
        held,
        eq_iff r.binding.parameters_digest d,
        eq_iff other.parameters_digest d,
        eq_iff other.operation_id op,
      )
