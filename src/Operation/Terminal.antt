-- ===== src/Operation/Terminal.antt =====
-- Terminal operations: nothing reopens them, and evidence about an unknown result is taken once.
use agent_life.Shared.{
  ◌≡◌, refl, inl, inr, String, Bool, true, false, some, List, arith, ok, if◌then◌else◌, eq_iff,
}
use agent_life.Operation.{
  TerminalOutcome, Reconciliation, OperationRecord, OperationEvent, reconcile_evidence,
  is_result_unknown, validate_operation_record, validate_operation_event,
}
use agent_life.Operation.Machine.{
  accepted, refused, result_conflict, reduce_operation, reduce, advance, reconcile, against_prior,
  same_evidence, run,
}
use agent_life.Operation.Effect.{Effect, Settled, run_inv, reduce_operation-Effect}
use agent_life.Operation.Invariant.{reduce_operation-valid}

-- A concluded operation keeps its wire state for ever, under any events.
pub run_terminal_state :
    (r : OperationRecord) (t : TerminalOutcome) (es : List (OperationEvent × String))
    → r.state.terminal_outcome ≡ some t
    → (run r es).state ≡ r.state
run_terminal_state r t es h = run_inv (λ q. q.state ≡ r.state) keep r es refl
  where
    keep :
        (q : OperationRecord) (e : OperationEvent) (now : String) (q' : OperationRecord) (c : Bool)
        → validate_operation_record q ≡ true
        → validate_operation_event e ≡ true
        → Effect q e now q' c
        → q.state ≡ r.state
        → q'.state ≡ r.state
    keep q e now q' c v w (inl x) p = absurd (ground arith)
    keep q e now q' c v w (inr (inl x)) p = ground arith
    keep q e now q' c v w (inr (inr x)) p = ground arith

-- Evidence that was once taken is never replaced.
run_reconciliation :
    (r : OperationRecord) (ev : Reconciliation) (es : List (OperationEvent × String))
    → r.reconciliation ≡ some ev
    → (run r es).reconciliation ≡ some ev
run_reconciliation r ev es h = run_inv (λ q. q.reconciliation ≡ some ev) keep r es h
  where
    keep :
        (q : OperationRecord) (e : OperationEvent) (now : String) (q' : OperationRecord) (c : Bool)
        → validate_operation_record q ≡ true
        → validate_operation_event e ≡ true
        → Effect q e now q' c
        → q.reconciliation ≡ some ev
        → q'.reconciliation ≡ some ev
    keep q e now q' c v w (inl x) p = ground arith
    keep q e now q' c v w (inr (inl x)) p = ground arith
    keep q e now q' c v w (inr (inr x)) p = ground arith

same_evidence→eq : (a b : Reconciliation) → same_evidence a b ≡ true → a ≡ b
unfolding same_evidence
same_evidence→eq a b h =
    ground (arith, eq_iff a.evidence_digest b.evidence_digest, eq_iff a.observed_at b.observed_at)

Settled-not_evidence :
    (r : OperationRecord) (ev : Reconciliation) (now : String) {r' : OperationRecord} {c : Bool}
    → Settled r (reconcile_evidence ev) now r' c
    → ⊥
unfolding advance
Settled-not_evidence r ev now x = ground (arith, x.step)

reconciled_state :
    (r : OperationRecord) (ev : Reconciliation) (now : String) {r' : OperationRecord} {c : Bool}
    → Effect r (reconcile_evidence ev) now r' c
    → (r'.reconciliation ≡ some ev) × (is_result_unknown r'.state.terminal_outcome ≡ true)
reconciled_state r ev now (inl x) = absurd (Settled-not_evidence r ev now x)
reconciled_state r ev now (inr (inl x)) = ground arith
reconciled_state r ev now (inr (inr x)) = ground (arith, same_evidence→eq x.prior x.evidence x.same)

reduce_held :
    (r : OperationRecord) (held_evidence ev : Reconciliation) (now : String)
    → validate_operation_record r ≡ true
    → validate_operation_event (reconcile_evidence ev) ≡ true
    → r.reconciliation ≡ some held_evidence
    → is_result_unknown r.state.terminal_outcome ≡ true
    → reduce_operation r (reconcile_evidence ev) now
      ≡ ok (if same_evidence held_evidence ev then accepted r false else refused result_conflict r)
unfolding reduce_operation reduce reconcile against_prior validate_operation_event
reduce_held r held_evidence ev now v w h u = ground arith

-- Evidence accepted once is accepted again with no change, and any other valid evidence is refused
-- as a conflict that leaves the record as it is.
pub reconcile_once :
    (r : OperationRecord) (first second : Reconciliation) (now later : String)
    {r' : OperationRecord} {c : Bool}
    → reduce_operation r (reconcile_evidence first) now ≡ ok (accepted r' c)
    → validate_operation_event (reconcile_evidence second) ≡ true
    → reduce_operation r' (reconcile_evidence second) later
      ≡ ok (if same_evidence first second then accepted r' false else refused result_conflict r')
reconcile_once r first second now later h v =
    let (valid, w, x) = reduce_operation-Effect r now (reconcile_evidence first) h in
    let (kept, unknown) = reconciled_state r first now x in
    reduce_held _ first second later (reduce_operation-valid r (reconcile_evidence first) now h) v
      kept unknown
