-- ===== src/Operation/Effect.antt =====
-- What an accepted event can have done: the cases that the proofs about `reduceOperation` share.
use agent_life.Shared.{
  ◌≡◌, refl, ◌⊎◌, inl, inr, String, Bool, true, false, Option, none, some, List, [], ◌∷◌, arith, ok,
  err, Option-cases,
}
use agent_life.Operation.{
  RequestStatus, TerminalOutcome, WireOperationState, Reconciliation, OperationRecord,
  OperationEvent, reconcile_evidence, validate_operation_event, validate_operation_record,
  is_result_unknown,
}
use agent_life.Operation.Machine.{
  accepted, refused, next, reduce_operation, held, run, advance, settle, from_status, proceed,
  reduce, reconcile, against_prior, same_evidence,
}

pub record Settled (r : OperationRecord) (e : OperationEvent) (now : String) (r' : OperationRecord)
    (c : Bool) : Type 0 where
  pub from : RequestStatus
  pub onto : WireOperationState
  pub status : r.state.request_status ≡ some from
  pub open_outcome : r.state.terminal_outcome ≡ none
  pub step : advance r now e from ≡ some onto
  pub became : r' ≡ next r onto r.reconciliation
  pub changed : c ≡ true

pub record Reconciled (r : OperationRecord) (e : OperationEvent) (r' : OperationRecord) (c : Bool)
    : Type 0 where
  pub evidence : Reconciliation
  pub event : e ≡ reconcile_evidence evidence
  pub unknown : is_result_unknown r.state.terminal_outcome ≡ true
  pub first : r.reconciliation ≡ none
  pub became : r' ≡ next r r.state (some evidence)
  pub changed : c ≡ true

pub record Repeated (r : OperationRecord) (e : OperationEvent) (r' : OperationRecord) (c : Bool)
    : Type 0 where
  pub evidence : Reconciliation
  pub prior : Reconciliation
  pub event : e ≡ reconcile_evidence evidence
  pub unknown : is_result_unknown r.state.terminal_outcome ≡ true
  pub held_prior : r.reconciliation ≡ some prior
  pub same : same_evidence prior evidence ≡ true
  pub became : r' ≡ r
  pub changed : c ≡ false

abbrev pub Effect : OperationRecord → OperationEvent → String → OperationRecord → Bool → Type 0
Effect r e now r' c = Settled r e now r' c ⊎ Reconciled r e r' c ⊎ Repeated r e r' c

proceed-Settled :
    (r : OperationRecord) (now : String) (e : OperationEvent) {r' : OperationRecord} {c : Bool}
    (o : Option TerminalOutcome) (s : Option RequestStatus)
    → r.state.terminal_outcome ≡ o
    → r.state.request_status ≡ s
    → proceed r now e r.state.terminal_outcome ≡ accepted r' c
    → Settled r e now r' c
unfolding proceed from_status settle
proceed-Settled r now e (some _) s p q h = ground arith
proceed-Settled r now e none none p q h = ground arith
proceed-Settled r now e none (some s) p q h = elim (Option-cases (advance r now e s)) [
  | inl stuck ↦ absurd (ground arith)
  | inr (st, moves) ↦ record {
    from = s;
    onto = st;
    status = q;
    open_outcome = p;
    step = moves;
    became = ground arith;
    changed = ground arith;
  }
]

reconcile-Effect :
    (r : OperationRecord) (e : Reconciliation) (prior : Option Reconciliation)
    {r' : OperationRecord} {c : Bool}
    → r.reconciliation ≡ prior
    → reconcile r e ≡ accepted r' c
    → Reconciled r (reconcile_evidence e) r' c ⊎ Repeated r (reconcile_evidence e) r' c
unfolding reconcile against_prior
reconcile-Effect r e none p h = inl (record {
  evidence = e;
  event = refl;
  unknown = ground arith;
  first = p;
  became = ground arith;
  changed = ground arith;
})
reconcile-Effect r e (some prior) p h = inr (record {
  evidence = e;
  prior = prior;
  event = refl;
  unknown = ground arith;
  held_prior = p;
  same = ground arith;
  became = ground arith;
  changed = ground arith;
})

reduce-Effect :
    (r : OperationRecord) (now : String) (e : OperationEvent) {r' : OperationRecord} {c : Bool}
    → reduce r now e ≡ accepted r' c
    → Effect r e now r' c
unfolding reduce
reduce-Effect r now (reconcile_evidence e) h = inr (reconcile-Effect r e r.reconciliation refl h)
reduce-Effect r now e h =
    inl (proceed-Settled r now e r.state.terminal_outcome r.state.request_status refl refl h)

-- The record and the event of an accepted reduction are valid, and one of the effects took place.
pub reduce_operation-Effect :
    (r : OperationRecord) (now : String) (e : OperationEvent) {r' : OperationRecord} {c : Bool}
    → reduce_operation r e now ≡ ok (accepted r' c)
    → (validate_operation_record r ≡ true)
      × (validate_operation_event e ≡ true)
      × Effect r e now r' c
unfolding reduce_operation
reduce_operation-Effect r now e h =
    (ground arith, ground arith, reduce-Effect r now e (ground arith))

-- A stored record moves only by accepted events.
pub held_elim {ℓ} :
    (P : OperationRecord → Type ℓ) (r : OperationRecord) (e : OperationEvent) (now : String)
    → P r
    → ((r' : OperationRecord) (c : Bool)
        → validate_operation_record r ≡ true
        → validate_operation_event e ≡ true
        → Effect r e now r' c
        → P r')
    → P (held r (reduce_operation r e now))
held_elim P r e now stays moves =
    (elim (reduce_operation r e now) as (λ x. reduce_operation r e now ≡ x → P (held r x)) [
      | ok (accepted r' c) ↦
          λ h. let (v, w, x) = reduce_operation-Effect r now e h in moves r' c v w x
      | ok (refused _ _) ↦ λ _. stays
      | err _ ↦ λ _. stays
    ])
      refl

-- What every effect keeps holds after any history.
pub run_inv {ℓ} :
    (P : OperationRecord → Type ℓ)
    → ((r : OperationRecord) (e : OperationEvent) (now : String) (r' : OperationRecord) (c : Bool)
        → validate_operation_record r ≡ true
        → validate_operation_event e ≡ true
        → Effect r e now r' c
        → P r
        → P r')
    → (r : OperationRecord) (es : List (OperationEvent × String)) → P r
    → P (run r es)
unfolding run
run_inv P keep r [] p = p
run_inv P keep r ((e, now) ∷ es) p =
    run_inv P keep (held r (reduce_operation r e now)) es
      (held_elim P r e now p (λ r' c v w x. keep r e now r' c v w x p))
