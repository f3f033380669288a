-- ===== src/Operation/Lifecycle.antt =====
-- The approval gate of the operation lifecycle.
use agent_life.Shared.{
  ◌≡◌, ◌⊎◌, inl, inr, String, Bool, true, false, Option, none, some, List, [], ◌∷◌, arith, any,
}
use agent_life.Operation.{
  RequestStatus, approved, executing, TerminalOutcome, succeeded, result_unknown,
  WireOperationState, OperationRecord, OperationEvent, approval_not_required, approval_granted,
  validate_operation_record,
}
use agent_life.Operation.Machine.{reduce_operation, held, run, advance}
use agent_life.Operation.Effect.{Effect, held_elim}

-- The states that only an approved operation reaches.
abbrev past : Option RequestStatus → Option TerminalOutcome → Bool
past (some approved) _ = true
past (some executing) _ = true
past none (some succeeded) = true
past none (some result_unknown) = true
past _ _ = false

abbrev pub past_approval : WireOperationState → Bool
past_approval s = past s.request_status s.terminal_outcome

abbrev pub is_approval : OperationEvent → Bool
is_approval approval_not_required = true
is_approval approval_granted = true
is_approval _ = false

advance-past_approval :
    (r : OperationRecord) (now : String) (e : OperationEvent) (s : RequestStatus)
    (st : WireOperationState)
    → advance r now e s ≡ some st
    → past_approval st ≡ true
    → (is_approval e ≡ true) ⊎ (s ≡ approved) ⊎ (s ≡ executing)
unfolding advance
advance-past_approval r now e s st h p = ground arith

abbrev Passed : OperationRecord → Bool → Type 0
Passed r approvals = past_approval r.state ≡ true → approvals ≡ true

Effect-past_approval :
    (r : OperationRecord) (now : String) (e : OperationEvent) {r' : OperationRecord} {c : Bool}
    → validate_operation_record r ≡ true
    → Effect r e now r' c
    → past_approval r'.state ≡ true
    → (past_approval r.state ≡ true) ⊎ (is_approval e ≡ true)
Effect-past_approval r now e v (inl x) p =
    ground (arith, advance-past_approval r now e x.from x.onto x.step)
Effect-past_approval r now e v (inr (inl x)) p = inl (ground arith)
Effect-past_approval r now e v (inr (inr x)) p = inl (ground arith)

held-past_approval :
    (r : OperationRecord) (e : OperationEvent) (now : String)
    → past_approval (held r (reduce_operation r e now)).state ≡ true
    → (past_approval r.state ≡ true) ⊎ (is_approval e ≡ true)
held-past_approval r e now =
    held_elim
      (λ q. past_approval q.state ≡ true → (past_approval r.state ≡ true) ⊎ (is_approval e ≡ true))
      r e now inl (λ r' c v w x. Effect-past_approval r now e v x)

-- No operation is approved, executing, succeeded or of unknown result unless it was so at the
-- start or the history holds an approval: one that was granted, or was found not to be required.
pub run_needs_approval :
    (r : OperationRecord) (es : List (OperationEvent × String))
    → past_approval (run r es).state ≡ true
    → (past_approval r.state ≡ true) ⊎ (any (λ c. is_approval c.0) es ≡ true)
unfolding run
run_needs_approval r [] p = inl p
run_needs_approval r ((e, now) ∷ es) p =
    ground (
      arith,
      run_needs_approval (held r (reduce_operation r e now)) es p,
      held-past_approval r e now,
    )
