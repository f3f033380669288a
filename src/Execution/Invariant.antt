-- ===== src/Execution/Invariant.antt =====
-- The invariant of MemoryExecutionLedger, and that every method keeps it.
use agent_life.Shared.{
  ℕ, ◌≡◌, ◌⊎◌, refl, inl, String, Bool, true, Option, none, some, List, arith, Result, ok, err,
  eq_iff,
}
use agent_life.Shared.Dict.{get, Entries, Entries-get, Entries-set}
use agent_life.Operation.{
  executing, result_unknown, WireOperationState, requested, concluded, OperationRecord,
  OperationEvent, execution_claimed, validate_operation_record,
}
use agent_life.Operation.Machine.{Reduction, accepted, refused, reduce_operation}
use agent_life.Operation.Invariant.{reduce_operation-valid, reduce_operation-Frame}
use agent_life.Operation.Execution.{reduce_operation-target}
use agent_life.Execution.{
  Json, SignedOperationReceipt, validate_signed_operation_receipt, ExecutionLedgerEntry, registered,
  claimed, result, Ledger, entry_record,
}
use agent_life.Execution.Ledger.{
  register, register_over, claim, claim_over, claim_entry, claim_reduced,
}

-- A claimed record executes, or was given up by a recovery.
abbrev pub Running : WireOperationState → Type 0
Running s = (s ≡ requested executing) ⊎ (s ≡ concluded result_unknown none)

abbrev pub Bound : String → OperationRecord → Type 0
Bound op r = (validate_operation_record r ≡ true) × (r.binding.operation_id ≡ op)

-- A stored receipt speaks of the operation it is stored for, and signs the record's very state.
pub record Witnesses (op d : String) (r : OperationRecord) (receipt : SignedOperationReceipt)
    : Type 0 where
  pub operation : receipt.operation_id ≡ op
  pub digest : receipt.parameters_digest ≡ d
  pub revision : receipt.state_revision ≡ r.state_revision
  pub state : receipt.state ≡ r.state
  pub valid : validate_signed_operation_receipt receipt ≡ true

abbrev pub Sound : String → ExecutionLedgerEntry → Type 0
Sound op (registered r _) = Bound op r
Sound op (claimed r _ _ d) = Bound op r × (r.binding.parameters_digest ≡ d) × Running r.state
Sound op (result r _ d receipt) =
    Bound op r × (r.binding.parameters_digest ≡ d) × Witnesses op d r receipt

abbrev pub Inv : Ledger → Type 0
Inv = Entries Sound

register_over-Inv :
    (canonical : Json → Option (List ℕ)) (l : Ledger) (r : OperationRecord) (replay : String)
    (prior : Option ExecutionLedgerEntry)
    → validate_operation_record r ≡ true
    → Inv l
    → Inv (register_over canonical l r replay prior).0
unfolding register_over
register_over-Inv canonical l r replay none v inv =
    Entries-set Sound r.binding.operation_id (registered r replay) l inv (v, refl)
register_over-Inv canonical l r replay (some prior) v inv = ground arith

pub register-Inv :
    (canonical : Json → Option (List ℕ)) (l : Ledger) (r : OperationRecord) (replay : String)
    → Inv l
    → Inv (register canonical l r replay).0
unfolding register
register-Inv canonical l r replay inv =
    ground (arith, register_over-Inv canonical l r replay (get r.binding.operation_id l))

-- What the reducer hands back is bound to the operation still.
pub reduced-Bound :
    (op : String) (r : OperationRecord) (e : OperationEvent) (now : String) {r' : OperationRecord}
    {c : Bool}
    → Bound op r
    → reduce_operation r e now ≡ ok (accepted r' c)
    → Bound op r'
reduced-Bound op r e now (_, bound) h =
    let frame = reduce_operation-Frame r e now h in
    (reduce_operation-valid r e now h, ground (arith, frame.2))

pub reduced-digest :
    (r : OperationRecord) (e : OperationEvent) (now : String) {r' : OperationRecord} {c : Bool}
    → reduce_operation r e now ≡ ok (accepted r' c)
    → r'.binding.parameters_digest ≡ r.binding.parameters_digest
reduced-digest r e now h = ground (arith, (reduce_operation-Frame r e now h).2)

claim_reduced-Inv :
    (l : Ledger) (op at d fresh now : String) (r : OperationRecord) (x : Result Reduction)
    → Inv l
    → Bound op r
    → r.binding.parameters_digest ≡ d
    → reduce_operation r execution_claimed now ≡ x
    → Inv (claim_reduced l op at d fresh r x).0
unfolding claim_reduced
claim_reduced-Inv l op at d fresh now r (err e) inv b p h = inv
claim_reduced-Inv l op at d fresh now r (ok (refused _ _)) inv b p h = inv
claim_reduced-Inv l op at d fresh now r (ok (accepted r' c)) inv b p h =
    let entry = Entries-set Sound op (claimed r' fresh at d) l inv (
      reduced-Bound op r execution_claimed now b h,
      ground (arith, reduced-digest r execution_claimed now h),
      inl (reduce_operation-target r execution_claimed now h refl),
    ) in
    ground arith

claim_entry-Inv :
    (l : Ledger) (op d at fresh now : String) (prior : ExecutionLedgerEntry)
    → Inv l
    → Sound op prior
    → (entry_record prior).binding.parameters_digest ≡ d
    → Inv (claim_entry l op d at fresh now prior).0
unfolding claim_entry
claim_entry-Inv l op d at fresh now (registered r replay) inv b p =
    claim_reduced-Inv l op at d fresh now r (reduce_operation r execution_claimed now) inv b p refl
claim_entry-Inv l op d at fresh now (claimed _ _ _ _) inv b p = inv
claim_entry-Inv l op d at fresh now (result _ _ _ _) inv b p = inv

claim_over-Inv :
    (l : Ledger) (op d at fresh now : String) (prior : Option ExecutionLedgerEntry)
    → Inv l
    → get op l ≡ prior
    → Inv (claim_over l op d at fresh now prior).0
unfolding claim_over
claim_over-Inv l op d at fresh now none inv g = inv
claim_over-Inv l op d at fresh now (some prior) inv g = ground (
  arith,
  eq_iff (entry_record prior).binding.parameters_digest d,
  claim_entry-Inv l op d at fresh now prior inv (Entries-get Sound op l inv g),
)

pub claim-Inv :
    (date_parses : String → Bool) (l : Ledger) (op d at fresh now : String)
    → Inv l
    → Inv (claim date_parses l op d at fresh now).0
unfolding claim
claim-Inv date_parses l op d at fresh now inv =
    ground (arith, claim_over-Inv l op d at fresh now (get op l) inv refl)
