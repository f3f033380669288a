-- ===== src/Execution/Lifecycle.antt =====
-- The life of an entry of the ledger, as a relation, and that every method follows it at every key.
use agent_life.Shared.{
  ◌≡◌, refl, inl, inr, String, Bool, Option, none, some, List, [], ◌∷◌, arith, subst, Result, ok,
  err, eq_iff, str_eq, Bool-cases, ℕ,
}
use agent_life.Shared.Dict.{get, set, get-set}
use agent_life.Operation.{OperationRecord, execution_claimed, execution_result_unknown}
use agent_life.Operation.Machine.{Reduction, accepted, refused, reduce_operation}
use agent_life.Execution.{
  Json, SignedOperationReceipt, ExecutionLedgerEntry, registered, claimed, result, Ledger,
}
use agent_life.Execution.Ledger.{
  register, register_over, claim, claim_over, claim_entry, claim_reduced, put_result, put_over,
  put_entry, put_reduced, conclude, recover_claimed_without_result, recover_round,
}

-- A claim keeps its id to the end, and a stored result is final.
pub data Grows : Option ExecutionLedgerEntry → Option ExecutionLedgerEntry → Type 0 where
  keeps : {e : Option ExecutionLedgerEntry} → Grows e e
  registers : {r : OperationRecord} {replay : String} → Grows none (some (registered r replay))
  claims :
      {r r' : OperationRecord} {replay c at d : String}
      → Grows (some (registered r replay)) (some (claimed r' c at d))
  gives_up :
      {r r' : OperationRecord} {c at d : String}
      → Grows (some (claimed r c at d)) (some (claimed r' c at d))
  stores :
      {r r' : OperationRecord} {c at d : String} {receipt : SignedOperationReceipt}
      → Grows (some (claimed r c at d)) (some (result r' c d receipt))

set-Grows :
    (l : Ledger) (op k : String) (e : ExecutionLedgerEntry)
    → Grows (get op l) (some e)
    → Grows (get k l) (get k (set op e l))
set-Grows l op k e g = elim (Bool-cases (str_eq op k)) [
  | inl hit ↦
      rw (get-set op k e l, hit) (subst (λ x. Grows (get x l) (some e)) ((eq_iff op k).0 hit) g)
  | inr miss ↦ rw (get-set op k e l, miss) keeps
]

module _ (l : Ledger) (k : String) where
  unmoved : Grows (get k l) (get k l)
  unmoved = keeps

  register_over-Grows :
      (canonical : Json → Option (List ℕ)) (r : OperationRecord) (replay : String)
      (prior : Option ExecutionLedgerEntry)
      → get r.binding.operation_id l ≡ prior
      → Grows (get k l) (get k (register_over canonical l r replay prior).0)
  unfolding register_over
  register_over-Grows canonical r replay none g =
      set-Grows l r.binding.operation_id k (registered r replay) (rw g registers)
  register_over-Grows canonical r replay (some prior) g = ground (arith, unmoved)

  pub register-Grows :
      (canonical : Json → Option (List ℕ)) (r : OperationRecord) (replay : String)
      → Grows (get k l) (get k (register canonical l r replay).0)
  unfolding register
  register-Grows canonical r replay =
      ground
        (arith, unmoved, register_over-Grows canonical r replay (get r.binding.operation_id l) refl)

  claim_reduced-Grows :
      (op at d fresh replay : String) (r : OperationRecord) (x : Result Reduction)
      → get op l ≡ some (registered r replay)
      → Grows (get k l) (get k (claim_reduced l op at d fresh r x).0)
  unfolding claim_reduced
  claim_reduced-Grows op at d fresh replay r (err e) g = keeps
  claim_reduced-Grows op at d fresh replay r (ok (refused _ _)) g = keeps
  claim_reduced-Grows op at d fresh replay r (ok (accepted r' _)) g =
      ground (arith, unmoved, set-Grows l op k (claimed r' fresh at d) (rw g claims))

  claim_entry-Grows :
      (op d at fresh now : String) (prior : ExecutionLedgerEntry)
      → get op l ≡ some prior
      → Grows (get k l) (get k (claim_entry l op d at fresh now prior).0)
  unfolding claim_entry
  claim_entry-Grows op d at fresh now (registered r replay) g =
      claim_reduced-Grows op at d fresh replay r (reduce_operation r execution_claimed now) g
  claim_entry-Grows op d at fresh now (claimed _ _ _ _) g = keeps
  claim_entry-Grows op d at fresh now (result _ _ _ _) g = keeps

  claim_over-Grows :
      (op d at fresh now : String) (prior : Option ExecutionLedgerEntry)
      → get op l ≡ prior
      → Grows (get k l) (get k (claim_over l op d at fresh now prior).0)
  unfolding claim_over
  claim_over-Grows op d at fresh now none g = keeps
  claim_over-Grows op d at fresh now (some prior) g =
      ground (arith, unmoved, claim_entry-Grows op d at fresh now prior g)

  pub claim-Grows :
      (date_parses : String → Bool) (op d at fresh now : String)
      → Grows (get k l) (get k (claim date_parses l op d at fresh now).0)
  unfolding claim
  claim-Grows date_parses op d at fresh now =
      ground (arith, unmoved, claim_over-Grows op d at fresh now (get op l) refl)

  put_reduced-Grows :
      (op c d at : String) (r : OperationRecord) (receipt : SignedOperationReceipt)
      (x : Result Reduction)
      → get op l ≡ some (claimed r c at d)
      → Grows (get k l) (get k (put_reduced l op c d receipt x).0)
  unfolding put_reduced
  put_reduced-Grows op c d at r receipt (err e) g = keeps
  put_reduced-Grows op c d at r receipt (ok (refused _ _)) g = keeps
  put_reduced-Grows op c d at r receipt (ok (accepted r' _)) g =
      ground (arith, unmoved, set-Grows l op k (result r' c d receipt) (rw g stores))

  put_entry-Grows :
      (op c now : String) (receipt : SignedOperationReceipt) (prior : ExecutionLedgerEntry)
      → get op l ≡ some prior
      → Grows (get k l) (get k (put_entry l op c receipt now prior).0)
  unfolding put_entry
  put_entry-Grows op c now receipt (result _ _ _ _) g = ground (arith, unmoved)
  put_entry-Grows op c now receipt (registered _ _) g = keeps
  put_entry-Grows op c now receipt (claimed r c' at d) g = ground (
    arith,
    unmoved,
    put_reduced-Grows op c' d at r receipt
        (conclude r now receipt.state.terminal_outcome receipt.state.operation_reason) g,
  )

  put_over-Grows :
      (op d c now : String) (receipt : SignedOperationReceipt) (prior : Option ExecutionLedgerEntry)
      → get op l ≡ prior
      → Grows (get k l) (get k (put_over l op d c receipt now prior).0)
  unfolding put_over
  put_over-Grows op d c now receipt none g = keeps
  put_over-Grows op d c now receipt (some prior) g =
      ground (arith, unmoved, put_entry-Grows op c now receipt prior g)

  pub put_result-Grows :
      (op d c now : String) (receipt : SignedOperationReceipt)
      → Grows (get k l) (get k (put_result l op d c receipt now).0)
  unfolding put_result
  put_result-Grows op d c now receipt = put_over-Grows op d c now receipt (get op l) refl

-- Growth at the head, and growth behind it.
cons-Grows :
    (k op : String) (l l' : Ledger) {e e' : ExecutionLedgerEntry}
    → Grows (some e) (some e')
    → Grows (get k l) (get k l')
    → Grows (get k ((op, e) ∷ l)) (get k ((op, e') ∷ l'))
unfolding get
cons-Grows k op l l' g h = ground arith

recover_round-Grows :
    (k op c at d : String) (r : OperationRecord) (l : Ledger)
    (later : Ledger × Result (List String)) (x : Result Reduction)
    → Grows (get k l) (get k later.0)
    → Grows (get k ((op, claimed r c at d) ∷ l)) (get k (recover_round op r c at d l later x).0)
unfolding recover_round
recover_round-Grows k op c at d r l later (err e) g = keeps
recover_round-Grows k op c at d r l later (ok (refused _ _)) g = keeps
recover_round-Grows k op c at d r l later (ok (accepted r' _)) g =
    cons-Grows k op l later.0 gives_up g

pub recover-Grows :
    (k now : String) (l : Ledger) → Grows (get k l) (get k (recover_claimed_without_result now l).0)
unfolding recover_claimed_without_result
recover-Grows k now [] = keeps
recover-Grows k now ((op, claimed r c at d) ∷ l) =
    recover_round-Grows k op c at d r l (recover_claimed_without_result now l)
      (reduce_operation r execution_result_unknown now) (recover-Grows k now l)
recover-Grows k now ((op, e) ∷ l) =
    cons-Grows k op l (recover_claimed_without_result now l).0 keeps (recover-Grows k now l)
