-- ===== src/Execution/Recovery.antt =====
-- `recoverClaimedWithoutResult` keeps the invariant, and what it does after itself.
use agent_life.Shared.{
  ◌≡◌, refl, inl, inr, String, Bool, true, false, none, List, [], ◌∷◌, arith, Result, ok, err, ap,
  integrity_failed,
}
use agent_life.Operation.{
  executing, result_unknown, requested, concluded, OperationRecord, execution_result_unknown,
}
use agent_life.Operation.Machine.{Reduction, accepted, refused, next, reduce_operation}
use agent_life.Operation.Invariant.{reduce_operation-valid}
use agent_life.Operation.Execution.{reduce_operation-target, give_up, give_up_again}
use agent_life.Execution.{registered, claimed, result, Ledger}
use agent_life.Execution.Ledger.{recover_claimed_without_result, recover_round, also}
use agent_life.Execution.Invariant.{Sound, Inv, reduced-Bound, reduced-digest}

recovered-Sound :
    (op at c d now : String) (r : OperationRecord) {r' : OperationRecord} {changed : Bool}
    → Sound op (claimed r c at d)
    → reduce_operation r execution_result_unknown now ≡ ok (accepted r' changed)
    → Sound op (claimed r' c at d)
recovered-Sound op at c d now r (b, p, _) h = (
  reduced-Bound op r execution_result_unknown now b h,
  ground (arith, reduced-digest r execution_result_unknown now h),
  inr (reduce_operation-target r execution_result_unknown now h refl),
)

recover_round-Inv :
    (op at c d now : String) (r : OperationRecord) (l : Ledger)
    (later : Ledger × Result (List String)) (x : Result Reduction)
    → Sound op (claimed r c at d)
    → Inv l
    → Inv later.0
    → reduce_operation r execution_result_unknown now ≡ x
    → Inv (recover_round op r c at d l later x).0
unfolding recover_round
recover_round-Inv op at c d now r l later (err e) s inv inv' h = (s, inv)
recover_round-Inv op at c d now r l later (ok (refused _ _)) s inv inv' h = (s, inv)
recover_round-Inv op at c d now r l later (ok (accepted r' changed)) s inv inv' h =
    (recovered-Sound op at c d now r s h, inv')

pub recover-Inv : (now : String) (l : Ledger) → Inv l → Inv (recover_claimed_without_result now l).0
unfolding recover_claimed_without_result
recover-Inv now [] inv = tt
recover-Inv now ((op, registered _ _) ∷ l) (s, inv) = (s, recover-Inv now l inv)
recover-Inv now ((op, result _ _ _ _) ∷ l) (s, inv) = (s, recover-Inv now l inv)
recover-Inv now ((op, claimed r c at d) ∷ l) (s, inv) =
    recover_round-Inv op at c d now r l (recover_claimed_without_result now l)
      (reduce_operation r execution_result_unknown now) s inv (recover-Inv now l inv) refl

-- The operations whose entries are claimed.
abbrev pub any_claimed : Ledger → Bool
any_claimed [] = false
any_claimed ((_, claimed _ _ _ _) ∷ l) = true
any_claimed (_ ∷ l) = any_claimed l

abbrev pub claimed_ids : Ledger → List String
claimed_ids [] = []
claimed_ids ((op, claimed _ _ _ _) ∷ l) = op ∷ claimed_ids l
claimed_ids (_ ∷ l) = claimed_ids l

-- No claimed entry was given up before.
abbrev pub AllExecuting : Ledger → Type 0
AllExecuting [] = Unit
AllExecuting ((_, claimed r _ _ _) ∷ l) = (r.state ≡ requested executing) × AllExecuting l
AllExecuting (_ ∷ l) = AllExecuting l

-- A recovery over claims that all execute succeeds, and reports exactly the claimed operations.
pub recover-claimed_ids :
    (now : String) (l : Ledger)
    → Inv l
    → AllExecuting l
    → (recover_claimed_without_result now l).1 ≡ ok (claimed_ids l)
unfolding recover_claimed_without_result recover_round
recover-claimed_ids now [] inv all = refl
recover-claimed_ids now ((op, registered _ _) ∷ l) (_, inv) all = recover-claimed_ids now l inv all
recover-claimed_ids now ((op, result _ _ _ _) ∷ l) (_, inv) all = recover-claimed_ids now l inv all
recover-claimed_ids now ((op, claimed r c at d) ∷ l) ((b, _, _), inv) (e, all) =
    rw (give_up r now b.0 e, recover_claimed_without_result, recover_round)
      (ap (also op) (recover-claimed_ids now l inv all))

-- A recovery that gave an operation up leaves it claimed, so the next recovery throws.
pub recover_again :
    (now later : String) (l : Ledger) (ops : List String)
    → Inv l
    → any_claimed l ≡ true
    → (recover_claimed_without_result now l).1 ≡ ok ops
    → (recover_claimed_without_result later (recover_claimed_without_result now l).0).1
      ≡ err integrity_failed
unfolding recover_claimed_without_result recover_round
recover_again now later [] ops inv some_ h = absurd (cc)
recover_again now later ((op, registered _ _) ∷ l) ops (_, inv) some_ h =
    recover_again now later l ops inv some_ h
recover_again now later ((op, result _ _ _ _) ∷ l) ops (_, inv) some_ h =
    recover_again now later l ops inv some_ h
recover_again now later ((op, claimed r c at d) ∷ l) ops ((b, _, inr gone), inv) some_ h =
    absurd (ground (arith, give_up_again r now b.0 gone))
recover_again now later ((op, claimed r c at d) ∷ l) ops ((b, _, inl runs), inv) some_ h =
    let unknown = next r (concluded result_unknown none) r.reconciliation in
    rw (give_up r now b.0 runs, recover_claimed_without_result, recover_round)
      (rw
        (
          give_up_again unknown later
              (reduce_operation-valid r execution_result_unknown now (give_up r now b.0 runs)) refl,
          recover_claimed_without_result,
          recover_round,
        )
        refl)
