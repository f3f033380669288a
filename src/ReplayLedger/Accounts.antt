-- ===== src/ReplayLedger/Accounts.antt =====
-- In every ledger that calls lead to, the counters of a space are the number and bytes of its rows.
use agent_life.Shared.{
  ℕ, String, Bool, true, false, not, ◌&&◌, ◌≡◌, ◌≤◌, refl, sym, subst, ap, ◌∙◌, inl, inr, Option,
  none, some, List, [], ◌∷◌, length, leb, Bool-cases, arith,
}
use agent_life.Shared.Int.{ℤ, pos, exceeds, ◌+ℤ◌}
use agent_life.Shared.Dict.{get, set, get-remove, Distinct, Distinct-set}
use agent_life.Replay.{ReplayWindowState}
use agent_life.Fence.{find}
use agent_life.Execution.{equal_bytes}
use agent_life.ReplayLedger.{
  ReplaySpace, replay_space_key, ReplayRowStatus, pending, finalized, abandoned, ReplayClaim,
  LedgerRow, Capacity, ReplayLedger, empty_ledger, capacity_or_zero, capacity_of, is_pending,
  in_space,
}
use agent_life.ReplayLedger.Compact.{removable, delete_row, compact}
use agent_life.ReplayLedger.Preview.{Outside}
use agent_life.ReplayLedger.Admit.{over_capacity, store_row}
use agent_life.ReplayLedger.Settle.{
  row_with, row_at, row_of, settle_capacity, finalize_receipt, finalize_row, finalize, abandon_row,
  abandon_found, abandon,
}
use agent_life.ReplayLedger.Calls.{
  Call, step, run, admit_call, restore_call, finalize_call, abandon_call, compact_call,
}
use agent_life.ReplayLedger.Compaction.{compact-keeps}
use agent_life.ReplayLedger.Admission.{Roomy, Outcome, admit-Outcome, restore_pending-Outcome}
use agent_life.ReplayLedger.Sums.{count, bytes}
use agent_life.ReplayLedger.Balance.{
  Balanced, Balanced-totals, new_row-Balanced, deleted-Balanced, kept_row-Balanced,
  settled-Balanced,
}

unfoldable pub AllBalanced : ReplayLedger → Type 0
AllBalanced l = (key : String) → Balanced key l.rows (get key l.capacities)

pub record Accounts (l : ReplayLedger) : Type 0 where
  pub distinct : Distinct l.rows
  pub balanced : AllBalanced l

removable-in_space :
    (key : String) (high : ℕ) (now : Option ℕ) (can_remove : String → Bool) (row : LedgerRow)
    → removable key high now can_remove row ≡ true
    → in_space key row ≡ true
unfolding removable
removable-in_space key high now can_remove row h = ground arith

delete_row-AllBalanced :
    (place message : String) (row : LedgerRow) (l : ReplayLedger)
    → get message l.rows ≡ some row
    → in_space place row ≡ true
    → AllBalanced l
    → AllBalanced (delete_row place message row l)
unfolding AllBalanced delete_row
delete_row-AllBalanced place message row l found inside h key =
    deleted-Balanced key place message row l.rows l.capacities (get place l.capacities) found inside
      refl (h key)

compact-Accounts :
    (l : ReplayLedger) (space : ReplaySpace) (now : Option ℕ) (can_remove : String → Bool)
    → Accounts l
    → Accounts ((compact l space now can_remove).0)
compact-Accounts l space now can_remove a =
    let kept =
      compact-keeps AllBalanced l space now can_remove
        (λ high _ l message row h d found go.
          delete_row-AllBalanced (replay_space_key space) message row l found
            (removable-in_space (replay_space_key space) high now can_remove row go) h)
        a.distinct a.balanced in
    record { distinct = kept.1; balanced = kept.0 }

over-exceeds :
    (c : Capacity) (retained : ℤ)
    → over_capacity c retained ≡ false
    → exceeds (c.rows +ℤ pos 1) 4096 ≡ false
unfolding over_capacity
over-exceeds c retained h = ground arith

capacity_of-get :
    (key : String) (l : ReplayLedger) → capacity_of key l ≡ capacity_or_zero (get key l.capacities)
unfolding capacity_of
capacity_of-get key l = refl

store_row-Accounts :
    (place : String) (window : ReplayWindowState) (claim : ReplayClaim) (retained : ℤ)
    (l : ReplayLedger)
    → replay_space_key claim.space ≡ place
    → get claim.message_id l.rows ≡ none
    → over_capacity (capacity_of place l) retained ≡ false
    → Accounts l
    → Accounts (store_row place window claim retained l)
unfolding store_row capacity_of AllBalanced
store_row-Accounts place window claim retained l home free fits a = record {
  distinct = Distinct-set claim.message_id _ l.rows a.distinct;
  balanced = λ key.
      new_row-Balanced key place claim.message_id
        (record { claim = claim; status = pending; receipt = none; retained_bytes = retained })
        l.rows l.capacities home free
        (over-exceeds (capacity_or_zero (get place l.capacities)) retained fits)
        (unfold AllBalanced in (a.balanced key));
}

delete_row-none :
    (message key other : String) (row : LedgerRow) (l : ReplayLedger)
    → Distinct l.rows
    → get message l.rows ≡ none
    → get message (delete_row key other row l).rows ≡ none
unfolding delete_row
delete_row-none message key other row l d h = ground (arith, get-remove other message l.rows d)

Roomy-Accounts :
    (space : ReplaySpace) (message : String) (l l' : ReplayLedger)
    → Roomy space l l'
    → get message l.rows ≡ none
    → Accounts l
    → Accounts l' × (get message l'.rows ≡ none)
unfolding Roomy
Roomy-Accounts space message l l' (inl same) free a =
    (subst Accounts (sym same) a, ap (λ r. get message r.rows) same ∙ free)
Roomy-Accounts space message l l' (inr (now, can_remove, e)) free a = (
  subst Accounts (sym e) (compact-Accounts l space now can_remove a),
  ap (λ r. get message r.rows) e
      ∙ (compact-keeps (λ r. get message r.rows ≡ none) l space now can_remove
          (λ high _ r other row h d found go.
            delete_row-none message (replay_space_key space) other row r d h)
          a.distinct free).0,
)

Roomy-only :
    (space : ReplaySpace) (l l' : ReplayLedger) → Roomy space l l' → Accounts l → Accounts l'
unfolding Roomy
Roomy-only space l l' (inl same) a = subst Accounts (sym same) a
Roomy-only space l l' (inr (now, can_remove, e)) a =
    subst Accounts (sym e) (compact-Accounts l space now can_remove a)

Outcome-Accounts :
    (l l' : ReplayLedger) (space : ReplaySpace) (retained : ℤ) (o : Option ReplayClaim)
    → Outcome l space retained l' o
    → Accounts l
    → Accounts l'
unfolding Outcome
Outcome-Accounts l l' space retained none roomy a = Roomy-only space l l' roomy a
Outcome-Accounts l l' space retained (some claim) s a =
    let (a', free) = Roomy-Accounts space claim.message_id l s.room s.roomy s.free a in
    subst Accounts (sym s.result) (
      store_row-Accounts (replay_space_key space) s.window claim retained s.room
        (ap replay_space_key s.home) free s.fits a')

row_with-get :
    (rows : List (String × LedgerRow)) (message : String) (o : Option LedgerRow) {m : String}
    {row : LedgerRow}
    → get message rows ≡ o
    → row_with message o ≡ some (m, row)
    → get m rows ≡ some row
row_with-get rows message none e h = absurd (ground arith)
row_with-get rows message (some other) {m} {row} e h =
    ap (λ k. get k rows) (sym same_key) ∙ e ∙ same_row
  where
    same_key : message ≡ m
    same_key = ground arith

    same_row : some other ≡ some row
    same_row = ground arith

row_at-get :
    (rows : List (String × LedgerRow)) (o : Option String) {m : String} {row : LedgerRow}
    → row_at rows o ≡ some (m, row)
    → get m rows ≡ some row
row_at-get rows none h = absurd (ground arith)
row_at-get rows (some message) h = row_with-get rows message (get message rows) refl h

-- A row is replaced by one of the same claim with the same bytes.
kept_row-Accounts :
    (message : String) (row row' : LedgerRow) (l : ReplayLedger)
    → get message l.rows ≡ some row
    → row'.claim ≡ row.claim
    → row'.retained_bytes ≡ row.retained_bytes
    → Accounts l
    → Accounts (record l { rows = set message row' l.rows })
unfolding AllBalanced
kept_row-Accounts message row row' l found same bytes_same a = record {
  distinct = Distinct-set message row' l.rows a.distinct;
  balanced = λ key.
      kept_row-Balanced key message row row' l.rows (get key l.capacities) found same bytes_same
        (unfold AllBalanced in (a.balanced key));
}

settle_capacity-Accounts :
    (message : String) (row : LedgerRow) (receipt : List ℕ) (l : ReplayLedger) (o : Option Capacity)
    → get message l.rows ≡ some row
    → get (replay_space_key row.claim.space) l.capacities ≡ o
    → Accounts l
    → Accounts (settle_capacity (replay_space_key row.claim.space) message row receipt l o)
unfolding settle_capacity AllBalanced
settle_capacity-Accounts message row receipt l none found e a =
    kept_row-Accounts message row _ l found refl refl a
settle_capacity-Accounts message row receipt l (some c) found e a = record {
  distinct = Distinct-set message _ l.rows a.distinct;
  balanced = λ key.
      settled-Balanced key (replay_space_key row.claim.space) message row _ l.rows l.capacities c
        (length receipt) found refl refl refl e (unfold AllBalanced in (a.balanced key));
}

finalize_receipt-Accounts :
    (message : String) (row : LedgerRow) (receipt : List ℕ) (l : ReplayLedger)
    (prior : Option (List ℕ))
    → get message l.rows ≡ some row
    → Accounts l
    → Accounts ((finalize_receipt message row receipt l prior).0)
unfolding finalize_receipt
finalize_receipt-Accounts message row receipt l (some prior) found a =
    elim (Bool-cases (equal_bytes prior receipt)) [
      | inl eq ↦ rw (eq, finalize_receipt) a
      | inr ne ↦ rw (ne, finalize_receipt) a
    ]
finalize_receipt-Accounts message row receipt l none found a =
    elim (Bool-cases (is_pending row.status)) [
      | inl unsettled ↦
          rw (unsettled, finalize_receipt)
            (settle_capacity-Accounts message row receipt l _ found refl a)
      | inr closed ↦ rw (closed, finalize_receipt) a
    ]

finalize_row-Accounts :
    (receipt : List ℕ) (l : ReplayLedger) (o : Option (String × LedgerRow))
    → ((message : String) (row : LedgerRow)
        → o ≡ some (message, row)
        → get message l.rows ≡ some row)
    → Accounts l
    → Accounts ((finalize_row receipt l o).0)
unfolding finalize_row
finalize_row-Accounts receipt l none found a = a
finalize_row-Accounts receipt l (some (message, row)) found a =
    elim (Bool-cases (not (leb 1 (length receipt) && leb (length receipt) 16384))) [
      | inl bad ↦ rw (bad, finalize_row) a
      | inr fine ↦
          rw (fine, finalize_row)
            (finalize_receipt-Accounts message row receipt l row.receipt (found message row refl) a)
    ]

abandon_row-Accounts :
    (l : ReplayLedger) (message : String) (row : LedgerRow) (status : ReplayRowStatus)
    → get message l.rows ≡ some row
    → Accounts l
    → Accounts ((abandon_row l message row status).0)
unfolding abandon_row
abandon_row-Accounts l message row pending found a =
    kept_row-Accounts message row _ l found refl refl a
abandon_row-Accounts l message row finalized found a = a
abandon_row-Accounts l message row abandoned found a = a

abandon_found-Accounts :
    (l : ReplayLedger) (o : Option (String × LedgerRow))
    → ((message : String) (row : LedgerRow)
        → o ≡ some (message, row)
        → get message l.rows ≡ some row)
    → Accounts l
    → Accounts ((abandon_found l o).0)
unfolding abandon_found
abandon_found-Accounts l none found a = a
abandon_found-Accounts l (some (message, row)) found a =
    abandon_row-Accounts l message row row.status (found message row refl) a

pub row_of-get :
    (l : ReplayLedger) (claim : ReplayClaim) (message : String) (row : LedgerRow)
    → row_of l claim ≡ some (message, row)
    → get message l.rows ≡ some row
unfolding row_of
row_of-get l claim message row h = row_at-get l.rows (find claim.object l.claims) h

module _ (env : Outside) where
  pub step-Accounts : (l : ReplayLedger) (call : Call) → Accounts l → Accounts ((step env l call).0)
  unfolding step
  step-Accounts l (admit_call space e admitted_at claim_id retained c) a =
      Outcome-Accounts l _ space retained _
        (admit-Outcome env l space e admitted_at claim_id retained c) a
  step-Accounts l (restore_call c retained) a =
      Outcome-Accounts l _ c.space retained _ (restore_pending-Outcome env l c retained) a
  step-Accounts l (finalize_call claim receipt) a =
      unfold finalize in (finalize_row-Accounts receipt l (row_of l claim) (row_of-get l claim) a)
  step-Accounts l (abandon_call claim) a =
      unfold abandon in (abandon_found-Accounts l (row_of l claim) (row_of-get l claim) a)
  step-Accounts l (compact_call space now can_remove) a = compact-Accounts l space now can_remove a

  pub run-Accounts :
      (l : ReplayLedger) (calls : List Call) → Accounts l → Accounts (run env l calls)
  unfolding run
  run-Accounts l [] a = a
  run-Accounts l (call ∷ calls) a =
      run-Accounts ((step env l call).0) calls (step-Accounts l call a)

  pub empty-Accounts : Accounts empty_ledger
  unfolding AllBalanced Balanced get count bytes
  empty-Accounts = record { distinct = tt; balanced = λ key. (refl, refl) }

  -- After any calls on the empty ledger, the two counters of every space are the number of its rows
  -- and the sum of their retained bytes, and no space has more than 4096 rows.
  pub run-capacity_of :
      (calls : List Call) (key : String)
      → (let l = run env empty_ledger calls in
          ((capacity_of key l).rows ≡ pos (count key l.rows))
          × ((capacity_of key l).retained_bytes ≡ bytes key l.rows)
          × (count key l.rows ≤ 4096))
  unfolding capacity_of
  run-capacity_of calls key =
      let l = run env empty_ledger calls in
      let a = run-Accounts empty_ledger calls empty-Accounts in
      Balanced-totals key l.rows (get key l.capacities) (unfold AllBalanced in (a.balanced key))
