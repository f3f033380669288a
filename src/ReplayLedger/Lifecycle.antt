-- ===== src/ReplayLedger/Lifecycle.antt =====
-- What a call may do to a row of the ledger.
use agent_life.Shared.{
  ℕ, ◌+◌, ◌≤◌, String, Bool, true, false, not, ◌&&◌, ◌≡◌, ◌⊎◌, refl, sym, subst, ap, ◌∙◌, inl, inr,
  Option, none, some, List, length, str_eq, eq_iff, leb, Bool-cases, arith,
}
use agent_life.Shared.Int.{ℤ}
use agent_life.Shared.Dict.{get, set, get-set, get-remove, Distinct}
use agent_life.Replay.{window_size, ReplayWindowState}
use agent_life.Execution.{equal_bytes}
use agent_life.ReplayLedger.{
  ReplaySpace, replay_space_key, ReplayRowStatus, pending, finalized, abandoned, ReplayClaim,
  LedgerRow, Capacity, ReplayLedger, empty_ledger, window_of, is_pending, in_space,
}
use agent_life.ReplayLedger.Compact.{removable, delete_row, compact}
use agent_life.ReplayLedger.Preview.{Outside}
use agent_life.ReplayLedger.Admit.{store_row}
use agent_life.ReplayLedger.Settle.{
  row_of, settle_capacity, finalize_receipt, finalize_row, finalize, abandon_row, abandon_found,
  abandon,
}
use agent_life.ReplayLedger.Calls.{
  Call, step, run, admit_call, restore_call, finalize_call, abandon_call, compact_call,
}
use agent_life.ReplayLedger.Compaction.{compact-keeps}
use agent_life.ReplayLedger.Admission.{Roomy, Outcome, admit-Outcome, restore_pending-Outcome}
use agent_life.ReplayLedger.Accounts.{row_of-get, run-Accounts, empty-Accounts}

-- A row that went: it was not pending, and its number was 1024 or more below the highest of its space.
pub record Gone (l : ReplayLedger) (row : LedgerRow) : Type 0 where
  pub settled : is_pending row.status ≡ false
  pub highest : ℕ
  pub is_highest : (window_of (replay_space_key row.claim.space) l).highest_seen ≡ some highest
  pub far_below : row.claim.sequence + window_size ≤ highest

-- The row now: the same, settled under its claim, or gone.
unfoldable pub Moved : ReplayLedger → LedgerRow → Option LedgerRow → Type 0
Moved l row none = Gone l row
Moved l row (some row') =
    (row' ≡ row)
    ⊎ ((row.status ≡ pending) × (row'.claim ≡ row.claim) × (is_pending row'.status ≡ false))

removable-Gone :
    (l : ReplayLedger) (key : String) (high : ℕ) (now : Option ℕ) (can_remove : String → Bool)
    (row : LedgerRow)
    → (window_of key l).highest_seen ≡ some high
    → removable key high now can_remove row ≡ true
    → Gone l row
unfolding removable in_space
removable-Gone l key high now can_remove row e h =
    let at : replay_space_key row.claim.space ≡ key =
      (eq_iff (replay_space_key row.claim.space) key).0 (ground arith) in
    record {
      settled = ground arith;
      highest = high;
      is_highest = ap (λ k. (window_of k l).highest_seen) at ∙ e;
      far_below = ground arith;
    }

unfoldable Stays : ReplayLedger → String → LedgerRow → ReplayLedger → Type 0
Stays l message row l' =
    (get message l'.rows ≡ some row) ⊎ ((get message l'.rows ≡ none) × Gone l row)

delete_row-Stays :
    (l l' : ReplayLedger) (key message other : String) (row gone : LedgerRow)
    → Distinct l'.rows
    → get other l'.rows ≡ some gone
    → Gone l gone
    → Stays l message row l'
    → Stays l message row (delete_row key other gone l')
unfolding Stays delete_row
delete_row-Stays l l' key message other row gone d found g (inl kept) =
    elim (Bool-cases (str_eq other message)) [
      | inl hit ↦
          let at : other ≡ message = (eq_iff other message).0 hit in
          let same : some gone ≡ some row = sym found ∙ ap (λ k. get k l'.rows) at ∙ kept in
          inr (
            get-remove other message l'.rows d ∙ rw hit refl,
            subst (Gone l) (some_injective gone row same) g,
          )
      | inr miss ↦ inl (get-remove other message l'.rows d ∙ rw miss kept)
    ]
  where
    some_injective : (x y : LedgerRow) → some x ≡ some y → x ≡ y
    some_injective x y e = ground arith
delete_row-Stays l l' key message other row gone d found g (inr (away, h)) =
    inr (ground (arith, get-remove other message l'.rows d), h)

compact-Stays :
    (l : ReplayLedger) (message : String) (row : LedgerRow) (space : ReplaySpace) (now : Option ℕ)
    (can_remove : String → Bool)
    → Distinct l.rows
    → get message l.rows ≡ some row
    → Stays l message row ((compact l space now can_remove).0)
compact-Stays l message row space now can_remove d found =
    (compact-keeps (Stays l message row) l space now can_remove
      (λ high e r other gone h d' at go.
        delete_row-Stays l r (replay_space_key space) message other row gone d' at
          (removable-Gone l (replay_space_key space) high now can_remove gone e go) h)
      d (unfold Stays in (inl found))).0

Stays-Moved :
    (l l' : ReplayLedger) (message : String) (row : LedgerRow)
    → Stays l message row l'
    → Moved l row (get message l'.rows)
unfolding Stays Moved
Stays-Moved l l' message row (inl kept) = rw kept (inl refl)
Stays-Moved l l' message row (inr (away, g)) = rw away g

Roomy-Stays :
    (l l' : ReplayLedger) (message : String) (row : LedgerRow) (space : ReplaySpace)
    → Distinct l.rows
    → get message l.rows ≡ some row
    → Roomy space l l'
    → Stays l message row l'
unfolding Roomy
Roomy-Stays l l' message row space d found (inl same) =
    unfold Stays in (inl (ap (λ r. get message r.rows) same ∙ found))
Roomy-Stays l l' message row space d found (inr (now, can_remove, e)) =
    subst (Stays l message row) (sym e) (compact-Stays l message row space now can_remove d found)

store_row-Stays :
    (l l' : ReplayLedger) (message place : String) (row : LedgerRow) (w : ReplayWindowState)
    (claim : ReplayClaim) (retained : ℤ)
    → get message l.rows ≡ some row
    → get claim.message_id l.rows ≡ none
    → Stays l message row l'
    → Stays l message row (store_row place w claim retained l')
unfolding Stays store_row
store_row-Stays l l' message place row w claim retained found free h = ground (
  arith,
  h,
  get-set claim.message_id message
      (record { claim = claim; status = pending; receipt = none; retained_bytes = retained })
      l'.rows,
  eq_iff claim.message_id message,
)

Outcome-Moved :
    (l l' : ReplayLedger) (message : String) (row : LedgerRow) (space : ReplaySpace) (retained : ℤ)
    (o : Option ReplayClaim)
    → Distinct l.rows
    → get message l.rows ≡ some row
    → Outcome l space retained l' o
    → Moved l row (get message l'.rows)
unfolding Outcome
Outcome-Moved l l' message row space retained none d found roomy =
    Stays-Moved l l' message row (Roomy-Stays l l' message row space d found roomy)
Outcome-Moved l l' message row space retained (some claim) d found s =
    Stays-Moved l l' message row (
      subst (Stays l message row) (sym s.result) (
        store_row-Stays l s.room message (replay_space_key space) row s.window claim retained found
          s.free (Roomy-Stays l s.room message row space d found s.roomy)))

some_row_injective : (x y : LedgerRow) → some x ≡ some y → x ≡ y
some_row_injective x y e = ground arith

-- A pending row is settled under its claim.
settled-Moved :
    (l : ReplayLedger) (message other : String) (row before now : LedgerRow)
    → get message l.rows ≡ some row
    → get other l.rows ≡ some before
    → before.status ≡ pending
    → now.claim ≡ before.claim
    → is_pending now.status ≡ false
    → Moved l row (get message (set other now l.rows))
unfolding Moved
settled-Moved l message other row before now found at waiting same closed =
    elim (Bool-cases (str_eq other message)) [
      | inl hit ↦
          let place : other ≡ message = (eq_iff other message).0 hit in
          let is_row : before ≡ row =
            some_row_injective before row (sym at ∙ ap (λ k. get k l.rows) place ∙ found) in
          let read : get message (set other now l.rows) ≡ some now =
            get-set other message now l.rows ∙ rw hit refl in
          subst (Moved l row) (sym read) (
            unfold Moved in
            (inr (
              sym (ap LedgerRow.status is_row) ∙ waiting,
              same ∙ ap LedgerRow.claim is_row,
              closed,
            )))
      | inr miss ↦
          let read : get message (set other now l.rows) ≡ some row =
            get-set other message now l.rows ∙ rw miss found in
          subst (Moved l row) (sym read) (unfold Moved in (inl refl))
    ]

kept-Moved :
    (l : ReplayLedger) (message : String) (row : LedgerRow)
    → get message l.rows ≡ some row
    → Moved l row (get message l.rows)
unfolding Moved
kept-Moved l message row found = rw found (inl refl)

settle_capacity-Moved :
    (l : ReplayLedger) (message key other : String) (row before : LedgerRow) (receipt : List ℕ)
    (c : Option Capacity)
    → get message l.rows ≡ some row
    → get other l.rows ≡ some before
    → before.status ≡ pending
    → Moved l row (get message (settle_capacity key other before receipt l c).rows)
unfolding settle_capacity
settle_capacity-Moved l message key other row before receipt none found at waiting =
    settled-Moved l message other row before _ found at waiting refl refl
settle_capacity-Moved l message key other row before receipt (some c) found at waiting =
    settled-Moved l message other row before _ found at waiting refl refl

pending_status : (s : ReplayRowStatus) → is_pending s ≡ true → s ≡ pending
pending_status pending h = refl
pending_status finalized h = absurd (ground arith)
pending_status abandoned h = absurd (ground arith)

finalize_receipt-Moved :
    (l : ReplayLedger) (message other : String) (row before : LedgerRow) (receipt : List ℕ)
    (prior : Option (List ℕ))
    → get message l.rows ≡ some row
    → get other l.rows ≡ some before
    → Moved l row (get message ((finalize_receipt other before receipt l prior).0.rows))
unfolding finalize_receipt
finalize_receipt-Moved l message other row before receipt (some prior) found at =
    elim (Bool-cases (equal_bytes prior receipt)) [
      | inl eq ↦ rw (eq, finalize_receipt) (kept-Moved l message row found)
      | inr ne ↦ rw (ne, finalize_receipt) (kept-Moved l message row found)
    ]
finalize_receipt-Moved l message other row before receipt none found at =
    elim (Bool-cases (is_pending before.status)) [
      | inl waiting ↦
          rw (waiting, finalize_receipt)
            (settle_capacity-Moved l message _ other row before receipt _ found at
              (pending_status before.status waiting))
      | inr closed ↦ rw (closed, finalize_receipt) (kept-Moved l message row found)
    ]

finalize_row-Moved :
    (l : ReplayLedger) (message : String) (row : LedgerRow) (receipt : List ℕ)
    (o : Option (String × LedgerRow))
    → ((other : String) (before : LedgerRow)
        → o ≡ some (other, before)
        → get other l.rows ≡ some before)
    → get message l.rows ≡ some row
    → Moved l row (get message ((finalize_row receipt l o).0.rows))
unfolding finalize_row
finalize_row-Moved l message row receipt none at found = kept-Moved l message row found
finalize_row-Moved l message row receipt (some (other, before)) at found =
    elim (Bool-cases (not (leb 1 (length receipt) && leb (length receipt) 16384))) [
      | inl bad ↦ rw (bad, finalize_row) (kept-Moved l message row found)
      | inr fine ↦
          rw (fine, finalize_row)
            (finalize_receipt-Moved l message other row before receipt before.receipt found
              (at other before refl))
    ]

abandon_row-Moved :
    (l : ReplayLedger) (message other : String) (row before : LedgerRow) (status : ReplayRowStatus)
    → before.status ≡ status
    → get message l.rows ≡ some row
    → get other l.rows ≡ some before
    → Moved l row (get message ((abandon_row l other before status).0.rows))
unfolding abandon_row
abandon_row-Moved l message other row before pending e found at =
    settled-Moved l message other row before _ found at e refl refl
abandon_row-Moved l message other row before finalized e found at = kept-Moved l message row found
abandon_row-Moved l message other row before abandoned e found at = kept-Moved l message row found

abandon_found-Moved :
    (l : ReplayLedger) (message : String) (row : LedgerRow) (o : Option (String × LedgerRow))
    → ((other : String) (before : LedgerRow)
        → o ≡ some (other, before)
        → get other l.rows ≡ some before)
    → get message l.rows ≡ some row
    → Moved l row (get message ((abandon_found l o).0.rows))
unfolding abandon_found
abandon_found-Moved l message row none at found = kept-Moved l message row found
abandon_found-Moved l message row (some (other, before)) at found =
    abandon_row-Moved l message other row before before.status refl found (at other before refl)

module _ (env : Outside) where
  step-Moved :
      (l : ReplayLedger) (call : Call) (message : String) (row : LedgerRow)
      → Distinct l.rows
      → get message l.rows ≡ some row
      → Moved l row (get message ((step env l call).0.rows))
  unfolding step
  step-Moved l (admit_call space e admitted_at claim_id retained c) message row d found =
      Outcome-Moved l _ message row space retained _ d found
        (admit-Outcome env l space e admitted_at claim_id retained c)
  step-Moved l (restore_call c retained) message row d found =
      Outcome-Moved l _ message row c.space retained _ d found
        (restore_pending-Outcome env l c retained)
  step-Moved l (finalize_call claim receipt) message row d found =
      unfold finalize in
      (finalize_row-Moved l message row receipt (row_of l claim) (row_of-get l claim) found)
  step-Moved l (abandon_call claim) message row d found =
      unfold abandon in
      (abandon_found-Moved l message row (row_of l claim) (row_of-get l claim) found)
  step-Moved l (compact_call space now can_remove) message row d found =
      Stays-Moved l _ message row (compact-Stays l message row space now can_remove d found)

  -- In every ledger that calls lead to from the empty one, a further call leaves each row as it is,
  -- or settles a pending row under its own claim, or removes a row that is not pending and whose
  -- number is 1024 or more below the highest of its space.
  pub row_lifecycle :
      (calls : List Call) (call : Call) (message : String) {row : LedgerRow}
      → get message (run env empty_ledger calls).rows ≡ some row
      → Moved
          (run env empty_ledger calls)
          row
          (get message ((step env (run env empty_ledger calls) call).0.rows))
  row_lifecycle calls call message {row} found =
      step-Moved (run env empty_ledger calls) call message row
        ((run-Accounts env empty_ledger calls (empty-Accounts env)).distinct) found
