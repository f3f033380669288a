-- ===== src/ReplayLedger/Windows.antt =====
-- The window of each space follows the numbers that the ledger admitted and restored in it.
use agent_life.Shared.{
  ℕ, String, Bool, false, ◌≡◌, refl, subst, ◌∙◌, inl, inr, Option, none, some, List, [], ◌∷◌,
  str_eq, eq_iff, Bool-cases, if◌then◌else◌, arith,
}
use agent_life.Shared.Int.{ℤ, pos}
use agent_life.Shared.Dict.{get, get-set}
use agent_life.Replay.{ReplayWindowState, accept, accept_sequence}
use agent_life.Replay.Refinement.{has, admits, Tracks, Answers, accept_sequence-Answers}
use agent_life.ReplayLedger.{
  ReplaySpace, replay_space_key, ReplayClaim, LedgerRow, Capacity, ReplayLedger, window_of,
  ReplayRowStatus, pending, finalized, abandoned,
}
use agent_life.ReplayLedger.Compact.{
  Removed, compact_rows, compact_window, compact, delete_row, removable,
}
use agent_life.ReplayLedger.Admit.{store_row}
use agent_life.ReplayLedger.Settle.{
  finalize_row, finalize_receipt, settle_capacity, abandon_found, abandon_row,
}

-- The numbers that were put into a space.
unfoldable pub noted : String → List ℕ → Option ReplayClaim → List ℕ
noted key seen none = seen
noted key seen (some claim) =
    if str_eq (replay_space_key claim.space) key then claim.sequence ∷ seen else seen

-- The window stays in step, and a number put in was not seen before.
pub record Follows (key : String) (seen : List ℕ) (o : Option ReplayClaim) (l : ReplayLedger)
    : Type 0 where
  pub tracks : Tracks (noted key seen o) (window_of key l)
  pub fresh :
      (claim : ReplayClaim)
      → o ≡ some claim
      → replay_space_key claim.space ≡ key
      → has claim.sequence seen ≡ false

pub unchanged-Follows :
    (key : String) (seen : List ℕ) (l l' : ReplayLedger)
    → l'.windows ≡ l.windows
    → Tracks seen (window_of key l)
    → Follows key seen none l'
unfolding window_of noted
unchanged-Follows key seen l l' e t = record {
  tracks = rw e t;
  fresh = λ claim h. absurd (ground arith);
}

window_of-stored :
    (key place : String) (w : ReplayWindowState) (claim : ReplayClaim) (retained : ℤ)
    (l : ReplayLedger)
    → window_of key (store_row place w claim retained l)
      ≡ (if str_eq place key then w else window_of key l)
unfolding window_of store_row
window_of-stored key place w claim retained l = ground (arith, get-set place key w l.windows)

-- The number of the claim was accepted by the window of its space.
pub store_row-Follows :
    (key place : String) (seen : List ℕ) (l l' : ReplayLedger) (w : ReplayWindowState)
    (claim : ReplayClaim) (retained : ℤ)
    → replay_space_key claim.space ≡ place
    → accept_sequence (window_of place l) (pos claim.sequence) ≡ accept w
    → l'.windows ≡ l.windows
    → Tracks seen (window_of key l)
    → Follows key seen (some claim) (store_row place w claim retained l')
unfolding noted
store_row-Follows key place seen l l' w claim retained home e same t =
    elim (Bool-cases (str_eq place key)) [
      | inl here_too ↦
          let at : place ≡ key = (eq_iff place key).0 here_too in
          let answer : Answers seen claim.sequence (accept w) =
            subst (Answers seen claim.sequence)
              (subst (λ k. accept_sequence (window_of k l) (pos claim.sequence) ≡ accept w) at e)
              (accept_sequence-Answers seen (window_of key l) t claim.sequence) in
          record {
            tracks = rw (window_of-stored key place w claim retained l', home, here_too) (answer.1);
            fresh = λ other h at. unfold admits in (ground (arith, answer.0));
          }
      | inr elsewhere ↦ record {
        tracks =
            rw (window_of-stored key place w claim retained l', home, elsewhere)
              (unfold window_of in (rw same t));
        fresh = λ other h at. absurd (ground (arith, eq_iff place key));
      }
    ]

compact_rows-windows :
    (key : String) (high : ℕ) (now : Option ℕ) (can_remove : String → Bool)
    (todo : List (String × LedgerRow)) (l : ReplayLedger) (removed : Removed)
    → (compact_rows key high now can_remove todo l removed).0.windows ≡ l.windows
unfolding compact_rows
compact_rows-windows key high now can_remove [] l removed = refl
compact_rows-windows key high now can_remove ((message, row) ∷ todo) l removed =
    elim (Bool-cases (removable key high now can_remove row)) [
      | inl go ↦
          rw (go, compact_rows)
            (compact_rows-windows key high now can_remove todo (delete_row key message row l) _
              ∙ unfold delete_row in refl)
      | inr stay ↦ rw (stay, compact_rows) (compact_rows-windows key high now can_remove todo l _)
    ]

compact_window-windows :
    (key : String) (now : Option ℕ) (can_remove : String → Bool) (l : ReplayLedger)
    (w : Option ReplayWindowState)
    → (compact_window key now can_remove l w).0.windows ≡ l.windows
unfolding compact_window
compact_window-windows key now can_remove l none = refl
compact_window-windows key now can_remove l (some w) = from w.highest_seen
  where
    from :
        (top : Option ℕ)
        → (compact_window key now can_remove l (some (record w { highest_seen = top }))).0.windows
          ≡ l.windows
    from none = unfold compact_window in refl
    from (some high) =
        unfold compact_window in (compact_rows-windows key high now can_remove l.rows l _)

pub compact-windows :
    (l : ReplayLedger) (space : ReplaySpace) (now : Option ℕ) (can_remove : String → Bool)
    → (compact l space now can_remove).0.windows ≡ l.windows
unfolding compact
compact-windows l space now can_remove =
    compact_window-windows (replay_space_key space) now can_remove l
      (get (replay_space_key space) l.windows)

settle_capacity-windows :
    (key message : String) (row : LedgerRow) (receipt : List ℕ) (l : ReplayLedger)
    (c : Option Capacity)
    → (settle_capacity key message row receipt l c).windows ≡ l.windows
unfolding settle_capacity
settle_capacity-windows key message row receipt l none = refl
settle_capacity-windows key message row receipt l (some c) = refl

finalize_receipt-windows :
    (message : String) (row : LedgerRow) (receipt : List ℕ) (l : ReplayLedger)
    (prior : Option (List ℕ))
    → (finalize_receipt message row receipt l prior).0.windows ≡ l.windows
unfolding finalize_receipt
finalize_receipt-windows message row receipt l (some prior) = ground arith
finalize_receipt-windows message row receipt l none =
    let key = replay_space_key row.claim.space in
    ground (arith, settle_capacity-windows key message row receipt l (get key l.capacities))

pub finalize_row-windows :
    (receipt : List ℕ) (l : ReplayLedger) (found : Option (String × LedgerRow))
    → (finalize_row receipt l found).0.windows ≡ l.windows
unfolding finalize_row
finalize_row-windows receipt l none = refl
finalize_row-windows receipt l (some (message, row)) =
    ground (arith, finalize_receipt-windows message row receipt l row.receipt)

abandon_row-windows :
    (l : ReplayLedger) (message : String) (row : LedgerRow) (status : ReplayRowStatus)
    → (abandon_row l message row status).0.windows ≡ l.windows
unfolding abandon_row
abandon_row-windows l message row pending = refl
abandon_row-windows l message row finalized = refl
abandon_row-windows l message row abandoned = refl

pub abandon_found-windows :
    (l : ReplayLedger) (found : Option (String × LedgerRow))
    → (abandon_found l found).0.windows ≡ l.windows
unfolding abandon_found
abandon_found-windows l none = refl
abandon_found-windows l (some (message, row)) = abandon_row-windows l message row row.status
