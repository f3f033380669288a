-- ===== src/ReplayLedger/Settle.antt =====
-- `finalize`, `abandon` and the reads of DeterministicReplayLedger. A claim is looked up as an object.
use agent_life.Shared.{
  ℕ, String, Bool, not, ◌&&◌, leb, Option, none, some, List, length, is_none, if◌then◌else◌,
}
use agent_life.Shared.Int.{ℤ, pos, ◌+ℤ◌, ◌-ℤ◌}
use agent_life.Shared.Dict.{get, set}
use agent_life.Fence.{find}
use agent_life.Execution.{equal_bytes}
use agent_life.ReplayLedger.{
  replay_space_key, ReplayRowStatus, pending, finalized, abandoned, ReplayClaim, LedgerRow,
  Capacity, ReplayLedger, receipt_byte_budget, is_pending,
}

pub data Finalized : Type 0 where
  stored same not_finalized : Finalized

pub data Abandoned : Type 0 where
  now_abandoned abandoned_before not_abandoned : Abandoned

abbrev pub row_with : String → Option LedgerRow → Option (String × LedgerRow)
row_with message none = none
row_with message (some row) = some (message, row)

abbrev pub row_at : List (String × LedgerRow) → Option String → Option (String × LedgerRow)
row_at rows none = none
row_at rows (some message) = row_with message (get message rows)

-- `#byClaim.get(claim)`, with the message id by which the row stands.
unfoldable pub row_of : ReplayLedger → ReplayClaim → Option (String × LedgerRow)
unfolding find
row_of l claim = row_at l.rows (find claim.object l.claims)

-- What a receipt of so many bytes leaves of the reservation.
abbrev pub settled_bytes : ℤ → ℕ → ℤ
settled_bytes retained bytes = (retained -ℤ pos receipt_byte_budget) +ℤ pos bytes

unfoldable pub settle_capacity :
    String → String → LedgerRow → List ℕ → ReplayLedger → Option Capacity → ReplayLedger
settle_capacity key message row receipt l none = record l {
  rows = set message (record row { status = finalized; receipt = some receipt }) l.rows;
}
settle_capacity key message row receipt l (some c) = record l {
  capacities =
      set key (record c { retained_bytes = settled_bytes c.retained_bytes (length receipt) })
        l.capacities;
  rows =
      set message
        (record row {
          status = finalized;
          receipt = some receipt;
          retained_bytes = settled_bytes row.retained_bytes (length receipt);
        })
        l.rows;
}

unfoldable pub finalize_receipt :
    String → LedgerRow → List ℕ → ReplayLedger → Option (List ℕ) → ReplayLedger × Finalized
unfolding settle_capacity
finalize_receipt message row receipt l (some prior) =
    if equal_bytes prior receipt then (l, same) else (l, not_finalized)
finalize_receipt message row receipt l none =
    if is_pending row.status
    then (let key = replay_space_key row.claim.space in
        (settle_capacity key message row receipt l (get key l.capacities), stored))
    else (l, not_finalized)

unfoldable pub finalize_row :
    List ℕ → ReplayLedger → Option (String × LedgerRow) → ReplayLedger × Finalized
unfolding finalize_receipt
finalize_row receipt l none = (l, not_finalized)
finalize_row receipt l (some (message, row)) =
    if not (leb 1 (length receipt) && leb (length receipt) receipt_byte_budget)
    then (l, not_finalized)
    else finalize_receipt message row receipt l row.receipt

unfoldable pub finalize : ReplayLedger → ReplayClaim → List ℕ → ReplayLedger × Finalized
unfolding finalize_row row_of
finalize l claim receipt = finalize_row receipt l (row_of l claim)

unfoldable pub abandon_row :
    ReplayLedger → String → LedgerRow → ReplayRowStatus → ReplayLedger × Abandoned
abandon_row l message row abandoned = (l, abandoned_before)
abandon_row l message row finalized = (l, not_abandoned)
abandon_row l message row pending =
    (record l { rows = set message (record row { status = abandoned }) l.rows }, now_abandoned)

unfoldable pub abandon_found : ReplayLedger → Option (String × LedgerRow) → ReplayLedger × Abandoned
unfolding abandon_row
abandon_found l none = (l, not_abandoned)
abandon_found l (some (message, row)) = abandon_row l message row row.status

unfoldable pub abandon : ReplayLedger → ReplayClaim → ReplayLedger × Abandoned
unfolding abandon_found row_of
abandon l claim = abandon_found l (row_of l claim)

pub owns : ReplayLedger → ReplayClaim → Bool
unfolding find
owns l claim = not (is_none (find claim.object l.claims))

abbrev claim_of : Option LedgerRow → Option ReplayClaim
claim_of none = none
claim_of (some row) = some row.claim

pub find_claim : ReplayLedger → String → Option ReplayClaim
find_claim l message_id = claim_of (get message_id l.rows)
