-- ===== src/ReplayLedger/Compact.antt =====
-- `compact` of DeterministicReplayLedger. A `Date` may be invalid: `none`.
use agent_life.Shared.{
  ℕ, suc, ◌+◌, String, Bool, false, not, ◌&&◌, leb, ltb, ◌==◌, Option, none, some, List, [], ◌∷◌,
  if◌then◌else◌,
}
use agent_life.Shared.Int.{ℤ, pos, ◌+ℤ◌, ◌-ℤ◌}
use agent_life.Shared.Dict.{get, set, remove}
use agent_life.Replay.{window_size, ReplayWindowState}
use agent_life.ReplayLedger.{
  ReplaySpace, replay_space_key, LedgerRow, Capacity, ReplayLedger, is_pending, in_space,
}

pub record Removed : Type 0 where
  pub rows : ℕ
  pub retained_bytes : ℤ

abbrev pub nothing_removed : Removed
nothing_removed = record { rows = 0; retained_bytes = pos 0 }

-- `Date.parse(instant) > now.getTime()`, which is false for an invalid date.
abbrev pub later : ℕ → Option ℕ → Bool
later instant none = false
later instant (some now) = ltb now instant

unfoldable pub removable : String → ℕ → Option ℕ → (String → Bool) → LedgerRow → Bool
removable key high now can_remove row =
    in_space key row
    && not (is_pending row.status)
    && leb (row.claim.sequence + window_size) high
    && not (later row.claim.retention_until now)
    && can_remove row.claim.claim_id

-- `WeakMap.delete`.
unfoldable pub forget : ℕ → List (ℕ × String) → List (ℕ × String)
forget object [] = []
forget object ((o, m) ∷ claims) =
    if o == object then forget object claims else (o, m) ∷ forget object claims

unfoldable pub lower :
    String → ℤ → List (String × Capacity) → Option Capacity → List (String × Capacity)
lower key bytes capacities none = capacities
lower key bytes capacities (some c) =
    set key (record { rows = c.rows -ℤ pos 1; retained_bytes = c.retained_bytes -ℤ bytes })
      capacities

unfoldable pub delete_row : String → String → LedgerRow → ReplayLedger → ReplayLedger
unfolding forget lower
delete_row key message row l = record l {
  rows = remove message l.rows;
  claim_ids = remove row.claim.claim_id l.claim_ids;
  claims = forget row.claim.object l.claims;
  capacities = lower key row.retained_bytes l.capacities (get key l.capacities);
}

-- The loop over the rows, of which it deletes no other than the one it looks at.
unfoldable pub compact_rows :
    String
    → ℕ
    → Option ℕ
    → (String → Bool)
    → List (String × LedgerRow)
    → ReplayLedger
    → Removed
    → ReplayLedger × Removed
unfolding removable delete_row
compact_rows key high now can_remove [] l removed = (l, removed)
compact_rows key high now can_remove ((message, row) ∷ rows) l removed =
    let go = removable key high now can_remove row in
    compact_rows key high now can_remove rows (if go then delete_row key message row l else l) (
      if go
      then record {
        rows = suc removed.rows;
        retained_bytes = removed.retained_bytes +ℤ row.retained_bytes;
      }
      else removed)

unfoldable pub compact_window :
    String
    → Option ℕ
    → (String → Bool)
    → ReplayLedger
    → Option ReplayWindowState
    → ReplayLedger × Removed
unfolding compact_rows
compact_window key now can_remove l none = (l, nothing_removed)
compact_window key now can_remove l (some w) = from w.highest_seen
  where
    from : Option ℕ → ReplayLedger × Removed
    from none = (l, nothing_removed)
    from (some high) = compact_rows key high now can_remove l.rows l nothing_removed

unfoldable pub compact :
    ReplayLedger → ReplaySpace → Option ℕ → (String → Bool) → ReplayLedger × Removed
unfolding compact_window
compact l space now can_remove =
    let key = replay_space_key space in compact_window key now can_remove l (get key l.windows)
