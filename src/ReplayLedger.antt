-- ===== src/ReplayLedger.antt =====
-- protocol/src/replay-window.ts: the rows of DeterministicReplayLedger, their spaces and policies.
-- The maps by message, by claim id and by claim hold the same row objects: the rows stand by message
-- id, and the other two maps give the message id of their row. A claim is an object, named by a
-- number. Instants are milliseconds where the code parses the text that it made itself.
pub mod Compact
pub mod Policies
pub mod Preview
pub mod Admit
pub mod Restore
pub mod Settle
mod Compaction
mod Calls
mod Windows
mod Admission
mod Readmission
mod Sums
mod Balance
mod Accounts
mod Lifecycle
mod Tests
use agent_life.Shared.{
  ℕ, suc, ◌+◌, ◌≡◌, refl, String, Bool, true, false, not, ◌&&◌, ◌||◌, ◌==◌, leb, Option, none, some,
  List, [], ◌∷◌, length, str_eq, if◌then◌else◌,
}
use agent_life.Shared.Int.{ℤ, pos}
use agent_life.Shared.Text.{append, decimal}
use agent_life.Shared.Dict.{get}
use agent_life.Replay.{ReplayWindowState, empty_window}

pub data Direction : Type 0 where
  app_to_bridge bridge_to_app adapter_to_bridge bridge_to_adapter : Direction

-- Credential id, pairing or adapter credential generation, key id and direction.
pub data ReplaySpace : Type 0 where
  device adapter : String → ℕ → String → Direction → ReplaySpace

direction_text : Direction → String
direction_text app_to_bridge = "app-to-bridge"
direction_text bridge_to_app = "bridge-to-app"
direction_text adapter_to_bridge = "adapter-to-bridge"
direction_text bridge_to_adapter = "bridge-to-adapter"

nul : String
nul = "\0"

space_parts : String → String → ℕ → String → Direction → String
unfolding nul direction_text
space_parts kind credential generation key direction = append kind (
    append nul (
      append credential (
        append nul (
          append (decimal generation)
            (append nul (append key (append nul (direction_text direction))))))))

unfoldable pub replay_space_key : ReplaySpace → String
unfolding space_parts
replay_space_key (device credential generation key direction) =
    space_parts "device" credential generation key direction
replay_space_key (adapter credential generation key direction) =
    space_parts "adapter" credential generation key direction

pub data ReplayRowStatus : Type 0 where
  pending finalized abandoned : ReplayRowStatus

pub data LockedReplayPolicy : Type 0 where
  task5_default operation_security_ledger : LockedReplayPolicy

-- TASK5_REPLAY_LIMITS and TASK5_RECEIPT_BYTE_BUDGET.
abbrev pub max_rows_per_space : ℕ
max_rows_per_space = 4096

abbrev pub max_retained_bytes_per_space : ℕ
max_retained_bytes_per_space = 67108864

abbrev pub receipt_byte_budget : ℕ
receipt_byte_budget = 16384

pub record ReplayClaim : Type 0 where
  pub object : ℕ
  pub claim_id : String
  pub space : ReplaySpace
  pub message_type : String
  pub message_id : String
  pub sequence : ℕ
  pub envelope_digest : String
  pub expires_at : String
  pub retention_until : ℕ
  pub replay_policy : LockedReplayPolicy

pub record LedgerRow : Type 0 where
  pub claim : ReplayClaim
  pub status : ReplayRowStatus
  pub receipt : Option (List ℕ)
  pub retained_bytes : ℤ

pub record Capacity : Type 0 where
  pub rows : ℤ
  pub retained_bytes : ℤ

pub record ReplayLedger : Type 0 where
  pub windows : List (String × ReplayWindowState)
  pub rows : List (String × LedgerRow)
  pub claim_ids : List (String × String)
  pub claims : List (ℕ × String)
  pub capacities : List (String × Capacity)
  pub objects : ℕ

abbrev pub empty_ledger : ReplayLedger
empty_ledger = record {
  windows = [];
  rows = [];
  claim_ids = [];
  claims = [];
  capacities = [];
  objects = 0;
}

abbrev pub window_or_empty : Option ReplayWindowState → ReplayWindowState
window_or_empty none = empty_window
window_or_empty (some w) = w

abbrev pub capacity_or_zero : Option Capacity → Capacity
capacity_or_zero none = record { rows = pos 0; retained_bytes = pos 0 }
capacity_or_zero (some c) = c

unfoldable pub window_of : String → ReplayLedger → ReplayWindowState
window_of key l = window_or_empty (get key l.windows)

-- `capacity`.
unfoldable pub capacity_of : String → ReplayLedger → Capacity
capacity_of key l = capacity_or_zero (get key l.capacities)

abbrev pub is_pending : ReplayRowStatus → Bool
is_pending pending = true
is_pending _ = false

-- Of a claim or a row of the space.
unfoldable pub in_space : String → LedgerRow → Bool
unfolding replay_space_key
in_space key row = str_eq (replay_space_key row.claim.space) key

key_sample : replay_space_key (device "c" 10 "k" app_to_bridge) ≡ "device\0c\010\0k\0app-to-bridge"
unfolding replay_space_key append decimal
key_sample = refl
