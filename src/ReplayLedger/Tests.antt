-- ===== src/ReplayLedger/Tests.antt =====
-- A ledger of two messages, and the theorems at it.
use agent_life.Shared.{ℕ, ◌≤◌, String, ◌≡◌, ◌≢◌, refl, none, some, List, [], ◌∷◌}
use agent_life.Shared.Int.{pos, negsuc, u64_max, ◌+ℤ◌, ◌-ℤ◌}
use agent_life.Shared.Text.{codes, digest, decimal_text, decimal_value, append, decimal}
use agent_life.Replay.{accept_sequence}
use agent_life.Shared.Digests.{opaque_id}
use agent_life.Shared.Dict.{get, set}
use agent_life.ReplayLedger.{
  ReplaySpace, device, app_to_bridge, replay_space_key, task5_default, pending, ReplayClaim,
  LedgerRow, empty_ledger, capacity_of, window_of,
}
use agent_life.ReplayLedger.Policies.{policy_for_message_type}
use agent_life.ReplayLedger.Preview.{Outside, Envelope, read_header, preview_claim}
use agent_life.ReplayLedger.Admit.{Compaction, admit, admit_window, admit_room, store_row}
use agent_life.ReplayLedger.Settle.{finalize, row_of}
use agent_life.ReplayLedger.Calls.{Call, step, run, admit_call, finalize_call}
use agent_life.ReplayLedger.Sums.{count, bytes}
use agent_life.ReplayLedger.Readmission.{no_readmission}
use agent_life.ReplayLedger.Accounts.{run-capacity_of}
use agent_life.ReplayLedger.Lifecycle.{Moved, row_lifecycle}

abbrev env : Outside
env = record { date_parse = λ text. some 1000; claim_digest = λ envelope message key. message }

abbrev claim_one : String
claim_one = "AAAAAAAAAAAAAAAAAAAAAAAAAAAAAAAAAAAAAAAAAAA"

abbrev claim_two : String
claim_two = "AAAAAAAAAAAAAAAAAAAAAAAAAAAAAAAAAAAAAAAAAAE"

abbrev space : ReplaySpace
space = device "credential" 1 "key" app_to_bridge

abbrev ping : String → String → Envelope
ping message sequence = record {
  message_type = "device_ping";
  envelope_digest = message;
  message_id = some message;
  sequence = some sequence;
  expires_at = some "2026-08-08T00:01:00.000Z";
  operation_expires_at = none;
}

abbrev no_options : Compaction
no_options = record { now = none; can_remove = none }

abbrev admit_ping : String → String → String → Call
admit_ping message sequence claim_id =
    admit_call space (ping message sequence) "2026-08-08T00:00:00.000Z" claim_id (pos 16384)
      no_options

abbrev claim_for : ℕ → String → ℕ → String → ReplayClaim
claim_for object message sequence claim_id = record {
  object = object;
  claim_id = claim_id;
  space = space;
  message_type = "device_ping";
  message_id = message;
  sequence = sequence;
  envelope_digest = message;
  expires_at = "2026-08-08T00:01:00.000Z";
  retention_until = 86401000;
  replay_policy = task5_default;
}

abbrev first : ReplayClaim
first = claim_for 0 "m1" 7 claim_one

abbrev second : ReplayClaim
second = claim_for 1 "m2" 9 claim_two

abbrev finalize_first : Call
finalize_first = finalize_call first (1 ∷ 2 ∷ [])

first_admitted : (step env (run env empty_ledger []) (admit_ping "m1" "7" claim_one)).1 ≡ some first
unfolding step run admit read_header decimal_text get admit_window accept_sequence u64_max
    decimal_value window_of admit_room ◌+ℤ◌ capacity_of preview_claim set replay_space_key append
    decimal finalize row_of ◌-ℤ◌ store_row opaque_id digest codes policy_for_message_type
first_admitted = refl

second_admitted :
    (step env
      (run env
        ((step env (run env empty_ledger []) (admit_ping "m1" "7" claim_one)).0)
        (finalize_first ∷ []))
      (admit_ping "m2" "9" claim_two)).1
    ≡ some second
unfolding step run admit read_header decimal_text get admit_window accept_sequence u64_max
    decimal_value window_of admit_room ◌+ℤ◌ capacity_of preview_claim set replay_space_key append
    decimal finalize row_of ◌-ℤ◌ store_row opaque_id digest codes policy_for_message_type
second_admitted = refl

no_readmission_example : second.sequence ≢ first.sequence
no_readmission_example =
    no_readmission env [] (finalize_first ∷ []) (admit_ping "m1" "7" claim_one)
      (admit_ping "m2" "9" claim_two) first_admitted second_admitted refl

abbrev calls : List Call
calls = admit_ping "m1" "7" claim_one ∷ []

run-capacity_of_example :
    (let l = run env empty_ledger calls in
      let key = replay_space_key space in
      ((capacity_of key l).rows ≡ pos (count key l.rows))
      × ((capacity_of key l).retained_bytes ≡ bytes key l.rows)
      × (count key l.rows ≤ 4096))
run-capacity_of_example = run-capacity_of env calls (replay_space_key space)

abbrev row_of_first : LedgerRow
row_of_first = record {
  claim = first;
  status = pending;
  receipt = none;
  retained_bytes = pos 16384;
}

first_row : get "m1" (run env empty_ledger calls).rows ≡ some row_of_first
unfolding step run admit read_header decimal_text get admit_window accept_sequence u64_max
    decimal_value window_of admit_room ◌+ℤ◌ capacity_of preview_claim set replay_space_key append
    decimal finalize row_of ◌-ℤ◌ store_row opaque_id digest codes policy_for_message_type
first_row = refl

row_lifecycle_example :
    Moved
      (run env empty_ledger calls)
      row_of_first
      (get "m1" ((step env (run env empty_ledger calls) finalize_first).0.rows))
row_lifecycle_example = row_lifecycle env calls finalize_first "m1" first_row

-- A row that reserved less than the receipt budget counts below zero when its receipt is stored.
unreserved_row :
    (capacity_of (replay_space_key space) (
      run env empty_ledger (
        admit_call space (ping "m1" "7") "2026-08-08T00:00:00.000Z" claim_one (pos 0) no_options
        ∷ finalize_first
        ∷ []))).retained_bytes
    ≡ negsuc 16381
unfolding step run admit read_header decimal_text get admit_window accept_sequence u64_max
    decimal_value window_of admit_room ◌+ℤ◌ capacity_of preview_claim set replay_space_key append
    decimal finalize row_of ◌-ℤ◌ store_row opaque_id digest codes policy_for_message_type
unreserved_row = refl
