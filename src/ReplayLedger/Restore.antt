-- ===== src/ReplayLedger/Restore.antt =====
-- `restorePending` of DeterministicReplayLedger.
use agent_life.Shared.{
  ℕ, String, not, ◌||◌, is_none, Result, ok, err, if◌then◌else◌, integrity_failed,
}
use agent_life.Shared.Int.{ℤ, pos, negsuc}
use agent_life.Shared.Dict.{get}
use agent_life.Replay.{ReplayDecision, accept, reject, accept_sequence}
use agent_life.Shared.Digests.{opaque_id}
use agent_life.ReplayLedger.{
  ReplaySpace, replay_space_key, task5_default, ReplayClaim, ReplayLedger, window_of, capacity_of,
}
use agent_life.ReplayLedger.Admit.{over_capacity, store_row}

-- A claim as `restorePending` takes it; its sequence may be negative.
pub record ClaimSnapshot : Type 0 where
  pub claim_id : String
  pub space : ReplaySpace
  pub message_type : String
  pub message_id : String
  pub sequence : ℤ
  pub envelope_digest : String
  pub expires_at : String
  pub retention_until : ℕ

abbrev pub natural : ℤ → ℕ
natural (pos n) = n
natural (negsuc _) = 0

unfoldable pub restored_claim : ℕ → ClaimSnapshot → ReplayClaim
restored_claim object c = record {
  object = object;
  claim_id = c.claim_id;
  space = c.space;
  message_type = c.message_type;
  message_id = c.message_id;
  sequence = natural c.sequence;
  envelope_digest = c.envelope_digest;
  expires_at = c.expires_at;
  retention_until = c.retention_until;
  replay_policy = task5_default;
}

unfoldable pub restore_window :
    String → ReplayClaim → ℤ → ReplayLedger → ReplayDecision → ReplayLedger × Result ReplayClaim
unfolding over_capacity
restore_window key claim retained l reject = (l, err integrity_failed)
restore_window key claim retained l (accept window) =
    if over_capacity (capacity_of key l) retained
    then (l, err integrity_failed)
    else (store_row key window claim retained l, ok claim)

unfoldable pub restore_pending :
    ReplayLedger → ClaimSnapshot → ℤ → ReplayLedger × Result ReplayClaim
unfolding restored_claim restore_window
restore_pending l c retained =
    if not (opaque_id c.claim_id)
    then (l, err integrity_failed)
    else if not (is_none (get c.message_id l.rows)) || not (is_none (get c.claim_id l.claim_ids))
    then (l, err integrity_failed)
    else let key = replay_space_key c.space in
      restore_window key (restored_claim l.objects c) retained l
        (accept_sequence (window_of key l) c.sequence)
