-- ===== src/ReplayLedger/Calls.antt =====
-- Runs of calls of DeterministicReplayLedger, and the claims that they put in.
use agent_life.Shared.{ℕ, String, Bool, Option, none, some, List, [], ◌∷◌, Result, ok, err}
use agent_life.Shared.Int.{ℤ}
use agent_life.ReplayLedger.{ReplaySpace, ReplayClaim, ReplayLedger}
use agent_life.ReplayLedger.Compact.{compact}
use agent_life.ReplayLedger.Preview.{Outside, Envelope}
use agent_life.ReplayLedger.Admit.{Decision, accepted, Compaction, admit}
use agent_life.ReplayLedger.Restore.{ClaimSnapshot, restore_pending}
use agent_life.ReplayLedger.Settle.{finalize, abandon}

pub data Call : Type 0 where
  admit_call : ReplaySpace → Envelope → String → String → ℤ → Compaction → Call
  restore_call : ClaimSnapshot → ℤ → Call
  finalize_call : ReplayClaim → List ℕ → Call
  abandon_call : ReplayClaim → Call
  compact_call : ReplaySpace → Option ℕ → (String → Bool) → Call

abbrev pub admitted_claim : Result Decision → Option ReplayClaim
admitted_claim (ok (accepted claim)) = some claim
admitted_claim _ = none

abbrev pub restored : Result ReplayClaim → Option ReplayClaim
restored (ok claim) = some claim
restored (err _) = none

module _ (env : Outside) where
  -- The ledger after a call, and the claim that the call put into it.
  unfoldable pub step : ReplayLedger → Call → ReplayLedger × Option ReplayClaim
  step l (admit_call space e admitted_at claim_id retained c) =
      let r = admit env l space e admitted_at claim_id retained c in (r.0, admitted_claim (r.1))
  step l (restore_call c retained) = let r = restore_pending l c retained in (r.0, restored (r.1))
  step l (finalize_call claim receipt) = ((finalize l claim receipt).0, none)
  step l (abandon_call claim) = ((abandon l claim).0, none)
  step l (compact_call space now can_remove) = ((compact l space now can_remove).0, none)

  unfoldable pub run : ReplayLedger → List Call → ReplayLedger
  run l [] = l
  run l (call ∷ calls) = run ((step l call).0) calls
