-- ===== src/ReplayLedger/Preview.antt =====
-- `previewClaim` of DeterministicReplayLedger, over what the code takes from outside.
use agent_life.Shared.{
  ℕ, ◌+◌, String, leb, ltb, Option, none, some, ◌≡◌, subst, arith, Result, ok, err, ◌>>=◌,
  if◌then◌else◌, invalid_time,
}
use agent_life.Shared.Text.{codes, decimal_text, decimal_value}
use agent_life.Shared.Instant.{timestamp_ms}
use agent_life.ReplayLedger.{
  ReplaySpace, replay_space_key, LockedReplayPolicy, task5_default, operation_security_ledger,
  ReplayClaim,
}
use agent_life.ReplayLedger.Policies.{policy_for_message_type}

-- What the ledger reads of a verified envelope; `none` is a value that is no text.
pub record Envelope : Type 0 where
  pub message_type : String
  pub envelope_digest : String
  pub message_id : Option String
  pub sequence : Option String
  pub expires_at : Option String
  pub operation_expires_at : Option String

pub record Header : Type 0 where
  pub message_id : String
  pub sequence : ℕ
  pub expires_at : String

unfoldable pub header_of : Option String → Option String → Option String → Option Header
header_of (some message) (some sequence) (some expires) =
    if decimal_text sequence
    then some record {
      message_id = message;
      sequence = decimal_value 0 (codes sequence);
      expires_at = expires;
    }
    else none
header_of _ _ _ = none

unfoldable pub read_header : Envelope → Option Header
unfolding header_of
read_header e = header_of e.message_id e.sequence e.expires_at

-- The code outside: `Date.parse` of any text, and the digest of a claim id by
-- envelope digest, message id and space key.
pub record Outside : Type 0 where
  pub date_parse : String → Option ℕ
  pub claim_digest : String → String → String → String

module _ (env : Outside) where
  -- `Math.max` and `toISOString`: an invalid date throws a RangeError.
  unfoldable pub later_of : Option ℕ → Option ℕ → Result ℕ
  later_of (some expires) (some admitted) =
      let kept = admitted + 86400000 in
      let base = if ltb expires kept then kept else expires in
      if leb base 17280000000000000 then ok base else err invalid_time
  later_of _ _ = err invalid_time

  unfoldable pub operation_expiry : Option String → Option ℕ
  operation_expiry none = none
  operation_expiry (some text) = timestamp_ms text

  -- The retention of a claim; `none` if the operation's expiry is no timestamp.
  unfoldable pub retention : LockedReplayPolicy → Envelope → Header → String → Result (Option ℕ)
  unfolding later_of operation_expiry
  retention operation_security_ledger e h admitted_at = ok (operation_expiry e.operation_expires_at)
  retention task5_default e h admitted_at = do
    base ← later_of (env.date_parse h.expires_at) (env.date_parse admitted_at)
    ok (some base)

  unfoldable pub preview_by :
      ReplaySpace → Envelope → Header → LockedReplayPolicy → Option ℕ → Option ReplayClaim
  preview_by space e h policy none = none
  preview_by space e h policy (some retention_until) = some record {
    object = 0;
    claim_id = env.claim_digest e.envelope_digest h.message_id (replay_space_key space);
    space = space;
    message_type = e.message_type;
    message_id = h.message_id;
    sequence = h.sequence;
    envelope_digest = e.envelope_digest;
    expires_at = h.expires_at;
    retention_until = retention_until;
    replay_policy = policy;
  }

  unfoldable pub preview_policy :
      ReplaySpace
      → Envelope
      → Header
      → String
      → Option LockedReplayPolicy
      → Result (Option ReplayClaim)
  unfolding retention preview_by
  preview_policy space e h admitted_at none = ok none
  preview_policy space e h admitted_at (some policy) = do
    until ← retention policy e h admitted_at
    ok (preview_by space e h policy until)

  unfoldable pub preview_header :
      ReplaySpace → Envelope → String → Option Header → Result (Option ReplayClaim)
  unfolding preview_policy
  preview_header space e admitted_at none = ok none
  preview_header space e admitted_at (some h) =
      preview_policy space e h admitted_at (policy_for_message_type e.message_type)

  -- The object of the claim is made by its caller.
  unfoldable pub preview_claim : ReplaySpace → Envelope → String → Result (Option ReplayClaim)
  unfolding preview_header
  preview_claim space e admitted_at = preview_header space e admitted_at (read_header e)

  -- A claim takes its space, message id and sequence number from its message.
  pub record PreviewOf (space : ReplaySpace) (h : Header) (claim : ReplayClaim) : Type 0 where
    pub same_space : claim.space ≡ space
    pub same_message : claim.message_id ≡ h.message_id
    pub same_sequence : claim.sequence ≡ h.sequence

  preview_by-PreviewOf :
      (space : ReplaySpace) (e : Envelope) (h : Header) (policy : LockedReplayPolicy)
      (until : Option ℕ) {claim : ReplayClaim}
      → preview_by space e h policy until ≡ some claim
      → PreviewOf space h claim
  unfolding preview_by
  preview_by-PreviewOf space e h policy none r = absurd (ground arith)
  preview_by-PreviewOf space e h policy (some until) r = record {
    same_space = ground arith;
    same_message = ground arith;
    same_sequence = ground arith;
  }

  preview_retained :
      (space : ReplaySpace) (e : Envelope) (h : Header) (policy : LockedReplayPolicy)
      (until : Result (Option ℕ)) {claim : ReplayClaim}
      → (until >>= (λ u. ok (preview_by space e h policy u))) ≡ ok (some claim)
      → PreviewOf space h claim
  preview_retained space e h policy (ok until) r =
      preview_by-PreviewOf space e h policy until (ground arith)
  preview_retained space e h policy (err _) r = absurd (ground arith)

  preview_policy-PreviewOf :
      (space : ReplaySpace) (e : Envelope) (h : Header) (admitted_at : String)
      (policy : Option LockedReplayPolicy) {claim : ReplayClaim}
      → preview_policy space e h admitted_at policy ≡ ok (some claim)
      → PreviewOf space h claim
  unfolding preview_policy
  preview_policy-PreviewOf space e h admitted_at none r = absurd (ground arith)
  preview_policy-PreviewOf space e h admitted_at (some policy) r =
      preview_retained space e h policy (retention policy e h admitted_at) r

  pub preview_claim-PreviewOf :
      (space : ReplaySpace) (e : Envelope) (h : Header) (admitted_at : String) {claim : ReplayClaim}
      → read_header e ≡ some h
      → preview_claim space e admitted_at ≡ ok (some claim)
      → PreviewOf space h claim
  unfolding preview_claim preview_header
  preview_claim-PreviewOf space e h admitted_at {claim} r p =
      preview_policy-PreviewOf space e h admitted_at (policy_for_message_type e.message_type)
        (subst (λ o. preview_header space e admitted_at o ≡ ok (some claim)) r p)
