-- ===== src/Grants/Update.antt =====
-- `verifyDataQueryGrantUpdate`, `verifyDataQueryGrantAck` and `attachGrantReplayAssociation`. A frame's
-- values are typed; `none` is a value that is no text or none of the two states. The registry and the
-- digests of canonical bytes are parameters.
use agent_life.Shared.{
  ℕ, ◌==◌, String, Bool, true, false, ◌&&◌, leb, Option, none, some, List, any, str_eq, Result, ok,
  err, ◌>>=◌, ◌>>◌, require, schema_invalid, scope_denied, auth_failed, integrity_failed,
  if◌then◌else◌,
}
use agent_life.Shared.Int.{u64_max}
use agent_life.Shared.Text.{codes, non_empty, digest, decimal_text, decimal_value, utf16_length}
use agent_life.Shared.Digests.{opaque_id, equal_digest}
use agent_life.Capabilities.{
  CapabilityDefinition, CapabilityFilterSchema, no_filter, capability_specific_v1, Filter,
  all_records, resolve, validate_capability_filter,
}
use agent_life.Grants.{
  DataQueryGrantKey, BridgeGrantState, effective, revoked, GrantExpansionAuthority,
  VerifiedGrantUpdate, VerifiedGrantAck, same_key,
}

-- The authenticated context of a frame: whether it is a device's, the direction, and the ids.
pub record FrameContext : Type 0 where
  pub is_device : Bool
  pub direction : String
  pub tenant_id : String
  pub human_principal_id : String
  pub device_id : String

pub record UpdateFrame : Type 0 where
  pub message_type : String
  pub context : FrameContext
  pub message_id : Option String
  pub envelope_digest : Option String
  pub grant_key : DataQueryGrantKey
  pub filter : Filter
  pub grant_revision : String
  pub proposed_state : Option BridgeGrantState
  pub proposal_digest : String

unfoldable pub parse_u64 : String → Option ℕ
parse_u64 text =
    let value = decimal_value 0 (codes text) in
    if decimal_text text && leb value u64_max then some value else none

-- The checks of `parseWireKey`, whose value is the key itself.
unfoldable pub parse_wire_key : DataQueryGrantKey → Result DataQueryGrantKey
parse_wire_key key = do
  require
      (non_empty key.tenant_id
        && non_empty key.human_principal_id
        && non_empty key.device_id
        && non_empty key.capability
        && opaque_id key.filter_hash)
      schema_invalid
  ok key

unfoldable pub from_device : FrameContext → String → Bool
from_device c direction = c.is_device && str_eq c.direction direction

-- The authority of an expansion: minted, and of the same human, for an effective grant of the same key.
unfoldable pub may_expand :
    List ℕ → DataQueryGrantKey → BridgeGrantState → Option GrantExpansionAuthority → Bool
may_expand authorities key effective none = false
may_expand authorities key effective (some e) =
    any (λ o. o == e.object) authorities
    && str_eq e.human_principal_id key.human_principal_id
    && same_key e.key key
may_expand authorities key revoked none = true
may_expand authorities key revoked (some e) =
    any (λ o. o == e.object) authorities && str_eq e.human_principal_id key.human_principal_id

unfoldable pub some_state : Option BridgeGrantState → Result BridgeGrantState
some_state none = err schema_invalid
some_state (some state) = ok state

unfoldable pub some_revision : Option ℕ → Result ℕ
some_revision none = err schema_invalid
some_revision (some revision) = ok revision

-- The registry of capabilities, and digests of canonical bytes: of a filter and of a proposal.
pub record Hashes : Type 0 where
  pub registry : List CapabilityDefinition
  pub filter_digest : Filter → String
  pub proposal_digest : Filter → DataQueryGrantKey → ℕ → BridgeGrantState → String

abbrev pub is_all : Filter → Bool
is_all all_records = true
is_all _ = false

unfoldable pub validate_by_schema :
    List CapabilityDefinition → String → Filter → CapabilityFilterSchema → Result (Unit {0})
validate_by_schema registry capability filter no_filter = require (is_all filter) schema_invalid
validate_by_schema registry capability filter capability_specific_v1 =
    or_schema_invalid (validate_capability_filter registry capability filter)
  where
    or_schema_invalid : Result Filter → Result (Unit {0})
    or_schema_invalid (ok _) = ok tt
    or_schema_invalid (err _) = err schema_invalid

unfoldable pub validate_known :
    List CapabilityDefinition → String → Filter → Option CapabilityDefinition → Result (Unit {0})
unfolding validate_by_schema
validate_known registry capability filter none = err scope_denied
validate_known registry capability filter (some d) =
    validate_by_schema registry capability filter d.filter_schema

unfoldable pub validate_filter_for_grant :
    List CapabilityDefinition → String → Filter → Result (Unit {0})
unfolding validate_known
validate_filter_for_grant registry capability filter =
    validate_known registry capability filter (resolve registry capability)

module _ (hashes : Hashes) where
  -- `capabilityFilterHash` of a capability and a filter that is not undefined.
  unfoldable pub capability_filter_hash : String → Filter → Result String
  capability_filter_hash capability filter =
      validate_capability_filter hashes.registry capability filter
      >>= (λ checked. ok (hashes.filter_digest checked))

  unfoldable pub verify_data_query_grant_update :
      List ℕ → UpdateFrame → Option GrantExpansionAuthority → Result VerifiedGrantUpdate
  unfolding validate_filter_for_grant capability_filter_hash
  verify_data_query_grant_update authorities frame expansion = do
    require (str_eq frame.message_type "data_query_grant_update") schema_invalid
    require
        (from_device frame.context "app-to-bridge"
          && non_empty frame.context.tenant_id
          && non_empty frame.context.human_principal_id
          && non_empty frame.context.device_id)
        auth_failed
    key ← parse_wire_key frame.grant_key
    require
        (str_eq key.tenant_id frame.context.tenant_id
          && str_eq key.human_principal_id frame.context.human_principal_id
          && str_eq key.device_id frame.context.device_id)
        auth_failed
    revision ← some_revision (parse_u64 frame.grant_revision)
    state ← some_state frame.proposed_state
    require (digest frame.proposal_digest) schema_invalid
    _ ← validate_filter_for_grant hashes.registry key.capability frame.filter
    hash ← capability_filter_hash key.capability frame.filter
    require (equal_digest hash key.filter_hash) integrity_failed
    require
        (equal_digest (hashes.proposal_digest frame.filter key revision state)
          frame.proposal_digest)
        integrity_failed
    require (may_expand authorities key state expansion) auth_failed
    ok (record {
      message_id = frame.message_id;
      envelope_digest = frame.envelope_digest;
      key = key;
      proposal_digest = frame.proposal_digest;
      proposed_state = state;
      grant_revision = revision;
      expansion = expansion;
    })

pub record AckFrame : Type 0 where
  pub message_type : String
  pub context : FrameContext
  pub grant_key : DataQueryGrantKey
  pub grant_revision : String
  pub proposal_digest : String
  pub bridge_effective_state : Option BridgeGrantState

unfoldable pub verify_data_query_grant_ack : AckFrame → Result VerifiedGrantAck
verify_data_query_grant_ack frame = do
  require (str_eq frame.message_type "data_query_grant_ack") schema_invalid
  require (from_device frame.context "bridge-to-app") auth_failed
  key ← parse_wire_key frame.grant_key
  revision ← some_revision (parse_u64 frame.grant_revision)
  require (digest frame.proposal_digest) schema_invalid
  state ← some_state frame.bridge_effective_state
  ok (record {
    key = key;
    proposal_digest = frame.proposal_digest;
    bridge_effective_state = state;
    grant_revision = revision;
  })

pub record ReplayClaimReference : Type 0 where
  pub claim_id : String
  pub message_id : String
  pub message_type : String
  pub envelope_digest : String

-- `isReplayClaimReference`, whose brand holds by typing.
unfoldable pub is_replay_claim_reference : ReplayClaimReference → Bool
is_replay_claim_reference r =
    opaque_id r.claim_id
    && opaque_id r.envelope_digest
    && leb 1 (utf16_length (codes r.message_id))
    && leb (utf16_length (codes r.message_id)) 128

abbrev absent_or : Option String → String → Bool
absent_or none text = true
absent_or (some s) text = str_eq s text

pub record ReplayBoundGrantUpdate : Type 0 where
  pub update : VerifiedGrantUpdate
  pub replay : ReplayClaimReference

unfoldable pub attach_grant_replay_association :
    VerifiedGrantUpdate → ReplayClaimReference → Result ReplayBoundGrantUpdate
attach_grant_replay_association update replay = do
  require (is_replay_claim_reference replay && str_eq replay.message_type "data_query_grant_update")
      auth_failed
  require
      (absent_or update.message_id replay.message_id
        && absent_or update.envelope_digest replay.envelope_digest)
      integrity_failed
  ok (record { update = update; replay = replay })
