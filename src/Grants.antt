-- ===== src/Grants.antt =====
-- protocol/src/data-query-grant.ts: grants, their checks and `reduceDataQueryGrant`. A grant key is
-- tenant, human, device, capability and the digest of a filter.
pub mod Update
pub mod Store
mod Outcomes
mod Revisions
mod Binding
mod Outbox
mod Device
pub mod Authority
mod Filters
mod Tests
use agent_life.Shared.{
  ℕ, String, Bool, true, false, not, ◌&&◌, ◌||◌, ◌==◌, leb, ltb, Option, none, some, List, [], ◌∷◌,
  str_eq, Result, ok, err, ◌>>=◌, ◌>>◌, require, schema_invalid, auth_failed,
  invalid_state_transition, if◌then◌else◌,
}
use agent_life.Shared.Int.{ℤ, pos, negsuc, u64_max}
use agent_life.Shared.Text.{non_empty, digest}
use agent_life.Shared.Digests.{opaque_id, equal_digest}

pub record DataQueryGrantKey : Type 0 where
  pub tenant_id : String
  pub human_principal_id : String
  pub device_id : String
  pub capability : String
  pub filter_hash : String

pub data BridgeGrantState : Type 0 where
  effective revoked : BridgeGrantState

pub data DeviceGrantUiState : Type 0 where
  ui_effective grant_pending_ack revoked_pending_ack ui_revoked : DeviceGrantUiState

pub record DataQueryGrantState : Type 0 where
  pub key : DataQueryGrantKey
  pub grant_revision : ℕ
  pub bridge_effective_state : BridgeGrantState
  pub device_ui_state : DeviceGrantUiState
  pub last_proposal_digest : Option String

pub data Origin : Type 0 where
  authenticated_device authenticated_agent_session : Origin

-- `object` stands for the identity of the frozen value.
pub record GrantExpansionAuthority : Type 0 where
  pub object : ℕ
  pub key : DataQueryGrantKey
  pub human_principal_id : String
  pub authenticated_session_id : String
  pub origin : Origin

pub record VerifiedGrantUpdate : Type 0 where
  pub message_id : Option String
  pub envelope_digest : Option String
  pub key : DataQueryGrantKey
  pub proposal_digest : String
  pub proposed_state : BridgeGrantState
  pub grant_revision : ℕ
  pub expansion : Option GrantExpansionAuthority

pub record VerifiedGrantAck : Type 0 where
  pub key : DataQueryGrantKey
  pub proposal_digest : String
  pub bridge_effective_state : BridgeGrantState
  pub grant_revision : ℕ

unfoldable pub same_key : DataQueryGrantKey → DataQueryGrantKey → Bool
same_key left right =
    str_eq left.tenant_id right.tenant_id
    && str_eq left.human_principal_id right.human_principal_id
    && str_eq left.device_id right.device_id
    && str_eq left.capability right.capability
    && equal_digest left.filter_hash right.filter_hash

unfoldable pub valid_key : DataQueryGrantKey → Bool
valid_key key =
    non_empty key.tenant_id
    && non_empty key.human_principal_id
    && non_empty key.device_id
    && non_empty key.capability
    && opaque_id key.filter_hash

-- The minted authority and the weak set that holds it; `object` is a fresh object.
unfoldable pub mint_grant_expansion_authority :
    List ℕ
    → ℕ
    → DataQueryGrantKey
    → String
    → String
    → Origin
    → Result (GrantExpansionAuthority × List ℕ)
mint_grant_expansion_authority authorities object key human session origin = do
  require (valid_key key && str_eq key.human_principal_id human && non_empty session) auth_failed
  ok (
    record {
      object = object;
      key = key;
      human_principal_id = human;
      authenticated_session_id = session;
      origin = origin;
    },
    object ∷ authorities,
  )

pub record NewGrant : Type 0 where
  pub key : DataQueryGrantKey
  pub grant_revision : Option ℤ
  pub bridge_effective_state : Option BridgeGrantState
  pub device_ui_state : Option DeviceGrantUiState
  pub last_proposal_digest : Option String

abbrev revision_or_zero : Option ℤ → ℤ
revision_or_zero none = pos 0
revision_or_zero (some revision) = revision

unfoldable pub in_u64 : ℤ → Result ℕ
in_u64 (negsuc _) = err schema_invalid
in_u64 (pos n) = if leb n u64_max then ok n else err schema_invalid

abbrev state_or_revoked : Option BridgeGrantState → BridgeGrantState
state_or_revoked none = revoked
state_or_revoked (some state) = state

abbrev pub ui_of : BridgeGrantState → DeviceGrantUiState
ui_of effective = ui_effective
ui_of revoked = ui_revoked

abbrev ui_or_bridge : BridgeGrantState → Option DeviceGrantUiState → DeviceGrantUiState
ui_or_bridge bridge none = ui_of bridge
ui_or_bridge bridge (some ui) = ui

abbrev no_digest_or_valid : Option String → Bool
no_digest_or_valid none = true
no_digest_or_valid (some text) = digest text

unfoldable pub create_data_query_grant_state : NewGrant → Result DataQueryGrantState
create_data_query_grant_state input = do
  require (valid_key input.key) schema_invalid
  revision ← in_u64 (revision_or_zero input.grant_revision)
  require (no_digest_or_valid input.last_proposal_digest) schema_invalid
  ok (
      let bridge = state_or_revoked input.bridge_effective_state in
      record {
        key = input.key;
        grant_revision = revision;
        bridge_effective_state = bridge;
        device_ui_state = ui_or_bridge bridge input.device_ui_state;
        last_proposal_digest = input.last_proposal_digest;
      })

pub data GrantEvent : Type 0 where
  update : VerifiedGrantUpdate → GrantEvent
  ack : VerifiedGrantAck → GrantEvent

-- `===` of a digest or null with a digest.
abbrev pub is_digest : Option String → String → Bool
is_digest none text = false
is_digest (some last) text = str_eq last text

abbrev pending_for : BridgeGrantState → DeviceGrantUiState
pending_for effective = grant_pending_ack
pending_for revoked = revoked_pending_ack

unfoldable pub reduce_update :
    DataQueryGrantState → VerifiedGrantUpdate → Result DataQueryGrantState
reduce_update state u =
    if not (same_key u.key state.key)
    then err auth_failed
    else if ltb u.grant_revision state.grant_revision
    then err invalid_state_transition
    else if u.grant_revision == state.grant_revision
    then (if is_digest state.last_proposal_digest u.proposal_digest
        then ok state
        else err invalid_state_transition)
    else ok (record state {
      grant_revision = u.grant_revision;
      device_ui_state = pending_for u.proposed_state;
      last_proposal_digest = some u.proposal_digest;
    })

abbrev answers : VerifiedGrantAck → Option String → Bool
answers a none = false
answers a (some last) = equal_digest a.proposal_digest last

unfoldable pub expected : DeviceGrantUiState → Option BridgeGrantState
expected grant_pending_ack = some effective
expected revoked_pending_ack = some revoked
expected _ = none

abbrev pub is_state : Option BridgeGrantState → BridgeGrantState → Bool
is_state (some effective) effective = true
is_state (some revoked) revoked = true
is_state _ _ = false

unfoldable pub reduce_ack : DataQueryGrantState → VerifiedGrantAck → Result DataQueryGrantState
unfolding expected
reduce_ack state a =
    if not (same_key a.key state.key && answers a state.last_proposal_digest)
    then err auth_failed
    else if not (a.grant_revision == state.grant_revision)
    then err invalid_state_transition
    else if is_state (expected state.device_ui_state) a.bridge_effective_state
    then ok (record state {
      bridge_effective_state = a.bridge_effective_state;
      device_ui_state = ui_of a.bridge_effective_state;
      last_proposal_digest = none;
    })
    else err invalid_state_transition

unfoldable pub reduce_data_query_grant :
    DataQueryGrantState → GrantEvent → Result DataQueryGrantState
unfolding reduce_update reduce_ack
reduce_data_query_grant state (update u) = reduce_update state u
reduce_data_query_grant state (ack a) = reduce_ack state a
