-- ===== src/Access.antt =====
-- protocol/src/authorization.ts: access to a device, and to stored records of its data.
mod Stale
mod Risk
pub mod Stored
pub mod Policy
mod Opening
mod Egress
mod Gate
mod Tests
use agent_life.Shared.{
  ℕ, suc, ◌-◌, String, Bool, true, false, not, ◌&&◌, ◌||◌, ◌==◌, leb, ltb, Option, none, some, List,
  [], ◌∷◌, length, all, any, str_eq, if◌then◌else◌,
}
use agent_life.Shared.Text.{codes, same_codes}
use agent_life.Shared.Dict.{get}
use agent_life.Shared.Sets.{has}
use agent_life.Capabilities.{CapabilityDefinition, resolve}
use agent_life.Authorization.{DeviceLifecycle, is_active}
use agent_life.Grants.{DataQueryGrantKey, BridgeGrantState, effective, DataQueryGrantState}

-- A map of revisions: a `Map` or a plain object, or an `ImmutableMap`, which is no `Map` and has no own
-- property of a scope's name.
pub data RevisionMap : Type 0 where
  map_or_object immutable_map : List (String × ℕ) → RevisionMap

pub record AccessRevision : Type 0 where
  pub pairing_generation : ℕ
  pub authorization_epoch : ℕ
  pub scope_revisions : RevisionMap

pub record CurrentDeviceAuthorization : Type 0 where
  pub lifecycle : DeviceLifecycle
  pub active_pairing : Bool
  pub enrollment_scope_ceiling : List String
  pub local_consent : List String
  pub system_permission : List String
  pub backend_available : List String
  pub revision : AccessRevision

pub record ServerAgentSessionBinding : Type 0 where
  pub tenant_id : String
  pub human_principal_id : String
  pub agent_principal_id : String
  pub agent_instance_id : String
  pub workspace_id : String
  pub session_id : String
  pub device_id : String
  pub agent_scope_ceiling : List String

-- What the access reads of the authenticated binding of a device.
pub record DeviceBinding : Type 0 where
  pub tenant_id : String
  pub human_principal_id : String
  pub device_id : String

pub record DeviceAccessInput : Type 0 where
  pub binding : DeviceBinding
  pub requester : ServerAgentSessionBinding
  pub capability : String
  pub required_revision : AccessRevision
  pub current : CurrentDeviceAuthorization
  pub registry : List CapabilityDefinition

pub data Reason : Type 0 where
  pairing_inactive binding_mismatch scope_denied system_permission_missing : Reason
  backend_unavailable revision_mismatch grant_revoked lineage_mismatch : Reason
  record_expired record_deleted : Reason

pub data AuthorizationDecision : Type 0 where
  allowed : AuthorizationDecision
  denied : Reason → AuthorizationDecision

-- `split(".")`.
split_dots : List ℕ → List (List ℕ)
split_dots [] = [] ∷ []
split_dots (c ∷ cs) = let rest = split_dots cs in if c == b'.' then [] ∷ rest else onto rest
  where
    onto : List (List ℕ) → List (List ℕ)
    onto [] = (c ∷ []) ∷ []
    onto (part ∷ parts) = (c ∷ part) ∷ parts

starts_with : ℕ → List ℕ → Bool
starts_with d [] = false
starts_with d (c ∷ _) = c == d

ends_with : ℕ → List ℕ → Bool
ends_with d [] = false
ends_with d (c ∷ []) = c == d
ends_with d (_ ∷ e ∷ cs) = ends_with d (e ∷ cs)

is_lower : ℕ → Bool
is_lower c = leb b'a' c && leb c b'z'

-- `/^[a-z][a-z0-9_-]{0,127}$/u`.
scope_part : List ℕ → Bool
unfolding is_lower
scope_part [] = false
scope_part (c ∷ cs) =
    is_lower c
    && leb (length cs) 127
    && all (λ d. is_lower d || (leb b'0' d && leb d b'9') || d == b'_' || d == b'-') cs

part_matches : List ℕ → List ℕ → Bool
unfolding starts_with ends_with scope_part same_codes
part_matches part requested =
    if starts_with b'<' part && ends_with b'>' part
    then scope_part requested
    else same_codes part requested

parts_match : List (List ℕ) → List (List ℕ) → Bool
unfolding part_matches
parts_match [] [] = true
parts_match (part ∷ parts) (requested ∷ rest) =
    part_matches part requested && parts_match parts rest
parts_match _ _ = false

unfoldable pub scope_matches : String → String → Bool
unfolding split_dots parts_match
scope_matches ceiling requested =
    parts_match (split_dots (codes ceiling)) (split_dots (codes requested))

unfoldable pub ceiling_allows : List String → String → Bool
unfolding scope_matches
ceiling_allows ceiling capability =
    any (λ entry. str_eq entry capability || scope_matches entry capability) ceiling

unfoldable pub identity_matches : DeviceBinding → ServerAgentSessionBinding → Bool
identity_matches binding requester =
    str_eq binding.tenant_id requester.tenant_id
    && str_eq binding.human_principal_id requester.human_principal_id
    && str_eq binding.device_id requester.device_id

unfoldable pub revision_for : RevisionMap → String → Option ℕ
revision_for (map_or_object entries) capability = get capability entries
revision_for (immutable_map _) capability = none

-- `===` of two revisions or undefined.
unfoldable pub same_revision : Option ℕ → Option ℕ → Bool
same_revision none none = true
same_revision (some m) (some n) = m == n
same_revision _ _ = false

unfoldable pub revision_matches : AccessRevision → AccessRevision → String → Bool
unfolding revision_for same_revision
revision_matches required current capability =
    required.pairing_generation == current.pairing_generation
    && required.authorization_epoch == current.authorization_epoch
    && same_revision (revision_for required.scope_revisions capability)
        (revision_for current.scope_revisions capability)

unfoldable pub in_scope : DeviceAccessInput → Bool
in_scope input =
    ceiling_allows input.requester.agent_scope_ceiling input.capability
    && ceiling_allows input.current.enrollment_scope_ceiling input.capability
    && has input.capability input.current.local_consent

unfoldable pub access_resolved :
    DeviceAccessInput → Option CapabilityDefinition → AuthorizationDecision
unfolding in_scope
access_resolved input none = denied scope_denied
access_resolved input (some capability) =
    if not (in_scope input)
    then denied scope_denied
    else if not (has input.capability input.current.system_permission)
    then denied system_permission_missing
    else if not (any (λ b. has b input.current.backend_available) capability.allowed_backends)
    then denied backend_unavailable
    else if not (revision_matches input.required_revision input.current.revision input.capability)
    then denied revision_mismatch
    else allowed

unfoldable pub evaluate_device_access : DeviceAccessInput → AuthorizationDecision
unfolding access_resolved identity_matches
evaluate_device_access input =
    if not input.current.active_pairing || not (is_active input.current.lifecycle)
    then denied pairing_inactive
    else if not (identity_matches input.binding input.requester)
    then denied binding_mismatch
    else access_resolved input (resolve input.registry input.capability)

pub record StoredRecordLineage : Type 0 where
  pub tenant_id : String
  pub human_principal_id : String
  pub device_id : String
  pub capability : String
  pub filter_hash : String
  pub source_id : String
  pub expires_at : String
  pub tombstoned : Bool

-- `now` is the time of the clock, `none` for an invalid date.
pub record StoredQueryInput : Type 0 where
  pub requester : ServerAgentSessionBinding
  pub key : DataQueryGrantKey
  pub grant : DataQueryGrantState
  pub record_lineage : StoredRecordLineage
  pub now : Option ℕ

abbrev is_effective : BridgeGrantState → Bool
is_effective effective = true
is_effective _ = false

unfoldable pub equal_key : DataQueryGrantKey → DataQueryGrantKey → Bool
equal_key left right =
    str_eq left.tenant_id right.tenant_id
    && str_eq left.human_principal_id right.human_principal_id
    && str_eq left.device_id right.device_id
    && str_eq left.capability right.capability
    && str_eq left.filter_hash right.filter_hash

unfoldable pub lineage_matches : StoredRecordLineage → DataQueryGrantKey → Bool
lineage_matches r key =
    str_eq r.tenant_id key.tenant_id
    && str_eq r.human_principal_id key.human_principal_id
    && str_eq r.device_id key.device_id
    && str_eq r.capability key.capability
    && str_eq r.filter_hash key.filter_hash

abbrev before_expiry : Option ℕ → Option ℕ → Bool
before_expiry (some now) (some expires) = ltb now expires
before_expiry _ _ = false

module _ (date_parse : String → Option ℕ) where
  unfoldable pub evaluate_stored_query : StoredQueryInput → AuthorizationDecision
  evaluate_stored_query input =
      let key = input.key in
      let r = input.record_lineage in
      if not (is_effective input.grant.bridge_effective_state)
      then denied grant_revoked
      else if not (
          str_eq key.tenant_id input.requester.tenant_id
          && str_eq key.human_principal_id input.requester.human_principal_id
          && str_eq key.device_id input.requester.device_id)
      then denied lineage_mismatch
      else if not (equal_key input.grant.key key)
      then denied lineage_mismatch
      else if not (lineage_matches r key)
      then denied lineage_mismatch
      else if r.tombstoned
      then denied record_deleted
      else if not (before_expiry input.now (date_parse r.expires_at))
      then denied record_expired
      else allowed
