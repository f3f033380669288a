-- ===== src/Authorization.antt =====
-- protocol/src/authorization-revision.ts: the authorization revision of a device. A set is the list
-- of its members, a map an association list; copying and freezing leave the values, so they have no
-- counterpart. The numbers of a state are not negative, those of an event or of an input may be.
pub mod Step
pub mod Order
pub mod Resume
pub mod Snapshots
pub mod Lifecycle
mod Tests
use agent_life.Shared.{
  ℕ, suc, String, Bool, true, false, not, ◌&&◌, ◌||◌, ◌==◌, Option, none, some, List, [], ◌∷◌,
  length, any, str_eq, ltb, leb, is_none, Result, ok, err, ◌>>=◌, ◌>>◌, require, if◌then◌else◌,
  schema_invalid, invalid_state_transition, auth_failed,
}
use agent_life.Shared.Text.{printable_text}
use agent_life.Shared.Int.{ℤ, pos, negsuc, u64_max}
use agent_life.Shared.Instant.{valid_instant}
use agent_life.Shared.Dict.{get, set}
use agent_life.Shared.Sets.{has, add, of_list}

pub data DeviceLifecycle : Type 0 where
  active paused revoked : DeviceLifecycle

abbrev pub is_active : DeviceLifecycle → Bool
is_active active = true
is_active _ = false

abbrev pub is_paused : DeviceLifecycle → Bool
is_paused paused = true
is_paused _ = false

abbrev pub is_revoked : DeviceLifecycle → Bool
is_revoked revoked = true
is_revoked _ = false

pub record RevisionSnapshot : Type 0 where
  pub pairing_generation : ℕ
  pub authorization_epoch : ℕ
  pub scope_revisions : List (String × ℕ)

-- `object` is the object's identity: the weak set of authenticated transitions holds objects.
pub record LocalUserTransition : Type 0 where
  pub object : ℕ
  pub device_id : String
  pub pairing_generation : ℕ
  pub transition_id : String
  pub authenticated_at : String

pub data CredentialOwner : Type 0 where
  device_installation bridge_command adapter : CredentialOwner

abbrev is_bridge_command : CredentialOwner → Bool
is_bridge_command bridge_command = true
is_bridge_command _ = false

pub record RotationActivationFact : Type 0 where
  pub owner : CredentialOwner
  pub pairing_generation : Option ℤ
  pub adapter_credential_generation : Option ℤ
  pub fact_id : String
  pub credential_id : String

pub data RevisionEvent : Type 0 where
  new_pairing : ℤ → RevisionEvent
  pause emergency_stop system_permission_change backend_credential_change : RevisionEvent
  resume : LocalUserTransition → RevisionEvent
  scope_policy_revoke scope_policy_regrant : String → RevisionEvent
  bridge_command_key_activated : RotationActivationFact → RevisionEvent

pub record RevisionState : Type 0 where
  pub pairing_generation : ℕ
  pub authorization_epoch : ℕ
  pub scope_revisions : List (String × ℕ)
  pub device_id : String
  pub lifecycle : DeviceLifecycle
  pub active_pairing : Bool
  pub enrollment_scope_ceiling : List String
  pub local_consent : List String
  pub system_permission : List String
  pub backend_available : List String
  pub used_local_transition_ids : List String
  pub bound_bridge_credential_id : Option String

-- `ensureU64`, and the number it lets through.
unfoldable pub ensure_u64 : ℤ → Result ℕ
ensure_u64 (negsuc n) = err schema_invalid
ensure_u64 (pos n) = if ltb u64_max n then err schema_invalid else ok n

unfoldable pub next : ℕ → Result ℕ
next value =
    if ltb u64_max value
    then err schema_invalid
    else if value == u64_max
    then err invalid_state_transition
    else ok (suc value)

-- A map of scope revisions as `createAuthorizationRevisionState` takes it. An `ImmutableMap`, which
-- every state and snapshot carries, is no `Map`, and has no own enumerable properties.
pub data ScopeRevisionInput : Type 0 where
  map_or_object : List (String × ℤ) → ScopeRevisionInput
  immutable_map : List (String × ℕ) → ScopeRevisionInput
  absent : ScopeRevisionInput

unfoldable pub clone_entries : List (String × ℕ) → List (String × ℤ) → Result (List (String × ℕ))
unfolding ensure_u64
clone_entries result [] = ok result
clone_entries result ((scope, revision) ∷ rest) = do
  require (printable_text scope) schema_invalid
  checked ← ensure_u64 revision
  clone_entries (set scope checked result) rest

unfoldable pub clone_scope_revisions : ScopeRevisionInput → Result (List (String × ℕ))
unfolding clone_entries
clone_scope_revisions (map_or_object entries) = clone_entries [] entries
clone_scope_revisions (immutable_map _) = ok []
clone_scope_revisions absent = ok []

pub record RevisionStateInput : Type 0 where
  pub device_id : String
  pub pairing_generation : ℤ
  pub authorization_epoch : Option ℤ
  pub lifecycle : Option DeviceLifecycle
  pub active_pairing : Option Bool
  pub enrollment_scope_ceiling : List String
  pub local_consent : List String
  pub system_permission : List String
  pub backend_available : List String
  pub scope_revisions : ScopeRevisionInput
  pub bound_bridge_credential_id : Option String

-- `a ?? b`.
abbrev pub or_else {ℓ} : {A : Type ℓ} → Option A → A → A
or_else none b = b
or_else (some a) b = a

unfoldable pub create_authorization_revision_state : RevisionStateInput → Result RevisionState
unfolding ensure_u64 clone_scope_revisions
create_authorization_revision_state input = do
  require (printable_text input.device_id) schema_invalid
  generation ← ensure_u64 input.pairing_generation
  epoch ← ensure_u64 (or_else input.authorization_epoch (pos 0))
  let lifecycle = or_else input.lifecycle active
  scopes ← clone_scope_revisions input.scope_revisions
  ok record {
    pairing_generation = generation;
    authorization_epoch = epoch;
    scope_revisions = scopes;
    device_id = input.device_id;
    lifecycle = lifecycle;
    active_pairing = or_else input.active_pairing (is_active lifecycle);
    enrollment_scope_ceiling = input.enrollment_scope_ceiling;
    local_consent = of_list input.local_consent;
    system_permission = of_list input.system_permission;
    backend_available = of_list input.backend_available;
    used_local_transition_ids = [];
    bound_bridge_credential_id = input.bound_bridge_credential_id;
  }
