-- ===== src/Authorization/Step.antt =====
-- protocol/src/authorization-revision.ts: minting a local transition, `applyRevisionEvent`,
-- snapshots and their comparison. `authenticated` is the weak set of the minted objects.
use agent_life.Shared.{
  ℕ, suc, String, Bool, true, false, not, ◌&&◌, ◌==◌, Option, none, some, List, [], ◌∷◌, length,
  any, str_eq, is_none, Result, ok, ◌>>=◌, ◌>>◌, require, schema_invalid, invalid_state_transition,
  auth_failed,
}
use agent_life.Shared.Text.{printable_text}
use agent_life.Shared.Int.{ℤ, pos}
use agent_life.Shared.Instant.{valid_instant}
use agent_life.Shared.Dict.{get, set}
use agent_life.Shared.Sets.{has, add}
use agent_life.Authorization.{
  DeviceLifecycle, active, paused, revoked, is_paused, is_revoked, RevisionSnapshot,
  LocalUserTransition, is_bridge_command, RotationActivationFact, RevisionEvent, new_pairing, pause,
  emergency_stop, system_permission_change, backend_credential_change, resume, scope_policy_revoke,
  scope_policy_regrant, bridge_command_key_activated, RevisionState, ensure_u64, next, or_else,
}

-- The minted transition and the weak set that holds it; `object` is a fresh object.
unfoldable pub mint_authenticated_local_user_transition :
    List ℕ → ℕ → String → ℤ → String → String → Result (LocalUserTransition × List ℕ)
mint_authenticated_local_user_transition authenticated object device generation transition at = do
  require (printable_text device && printable_text transition && valid_instant at) schema_invalid
  checked ← ensure_u64 generation
  ok (
    record {
      object = object;
      device_id = device;
      pairing_generation = checked;
      transition_id = transition;
      authenticated_at = at;
    },
    object ∷ authenticated,
  )

unfoldable pub apply_new_pairing : RevisionState → ℤ → Result RevisionState
apply_new_pairing current generation = do
  checked ← ensure_u64 generation
  require (is_revoked current.lifecycle && checked == suc current.pairing_generation)
      invalid_state_transition
  ok (record current {
    pairing_generation = checked;
    authorization_epoch = 0;
    lifecycle = active;
    active_pairing = true;
    used_local_transition_ids = [];
    scope_revisions = [];
  })

unfoldable pub apply_resume : List ℕ → RevisionState → LocalUserTransition → Result RevisionState
apply_resume authenticated current fact = do
  require
      (any (λ o. o == fact.object) authenticated
        && is_paused current.lifecycle
        && str_eq fact.device_id current.device_id
        && fact.pairing_generation == current.pairing_generation
        && not (has fact.transition_id current.used_local_transition_ids))
      auth_failed
  epoch ← next current.authorization_epoch
  ok (record current {
    lifecycle = active;
    active_pairing = true;
    authorization_epoch = epoch;
    used_local_transition_ids = add fact.transition_id current.used_local_transition_ids;
  })

unfoldable pub apply_stop : RevisionState → DeviceLifecycle → Result RevisionState
apply_stop current lifecycle = do
  epoch ← next current.authorization_epoch
  ok (record current { lifecycle = lifecycle; active_pairing = false; authorization_epoch = epoch })

unfoldable pub apply_scope_policy : RevisionState → String → Result RevisionState
apply_scope_policy current capability = do
  require (printable_text capability) schema_invalid
  revision ← next (or_else (get capability current.scope_revisions) 0)
  epoch ← next current.authorization_epoch
  ok (record current {
    authorization_epoch = epoch;
    scope_revisions = set capability revision current.scope_revisions;
  })

abbrev same_generation : Option ℤ → ℕ → Bool
same_generation (some (pos n)) m = n == m
same_generation _ m = false

abbrev unbound_or : Option String → String → Bool
unbound_or none id = true
unbound_or (some bound) id = str_eq id bound

unfoldable pub apply_key_activation : RevisionState → RotationActivationFact → Result RevisionState
apply_key_activation current fact = do
  require
      (is_bridge_command fact.owner
        && same_generation fact.pairing_generation current.pairing_generation
        && is_none fact.adapter_credential_generation
        && printable_text fact.fact_id
        && printable_text fact.credential_id
        && unbound_or current.bound_bridge_credential_id fact.credential_id)
      auth_failed
  epoch ← next current.authorization_epoch
  ok (record current {
    bound_bridge_credential_id = some fact.credential_id;
    authorization_epoch = epoch;
  })

unfoldable pub apply_change : RevisionState → Result RevisionState
apply_change current = do
  epoch ← next current.authorization_epoch
  ok (record current { authorization_epoch = epoch })

unfoldable pub apply_revision_event : List ℕ → RevisionState → RevisionEvent → Result RevisionState
apply_revision_event authenticated s (new_pairing generation) = apply_new_pairing s generation
apply_revision_event authenticated s (resume fact) = apply_resume authenticated s fact
apply_revision_event authenticated s pause = apply_stop s paused
apply_revision_event authenticated s emergency_stop = apply_stop s revoked
apply_revision_event authenticated s (scope_policy_revoke capability) =
    apply_scope_policy s capability
apply_revision_event authenticated s (scope_policy_regrant capability) =
    apply_scope_policy s capability
apply_revision_event authenticated s (bridge_command_key_activated fact) =
    apply_key_activation s fact
apply_revision_event authenticated s system_permission_change = apply_change s
apply_revision_event authenticated s backend_credential_change = apply_change s

unfoldable pub revision_snapshot : RevisionState → RevisionSnapshot
revision_snapshot s = record {
  pairing_generation = s.pairing_generation;
  authorization_epoch = s.authorization_epoch;
  scope_revisions = s.scope_revisions;
}

abbrev pub is_revision : Option ℕ → ℕ → Bool
is_revision none r = false
is_revision (some n) r = n == r

abbrev pub all_revisions : List (String × ℕ) → List (String × ℕ) → Bool
all_revisions [] right = true
all_revisions ((scope, revision) ∷ rest) right =
    is_revision (get scope right) revision && all_revisions rest right

unfoldable pub revisions_equal : RevisionSnapshot → RevisionSnapshot → Bool
revisions_equal left right =
    left.pairing_generation == right.pairing_generation
    && left.authorization_epoch == right.authorization_epoch
    && length left.scope_revisions == length right.scope_revisions
    && all_revisions left.scope_revisions right.scope_revisions
