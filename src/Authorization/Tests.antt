-- ===== src/Authorization/Tests.antt =====
-- A sample device: its events, and the theorems at them.
use agent_life.Shared.{
  ℕ, ◌≡◌, ◌↔◌, refl, String, true, false, none, some, List, [], ◌∷◌, arith, ◌≤◌, ok, err,
  auth_failed,
}
use agent_life.Shared.Text.{printable_text}
use agent_life.Shared.Int.{pos, u64_max}
use agent_life.Shared.Dict.{get, set, Distinct}
use agent_life.Shared.Sets.{has, add, of_list}
use agent_life.Authorization.{
  active, paused, revoked, LocalUserTransition, RevisionEvent, pause, emergency_stop, resume,
  RevisionState, RevisionStateInput, immutable_map, map_or_object, RevisionSnapshot,
  create_authorization_revision_state, ensure_u64, clone_scope_revisions, clone_entries, next,
}
use agent_life.Authorization.Step.{
  apply_revision_event, apply_resume, revision_snapshot, revisions_equal,
}
use agent_life.Authorization.Order.{history, stale_forever}
use agent_life.Authorization.Resume.{resume_once, revoked_resumes}
use agent_life.Authorization.Lifecycle.{reactivation, Reactivation, Valid, created_history-Valid}
use agent_life.Authorization.Snapshots.{revisions_equal_iff}

abbrev input : RevisionStateInput
input = record {
  device_id = "device-1";
  pairing_generation = pos 3;
  authorization_epoch = some (pos 5);
  lifecycle = some paused;
  active_pairing = none;
  enrollment_scope_ceiling = "camera" ∷ [];
  local_consent = "camera" ∷ "camera" ∷ [];
  system_permission = [];
  backend_available = [];
  scope_revisions = map_or_object (("camera", pos 2) ∷ []);
  bound_bridge_credential_id = none;
}

abbrev device : RevisionState
device = record {
  pairing_generation = 3;
  authorization_epoch = 5;
  scope_revisions = ("camera", 2) ∷ [];
  device_id = "device-1";
  lifecycle = paused;
  active_pairing = false;
  enrollment_scope_ceiling = "camera" ∷ [];
  local_consent = "camera" ∷ [];
  system_permission = [];
  backend_available = [];
  used_local_transition_ids = [];
  bound_bridge_credential_id = none;
}

input_creates : create_authorization_revision_state input ≡ ok device
unfolding create_authorization_revision_state printable_text ensure_u64 u64_max
    clone_scope_revisions clone_entries set of_list add
input_creates = refl

abbrev fact : LocalUserTransition
fact = record {
  object = 7;
  device_id = "device-1";
  pairing_generation = 3;
  transition_id = "transition-1";
  authenticated_at = "2026-01-01T00:00:00.000Z";
}

abbrev minted : List ℕ
minted = 7 ∷ []

abbrev resumed : RevisionState
resumed = record device {
  lifecycle = active;
  active_pairing = true;
  authorization_epoch = 6;
  used_local_transition_ids = "transition-1" ∷ [];
}

device_resumes : apply_revision_event minted device (resume fact) ≡ ok resumed
unfolding apply_revision_event apply_resume next u64_max has add
device_resumes = refl

abbrev later : List (List ℕ × RevisionEvent)
later = ([], pause) ∷ (minted, resume fact) ∷ ([], emergency_stop) ∷ []

stale_forever_example :
    (revisions_equal (revision_snapshot device) (revision_snapshot (history resumed later)) ≡ false)
    × (revisions_equal (revision_snapshot (history resumed later)) (revision_snapshot device)
        ≡ false)
stale_forever_example = stale_forever minted device resumed (resume fact) later device_resumes

resume_once_example :
    apply_revision_event minted (history resumed (([], pause) ∷ [])) (resume fact) ≡ err auth_failed
resume_once_example =
    resume_once minted minted device resumed fact fact (([], pause) ∷ []) device_resumes refl refl

abbrev stopped : RevisionState
stopped = record device { lifecycle = revoked }

two_below : 7 ≤ u64_max
unfolding u64_max
two_below = omega arith

revoked_resumes_example :
    let s' = history stopped ((minted, pause) ∷ (minted, resume fact) ∷ []) in
    (s'.lifecycle ≡ active) × (s'.active_pairing ≡ true) × (s'.pairing_generation ≡ 3)
unfolding has
revoked_resumes_example = revoked_resumes minted stopped fact refl refl refl refl refl two_below

reactivation_example : Reactivation minted device (resume fact)
reactivation_example =
    reactivation minted device (resume fact) device_resumes (λ e. ground arith) refl

created_history-Valid_example : Valid (history device later)
created_history-Valid_example = created_history-Valid input device later refl input_creates

abbrev restored : RevisionStateInput
restored = record input { scope_revisions = immutable_map (("camera", 2) ∷ []) }

restored_without :
    create_authorization_revision_state restored ≡ ok (record device { scope_revisions = [] })
unfolding create_authorization_revision_state printable_text ensure_u64 u64_max
    clone_scope_revisions clone_entries set of_list add
restored_without = refl

abbrev left : RevisionSnapshot
left = record {
  pairing_generation = 3;
  authorization_epoch = 5;
  scope_revisions = ("camera", 2) ∷ ("files", 1) ∷ [];
}

abbrev right : RevisionSnapshot
right = record left { scope_revisions = ("files", 1) ∷ ("camera", 2) ∷ [] }

left-Distinct : Distinct left.scope_revisions
unfolding get
left-Distinct = (refl, (refl, tt))

right-Distinct : Distinct right.scope_revisions
unfolding get
right-Distinct = (refl, (refl, tt))

revisions_equal_iff_example : (revisions_equal left right ≡ true) ↔ (
    (left.pairing_generation ≡ right.pairing_generation)
    × (left.authorization_epoch ≡ right.authorization_epoch)
    × ((scope : String) → get scope left.scope_revisions ≡ get scope right.scope_revisions))
revisions_equal_iff_example = revisions_equal_iff left right left-Distinct right-Distinct
