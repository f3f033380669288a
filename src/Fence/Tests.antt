-- ===== src/Fence/Tests.antt =====
-- A sample store of leases, and the theorems at it.
use agent_life.Shared.{
  ◌≡◌, ◌<◌, refl, String, Bool, false, none, some, List, [], ◌∷◌, arith, ok, ◌==◌, if◌then◌else◌,
  str_eq, not,
}
use agent_life.Shared.Int.{u64_max}
use agent_life.Fence.{
  ConnectionFenceKey, FenceSnapshot, ConnectionAllocation, FenceStore, new_store, allocate_next,
  allocate_valid, mint_lease, allocated, validate_lease_persistence_id, current, fenced, inspect,
  fence_connection,
}
use agent_life.Fence.Leases.{
  FenceCall, allocate, restore, run, superseded_fenced, lease_current_iff,
}

abbrev key : ConnectionFenceKey
key = record { credential_id = "credential-1"; pairing_generation = 3 }

abbrev fresh : FenceSnapshot
fresh = record {
  generation = 0;
  fence_revision = 0;
  connection_id = none;
  transport_profile_id = none;
  lease_persistence_id = none;
}

-- Stands for the test of a 32-byte id.
abbrev is_id : String → Bool
is_id s = not (str_eq s "")

abbrev first_call : List FenceCall
first_call = allocate key "connection-1" "profile-1" "id-1" ∷ []

abbrev first_store : FenceStore
first_store = run is_id (new_store key fresh) first_call

abbrev second : ConnectionAllocation
second = record { generation = 2; fence_revision = 2; lease = 1 }

abbrev second_store : FenceStore
second_store = (allocate_next is_id first_store key "connection-2" "profile-1" "id-2").0

second_allocated :
    allocate_next is_id first_store key "connection-2" "profile-1" "id-2"
    ≡ (second_store, ok (some second))
unfolding run new_store allocate_next allocate_valid mint_lease allocated
    validate_lease_persistence_id u64_max
second_allocated = refl

first_made : 0 < first_store.objects
unfolding run new_store allocate_next allocate_valid mint_lease allocated
    validate_lease_persistence_id u64_max
first_made = omega arith

superseded_fenced_example :
    (inspect (run is_id second_store (restore "id-3" ∷ [])) 0 ≡ fenced)
    × (fence_connection (inspect (run is_id second_store (restore "id-3" ∷ [])) 0) 1 1 ≡ false)
superseded_fenced_example =
    superseded_fenced is_id key key fresh first_call (restore "id-3" ∷ []) "connection-2"
      "profile-1" "id-2" second_store second 0 1 1 first_made second_allocated

lease_current_iff_example : inspect (run is_id second_store (restore "id-3" ∷ [])) 1 ≡ (
    if 2 == (run is_id second_store (restore "id-3" ∷ [])).state.generation
    then current 2 2
    else fenced)
lease_current_iff_example =
    lease_current_iff is_id first_store second_store key "connection-2" "profile-1" "id-2" second
      (restore "id-3" ∷ []) second_allocated
