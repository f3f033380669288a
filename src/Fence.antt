-- ===== src/Fence.antt =====
-- protocol/src/connection-fence.ts: the connection leases of one credential and pairing. A lease is
-- an object, named by a number; the weak map of leases is an association list by that number. What
-- the source of lease ids returns is an argument, and whether a text is the base64url encoding of
-- 32 bytes a parameter.
pub mod Leases
mod Tests
use agent_life.Shared.{
  ℕ, suc, ◌+◌, String, Bool, true, false, not, ◌&&◌, ◌||◌, ◌==◌, Option, none, some, List, [], ◌∷◌,
  str_eq, is_none, Result, ok, err, ◌>>=◌, ◌>>◌, require, if◌then◌else◌, integrity_failed,
  connection_fenced,
}
use agent_life.Shared.Int.{u64_max}

pub record ConnectionFenceKey : Type 0 where
  pub credential_id : String
  pub pairing_generation : ℕ

pub record FenceSnapshot : Type 0 where
  pub generation : ℕ
  pub fence_revision : ℕ
  pub connection_id : Option String
  pub transport_profile_id : Option String
  pub lease_persistence_id : Option String

pub record ConnectionAllocation : Type 0 where
  pub generation : ℕ
  pub fence_revision : ℕ
  pub lease : ℕ

pub data LeaseInspection : Type 0 where
  current : ℕ → ℕ → LeaseInspection
  fenced : LeaseInspection

-- `objects` leases were made so far.
pub record FenceStore : Type 0 where
  pub key : ConnectionFenceKey
  pub state : FenceSnapshot
  pub objects : ℕ
  pub leases : List (ℕ × FenceSnapshot)
  pub lease_ids : List (ℕ × String)

unfoldable pub new_store : ConnectionFenceKey → FenceSnapshot → FenceStore
new_store key snapshot = record {
  key = key;
  state = snapshot;
  objects = 0;
  leases = [];
  lease_ids = [];
}

unfoldable pub find {ℓ} : {V : Type ℓ} → ℕ → List (ℕ × V) → Option V
find k [] = none
find k ((j, v) ∷ m) = if j == k then some v else find k m

abbrev pub or_source : Option String → String → String
or_source none source = source
or_source (some id) source = id

abbrev pub same_text : Option String → Option String → Bool
same_text none none = true
same_text (some a) (some b) = str_eq a b
same_text _ _ = false

module _ (is_id : String → Bool) where
  unfoldable pub validate_lease_persistence_id : String → Result String
  validate_lease_persistence_id value = if is_id value then ok value else err integrity_failed

  -- The lease is in the map of leases before its id is tested.
  unfoldable pub mint_lease : FenceStore → FenceSnapshot → String → FenceStore × Result ℕ
  unfolding validate_lease_persistence_id
  mint_lease s snapshot source =
      let minted = record s {
        objects = suc s.objects;
        leases = (s.objects, snapshot) ∷ s.leases;
      } in
      elim (validate_lease_persistence_id (or_source snapshot.lease_persistence_id source)) [
        | ok id ↦ (record minted { lease_ids = (s.objects, id) ∷ s.lease_ids }, ok s.objects)
        | err thrown ↦ (minted, err thrown)
      ]

  -- The answer `exhausted` is `none`.
  unfoldable pub allocated :
      FenceStore → FenceSnapshot → Result ℕ → FenceStore × Result (Option ConnectionAllocation)
  allocated s next (err thrown) = (s, err thrown)
  allocated s next (ok lease) = (
    record s { leases = (lease, next) ∷ s.leases },
    ok (
        some record {
          generation = next.generation;
          fence_revision = next.fence_revision;
          lease = lease;
        }),
  )

  unfoldable pub allocate_valid :
      FenceStore
      → String
      → String
      → String
      → Result String
      → FenceStore × Result (Option ConnectionAllocation)
  unfolding mint_lease allocated
  allocate_valid s connection profile source (err thrown) = (s, err thrown)
  allocate_valid s connection profile source (ok id) =
      let next : FenceSnapshot = record {
        generation = suc s.state.generation;
        fence_revision = suc s.state.fence_revision;
        connection_id = some connection;
        transport_profile_id = some profile;
        lease_persistence_id = some id;
      } in
      let (minted, lease) = mint_lease (record s { state = next }) next source in
      allocated minted next lease

  unfoldable pub allocate_next :
      FenceStore
      → ConnectionFenceKey
      → String
      → String
      → String
      → FenceStore × Result (Option ConnectionAllocation)
  unfolding allocate_valid validate_lease_persistence_id
  allocate_next s key connection profile source =
      if not (str_eq key.credential_id s.key.credential_id)
        || not (key.pairing_generation == s.key.pairing_generation)
        || s.state.generation == u64_max
        || s.state.fence_revision == u64_max
      then (s, ok none)
      else allocate_valid s connection profile source (validate_lease_persistence_id source)

  unfoldable pub restore_current_lease : FenceStore → String → FenceStore × Result ℕ
  unfolding mint_lease
  restore_current_lease s source =
      if is_none s.state.connection_id || is_none s.state.transport_profile_id
      then (s, err connection_fenced)
      else mint_lease s s.state source

pub persistence_id : FenceStore → ℕ → Option String
unfolding find
persistence_id s lease = find lease s.lease_ids

unfoldable pub inspect_allocation : FenceSnapshot → Option FenceSnapshot → LeaseInspection
inspect_allocation state none = fenced
inspect_allocation state (some allocation) =
    if allocation.generation == state.generation
      && allocation.fence_revision == state.fence_revision
      && same_text allocation.connection_id state.connection_id
      && same_text allocation.transport_profile_id state.transport_profile_id
    then current allocation.generation allocation.fence_revision
    else fenced

unfoldable pub inspect : FenceStore → ℕ → LeaseInspection
unfolding inspect_allocation find
inspect s lease = inspect_allocation s.state (find lease s.leases)

-- `allocateConnectionGeneration`: an exhausted store is the error CONNECTION_FENCED.
unfoldable pub allocate_connection_generation :
    Result (Option ConnectionAllocation) → Result ConnectionAllocation
allocate_connection_generation (err thrown) = err thrown
allocate_connection_generation (ok none) = err connection_fenced
allocate_connection_generation (ok (some allocation)) = ok allocation

-- Whether a message of a connection passes: not, with the error CONNECTION_FENCED.
unfoldable pub fence_connection : LeaseInspection → ℕ → ℕ → Bool
fence_connection fenced allocated header = false
fence_connection (current generation _) allocated header =
    generation == allocated && header == allocated
