-- ===== src/Fence/Leases.antt =====
-- Histories of a fence store: a later allocation fences every earlier lease for good.
use agent_life.Shared.{
  ℕ, suc, ◌≡◌, ◌<◌, ◌≤◌, ◌⊎◌, inl, inr, refl, String, Bool, true, false, Option, none, some, List,
  [], ◌∷◌, arith, Result, ok, err, ◌==◌, Option-cases, if◌then◌else◌, sym, subst, eq_refl,
  Bool-cases, not, ◌||◌, str_eq, is_none,
}
use agent_life.Shared.Int.{u64_max}
use agent_life.Fence.{
  ConnectionFenceKey, FenceSnapshot, ConnectionAllocation, FenceStore, new_store, find, mint_lease,
  validate_lease_persistence_id, allocated, allocate_valid, allocate_next, restore_current_lease,
  current, fenced, inspect, inspect_allocation, fence_connection, same_text,
}

pub data FenceCall : Type 0 where
  allocate : ConnectionFenceKey → String → String → String → FenceCall
  restore : String → FenceCall

-- The state stays, or is one of the next generation.
abbrev Advances : FenceSnapshot → FenceSnapshot → Type 0
Advances f g = (g ≡ f) ⊎ (g.generation ≡ suc f.generation)

-- What one call does: nothing, or one lease of the state that it leaves.
data Grown (s s' : FenceStore) : Type 0 where
  same : s' ≡ s → Grown s s'
  mints :
      Advances s.state s'.state
      → s'.objects ≡ suc s.objects
      → ((l : ℕ) → find l s'.leases ≡ (if s.objects == l then some s'.state else find l s.leases))
      → Grown s s'

module _ (is_id : String → Bool) where
  mint_lease-Grown :
      (s : FenceStore) (source : String) → Grown s (mint_lease is_id s s.state source).0
  unfolding mint_lease validate_lease_persistence_id find
  mint_lease-Grown s source = mints (inl (ground arith)) (ground arith) (λ l. ground arith)

  allocate_valid-Grown :
      (s : FenceStore) (connection profile source : String) (id : Result String)
      → Grown s (allocate_valid is_id s connection profile source id).0
  unfolding allocate_valid mint_lease validate_lease_persistence_id allocated find
  allocate_valid-Grown s connection profile source (err _) = same refl
  allocate_valid-Grown s connection profile source (ok id) =
      mints (inr (ground arith)) (ground arith) (λ l. ground arith)

  abbrev pub step : FenceStore → FenceCall → FenceStore
  step s (allocate key connection profile source) =
      (allocate_next is_id s key connection profile source).0
  step s (restore source) = (restore_current_lease is_id s source).0

  step-Grown : (s : FenceStore) (c : FenceCall) → Grown s (step s c)
  unfolding allocate_next restore_current_lease
  step-Grown s (allocate key connection profile source) = elim (Bool-cases refused) [
    | inl refuses ↦ rw (refuses, step, allocate_next) (same refl)
    | inr passes ↦
        rw (passes, step, allocate_next)
          (allocate_valid-Grown s connection profile source
            (validate_lease_persistence_id is_id source))
  ]
    where
      refused : Bool
      refused =
          not (str_eq key.credential_id s.key.credential_id)
          || not (key.pairing_generation == s.key.pairing_generation)
          || s.state.generation == u64_max
          || s.state.fence_revision == u64_max
  step-Grown s (restore source) =
      elim (Bool-cases (is_none s.state.connection_id || is_none s.state.transport_profile_id)) [
        | inl refuses ↦ rw (refuses, step, restore_current_lease) (same refl)
        | inr passes ↦ rw (passes, step, restore_current_lease) (mint_lease-Grown s source)
      ]

  unfoldable pub run : FenceStore → List FenceCall → FenceStore
  run s [] = s
  run s (c ∷ cs) = run (step s c) cs

  -- Every lease was made before, of the store's generation or an earlier one.
  abbrev pub Dated : FenceStore → Type 0
  Dated s =
      (l : ℕ) (f : FenceSnapshot)
      → find l s.leases ≡ some f
      → (l < s.objects) × (f.generation ≤ s.state.generation)

  Grown-Dated : {s s' : FenceStore} → Grown s s' → Dated s → Dated s'
  Grown-Dated {s = s} {s' = s'} (same e) d = subst Dated (sym e) d
  Grown-Dated {s = s} {s' = s'} (mints a o m) d = λ l f h. ground (arith, d l f, m l)

  run-Dated : (s : FenceStore) (cs : List FenceCall) → Dated s → Dated (run s cs)
  unfolding run
  run-Dated s [] d = d
  run-Dated s (c ∷ cs) d = run-Dated (step s c) cs (Grown-Dated (step-Grown s c) d)

  -- A lease below the store's generation.
  abbrev Superseded : ℕ → FenceStore → Type 0
  Superseded l s =
      (l < s.objects)
      × ((f : FenceSnapshot) → find l s.leases ≡ some f → f.generation < s.state.generation)

  Grown-Superseded : {s s' : FenceStore} (l : ℕ) → Grown s s' → Superseded l s → Superseded l s'
  Grown-Superseded {s = s} {s' = s'} l (same e) d = subst (Superseded l) (sym e) d
  Grown-Superseded {s = s} {s' = s'} l (mints a o m) (made, older) =
      (ground arith, λ f h. ground (arith, older f, m l))

  run-Superseded :
      (s : FenceStore) (cs : List FenceCall) (l : ℕ) → Superseded l s → Superseded l (run s cs)
  unfolding run
  run-Superseded s [] l d = d
  run-Superseded s (c ∷ cs) l d =
      run-Superseded (step s c) cs l (Grown-Superseded l (step-Grown s c) d)

  Superseded-inspect : (s : FenceStore) (l : ℕ) → Superseded l s → inspect s l ≡ fenced
  unfolding inspect inspect_allocation
  Superseded-inspect s l (_, older) = elim (Option-cases (find l s.leases)) [
    | inl none_there ↦ ground arith
    | inr (f, there) ↦ ground (arith, older f there)
  ]

  -- A successful allocation makes a new lease of the next generation.
  record Allocated (s s' : FenceStore) (a : ConnectionAllocation) : Type 0 where
    next : s'.state.generation ≡ suc s.state.generation
    revision : a.fence_revision ≡ s'.state.fence_revision
    generation : a.generation ≡ s'.state.generation
    lease : a.lease ≡ s.objects
    objects : s'.objects ≡ suc s.objects
    found : (l : ℕ) → find l s'.leases ≡ (if s.objects == l then some s'.state else find l s.leases)

  allocate_next-Allocated :
      (s s' : FenceStore) (key : ConnectionFenceKey) (connection profile source : String)
      (a : ConnectionAllocation)
      → allocate_next is_id s key connection profile source ≡ (s', ok (some a))
      → Allocated s s' a
  unfolding allocate_next allocate_valid mint_lease validate_lease_persistence_id allocated find
  allocate_next-Allocated s s' key connection profile source a h = record {
    next = ground arith;
    revision = ground arith;
    generation = ground arith;
    lease = ground arith;
    objects = ground arith;
    found = λ l. ground arith;
  }

  new_store-Dated :
      (key : ConnectionFenceKey) (snapshot : FenceSnapshot) → Dated (new_store key snapshot)
  unfolding new_store find
  new_store-Dated key snapshot l f h = absurd (ground arith)

  -- After any history, an allocation fences every lease made before it for good: whatever calls
  -- follow, such a lease is inspected as fenced, and no message passes on it.
  pub superseded_fenced :
      (key key' : ConnectionFenceKey) (snapshot : FenceSnapshot) (before after : List FenceCall)
      (connection profile source : String) (s' : FenceStore) (a : ConnectionAllocation)
      (lease generation header : ℕ)
      → lease < (run (new_store key snapshot) before).objects
      → allocate_next is_id (run (new_store key snapshot) before) key' connection profile source
        ≡ (s', ok (some a))
      → (inspect (run s' after) lease ≡ fenced)
        × (fence_connection (inspect (run s' after) lease) generation header ≡ false)
  unfolding fence_connection
  superseded_fenced key key' snapshot before after connection profile source s' a l g h made e =
      let s = run (new_store key snapshot) before in
      let x = allocate_next-Allocated s s' key' connection profile source a e in
      let dated = run-Dated (new_store key snapshot) before (new_store-Dated key snapshot) in
      let out = Superseded-inspect (run s' after) l (
        run-Superseded s' after l
          (omega (arith, x.objects), λ f there. ground (arith, x.found l, x.next, dated l f))) in
      (out, ground arith)

  -- The lease `l` of snapshot `f`: the state is `f` still, or of a later generation.
  abbrev Holds : ℕ → FenceSnapshot → FenceStore → Type 0
  Holds l f s =
      (l < s.objects)
      × (find l s.leases ≡ some f)
      × ((s.state ≡ f) ⊎ (f.generation < s.state.generation))

  Grown-Holds :
      {s s' : FenceStore} (l : ℕ) (f : FenceSnapshot) → Grown s s' → Holds l f s → Holds l f s'
  Grown-Holds {s = s} {s' = s'} l f (same e) h = subst (Holds l f) (sym e) h
  Grown-Holds {s = s} {s' = s'} l f (mints a o m) (made, there, now) =
      (ground arith, ground (arith, m l), ground arith)

  run-Holds :
      (s : FenceStore) (cs : List FenceCall) (l : ℕ) (f : FenceSnapshot)
      → Holds l f s
      → Holds l f (run s cs)
  unfolding run
  run-Holds s [] l f h = h
  run-Holds s (c ∷ cs) l f h = run-Holds (step s c) cs l f (Grown-Holds l f (step-Grown s c) h)

  same_text_refl : (t : Option String) → same_text t t ≡ true
  same_text_refl none = refl
  same_text_refl (some t) = eq_refl t

  Holds-inspect :
      (s : FenceStore) (l : ℕ) (f : FenceSnapshot)
      → Holds l f s
      → inspect s l ≡ (
          if f.generation == s.state.generation
          then current f.generation f.fence_revision
          else fenced)
  unfolding inspect inspect_allocation
  Holds-inspect s l f (made, there, inl now) =
      ground (arith, same_text_refl f.connection_id, same_text_refl f.transport_profile_id)
  Holds-inspect s l f (made, there, inr past) = ground arith

  -- The lease of an allocation is current, with its generation and revision, for as long as the
  -- store's generation is that of the allocation, and fenced from then on.
  pub lease_current_iff :
      (s s' : FenceStore) (key : ConnectionFenceKey) (connection profile source : String)
      (a : ConnectionAllocation) (cs : List FenceCall)
      → allocate_next is_id s key connection profile source ≡ (s', ok (some a))
      → inspect (run s' cs) a.lease ≡ (
          if a.generation == (run s' cs).state.generation
          then current a.generation a.fence_revision
          else fenced)
  lease_current_iff s s' key connection profile source a cs e =
      let x = allocate_next-Allocated s s' key connection profile source a e in
      let first : Holds a.lease s'.state s' =
        (omega (arith, x.lease, x.objects), ground (arith, x.found a.lease, x.lease), inl refl) in
      let last =
        Holds-inspect (run s' cs) a.lease s'.state (run-Holds s' cs a.lease s'.state first) in
      ground (arith, x.generation, x.revision, last)
