-- ===== src/Access/Stored.antt =====
-- Stored records, over the store of grants.
use agent_life.Shared.{ℕ, ◌≡◌, String, true, false, Option, some, List, str_eq, eq_iff, arith}
use agent_life.Grants.{BridgeGrantState, effective}
use agent_life.Grants.Update.{Hashes}
use agent_life.Grants.Store.{Digests, load}
use agent_life.Grants.Authority.{Message, after_messages, Authorised, effective-Authorised}
use agent_life.Access.{
  StoredQueryInput, allowed, equal_key, lineage_matches, is_effective, before_expiry,
  evaluate_stored_query,
}

-- What an allowed query has in common.
pub record Readable (input : StoredQueryInput) : Type 0 where
  pub same_human : input.requester.human_principal_id ≡ input.grant.key.human_principal_id
  pub same_device : input.requester.device_id ≡ input.grant.key.device_id
  pub same_capability : input.record_lineage.capability ≡ input.grant.key.capability
  pub record_human : input.record_lineage.human_principal_id ≡ input.grant.key.human_principal_id
  pub record_filter : input.record_lineage.filter_hash ≡ input.grant.key.filter_hash
  pub not_deleted : input.record_lineage.tombstoned ≡ false

module _ (date_parse : String → Option ℕ) (input : StoredQueryInput)
    (h : evaluate_stored_query date_parse input ≡ allowed) where
  effective_state : (s : BridgeGrantState) → is_effective s ≡ true → s ≡ effective
  effective_state s e = ground arith

  allowed-effective : input.grant.bridge_effective_state ≡ effective
  unfolding evaluate_stored_query
  allowed-effective = effective_state input.grant.bridge_effective_state (ground arith)

  allowed-keys :
      (str_eq input.key.human_principal_id input.requester.human_principal_id ≡ true)
      × (str_eq input.key.device_id input.requester.device_id ≡ true)
      × (equal_key input.grant.key input.key ≡ true)
      × (lineage_matches input.record_lineage input.key ≡ true)
      × (input.record_lineage.tombstoned ≡ false)
      × (before_expiry input.now (date_parse input.record_lineage.expires_at) ≡ true)
  unfolding evaluate_stored_query
  allowed-keys =
      (ground arith, ground arith, ground arith, ground arith, ground arith, ground arith)

  allowed-Readable : Readable input
  unfolding equal_key lineage_matches
  allowed-Readable =
      let (human, device, key, lineage, live, _) = allowed-keys in
      let g = input.grant.key in
      let k = input.key in
      let r = input.record_lineage in
      record {
        same_human = ground (
          arith,
          human,
          key,
          eq_iff k.human_principal_id input.requester.human_principal_id,
          eq_iff g.human_principal_id k.human_principal_id,
        );
        same_device = ground (
          arith,
          device,
          key,
          eq_iff k.device_id input.requester.device_id,
          eq_iff g.device_id k.device_id,
        );
        same_capability = ground (
          arith,
          lineage,
          key,
          eq_iff r.capability k.capability,
          eq_iff g.capability k.capability,
        );
        record_human = ground (
          arith,
          lineage,
          key,
          eq_iff r.human_principal_id k.human_principal_id,
          eq_iff g.human_principal_id k.human_principal_id,
        );
        record_filter = ground (
          arith,
          lineage,
          key,
          eq_iff r.filter_hash k.filter_hash,
          eq_iff g.filter_hash k.filter_hash,
        );
        not_deleted = live;
      }

-- A stored record is read, under a grant of the store that verified updates led to, only if one of
-- the updates came with a minted expansion authority for the grant's key, the requester acts for the
-- human and device of that key, and the record is of the key's human, capability and filter and was
-- not deleted.
pub stored_query-Authorised :
    (hashes : Hashes) (digests : Digests) (ms : List (Message hashes digests))
    (date_parse : String → Option ℕ) (input : StoredQueryInput)
    → load digests (after_messages hashes digests ms) input.key ≡ some input.grant
    → evaluate_stored_query date_parse input ≡ allowed
    → Authorised hashes digests input.grant.key ms × Readable input
stored_query-Authorised hashes digests ms date_parse input found h = (
  effective-Authorised hashes digests ms input.key found (allowed-effective date_parse input h),
  allowed-Readable date_parse input h,
)
