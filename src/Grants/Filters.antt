-- ===== src/Grants/Filters.antt =====
-- The two tests of a filter in `verifyDataQueryGrantUpdate`.
use agent_life.Shared.{
  ℕ, String, Bool, true, false, ◌≡◌, ◌≢◌, ◌∙◌, ap, Option, none, some, List, Result, ok, err, arith,
}
use agent_life.Capabilities.{
  CapabilityDefinition, CapabilityFilterSchema, no_filter, capability_specific_v1, Filter, absent,
  all_records, selector, other_value, resolve, is_absent, validate_by, validate_resolved,
  validate_capability_filter,
}
use agent_life.Grants.{GrantExpansionAuthority, VerifiedGrantUpdate}
use agent_life.Grants.Update.{
  UpdateFrame, Hashes, is_all, validate_by_schema, validate_known, validate_filter_for_grant,
  capability_filter_hash, verify_data_query_grant_update, parse_wire_key,
}

abbrev is_ok {ℓ} : {T : Type ℓ} → Result T → Bool
is_ok (ok _) = true
is_ok (err _) = false

module _ (registry : List CapabilityDefinition) (capability : String) (filter : Filter) where
  by_schema-all :
      (schema : CapabilityFilterSchema)
      → schema ≡ no_filter
      → is_ok (validate_by_schema registry capability filter schema) ≡ true
      → is_all filter ≡ true
  unfolding validate_by_schema
  by_schema-all no_filter e h = ground arith
  by_schema-all capability_specific_v1 e h = absurd (ground arith)

  validated-all :
      (o : Option CapabilityDefinition) {d : CapabilityDefinition}
      → o ≡ some d
      → d.filter_schema ≡ no_filter
      → is_ok (validate_known registry capability filter o) ≡ true
      → is_all filter ≡ true
  unfolding validate_known
  validated-all none e f h = absurd (ground arith)
  validated-all (some c) e f h =
      by_schema-all c.filter_schema (ap CapabilityDefinition.filter_schema (same e) ∙ f) h
    where
      same : {d : CapabilityDefinition} → some c ≡ some d → c ≡ d
      same e = ground arith

  by-absent :
      (schema : CapabilityFilterSchema)
      → schema ≡ no_filter
      → is_ok (validate_by capability filter schema) ≡ true
      → is_absent filter ≡ true
  unfolding validate_by
  by-absent no_filter e h = ground arith
  by-absent capability_specific_v1 e h = absurd (ground arith)

  checked-absent :
      (o : Option CapabilityDefinition) {d : CapabilityDefinition}
      → o ≡ some d
      → d.filter_schema ≡ no_filter
      → is_ok (validate_resolved capability filter o) ≡ true
      → is_absent filter ≡ true
  unfolding validate_resolved
  checked-absent none e f h = absurd (ground arith)
  checked-absent (some c) e f h =
      by-absent c.filter_schema (ap CapabilityDefinition.filter_schema (same e) ∙ f) h
    where
      same : {d : CapabilityDefinition} → some c ≡ some d → c ≡ d
      same e = ground arith

not_both : (filter : Filter) → is_all filter ≡ true → is_absent filter ≡ true → ⊥
not_both absent h k = ground arith
not_both all_records h k = ground arith
not_both (selector packages fields) h k = ground arith
not_both other_value h k = ground arith

hash-checked :
    (hashes : Hashes) (capability : String) (filter : Filter)
    → is_ok (capability_filter_hash hashes capability filter) ≡ true
    → is_ok (validate_capability_filter hashes.registry capability filter) ≡ true
unfolding capability_filter_hash
hash-checked hashes capability filter h = ground arith

verified-checked :
    (hashes : Hashes) (authorities : List ℕ) (frame : UpdateFrame)
    (expansion : Option GrantExpansionAuthority) {u : VerifiedGrantUpdate}
    → verify_data_query_grant_update hashes authorities frame expansion ≡ ok u
    → (is_ok (validate_filter_for_grant hashes.registry frame.grant_key.capability frame.filter)
        ≡ true)
      × (is_ok (capability_filter_hash hashes frame.grant_key.capability frame.filter) ≡ true)
unfolding verify_data_query_grant_update parse_wire_key
verified-checked hashes authorities frame expansion h = (ground arith, ground arith)

-- No update for a capability whose filter schema is "none" verifies, whatever its filter: the first
-- test wants the filter of all records, and the digest of the filter wants no filter at all.
pub ungrantable :
    (hashes : Hashes) (authorities : List ℕ) (frame : UpdateFrame)
    (expansion : Option GrantExpansionAuthority) {d : CapabilityDefinition}
    → resolve hashes.registry frame.grant_key.capability ≡ some d
    → d.filter_schema ≡ no_filter
    → (u : VerifiedGrantUpdate)
    → verify_data_query_grant_update hashes authorities frame expansion ≢ ok u
ungrantable hashes authorities frame expansion found schema u h =
    let capability = frame.grant_key.capability in
    let (filter_ok, hash_ok) = verified-checked hashes authorities frame expansion h in
    not_both frame.filter
      (validated-all hashes.registry capability frame.filter (resolve hashes.registry capability)
        found schema (unfold validate_filter_for_grant in filter_ok))
      (checked-absent hashes.registry capability frame.filter (resolve hashes.registry capability)
        found schema
        (unfold validate_capability_filter in
          (hash-checked hashes capability frame.filter hash_ok)))
