-- ===== src/Grants/Tests.antt =====
-- A grant that is expanded, acknowledged and revoked, and the theorems at it.
use agent_life.Shared.{
  is_none, any, ◌&&◌, ◌||◌, String, true, false, not, Option, ℕ, ◌≡◌, ◌≢◌, ◌↔◌, refl, none, some,
  List, [], ◌∷◌, ok,
}
use agent_life.Shared.Text.{
  codes, non_empty, digest, decimal_text, decimal_value, append, utf16_length,
}
use agent_life.Shared.Digests.{decoded, opaque_id, equal_digest}
use agent_life.Shared.Int.{u64_max}
use agent_life.Shared.Dict.{get, set}
use agent_life.Capabilities.{
  CapabilitySensitivity, CapabilityOfflinePolicy, CapabilityDefinition, capability_specific_v1,
  no_filter, l1, l2, continuous, per_operation, all_records, selector, resolve,
  validate_capability_filter, validate_notification_filter, sorted_unique_strings,
}
use agent_life.Grants.{
  DataQueryGrantKey, effective, revoked, ui_effective, ui_revoked, authenticated_device,
  GrantExpansionAuthority, DataQueryGrantState, VerifiedGrantUpdate, VerifiedGrantAck, same_key,
  valid_key, create_data_query_grant_state, update, ack, GrantEvent, reduce_data_query_grant,
  in_u64,
}
use agent_life.Grants.Update.{
  UpdateFrame, Hashes, verify_data_query_grant_update, ReplayClaimReference, ReplayBoundGrantUpdate,
  parse_wire_key, parse_u64, from_device, may_expand, some_state, some_revision,
  attach_grant_replay_association, is_replay_claim_reference,
}
use agent_life.Grants.Store.{
  GrantAckOutboxEnvelope, GrantStore, empty_store, Digests, proposal_key, load, load_ack_outbox,
  recover_unsent_acks, apply_bridge_update_atomically, mark_ack_sent,
}
use agent_life.Grants.Outcomes.{Call, apply_call, sent_call, accepted, step, run}
use agent_life.Grants.Revisions.{Forward, run-Forward}
use agent_life.Grants.Binding.{one_claim_per_proposal}
use agent_life.Grants.Outbox.{lists, marks, ack_until_sent}
use agent_life.Grants.Filters.{ungrantable}
use agent_life.Access.{StoredQueryInput, allowed, equal_key, lineage_matches, evaluate_stored_query}
use agent_life.Access.Stored.{Readable, stored_query-Authorised}
use agent_life.Grants.Device.{after, Acknowledged, effective-Acknowledged}
use agent_life.Grants.Authority.{Message, after_messages, Authorised, effective-Authorised}

abbrev hash_a : String
hash_a = "AAAAAAAAAAAAAAAAAAAAAAAAAAAAAAAAAAAAAAAAAAA"

abbrev hash_b : String
hash_b = "BAAAAAAAAAAAAAAAAAAAAAAAAAAAAAAAAAAAAAAAAAA"

abbrev key : DataQueryGrantKey
key = record {
  tenant_id = "tenant";
  human_principal_id = "human";
  device_id = "device";
  capability = "notifications.metadata";
  filter_hash = hash_a;
}

abbrev digests : Digests
digests = record { storage_key = λ k. k.device_id; ack_id = λ k revision text state. text }

abbrev notifications : CapabilityDefinition
notifications = record {
  scope = "notifications.metadata";
  filter_schema = capability_specific_v1;
  risk_floor = l1;
  sensitivity = CapabilitySensitivity.metadata;
  offline_policy = CapabilityOfflinePolicy.wait_read;
  minimum_approval = continuous;
  allowed_backends = "B0" ∷ [];
  invariant_ids = [];
}

abbrev hashes : Hashes
hashes = record {
  registry = notifications ∷ [];
  filter_digest = λ filter. hash_a;
  proposal_digest = λ filter k revision state. hash_b;
}

abbrev authority : GrantExpansionAuthority
authority = record {
  object = 7;
  key = key;
  human_principal_id = "human";
  authenticated_session_id = "session";
  origin = authenticated_device;
}

abbrev expand : VerifiedGrantUpdate
expand = record {
  message_id = some "m1";
  envelope_digest = some hash_a;
  key = key;
  proposal_digest = hash_b;
  proposed_state = effective;
  grant_revision = 1;
  expansion = some authority;
}

abbrev row : ReplayClaimReference
row = record {
  claim_id = hash_a;
  message_id = "m1";
  message_type = "data_query_grant_update";
  envelope_digest = hash_a;
}

abbrev bound : ReplayBoundGrantUpdate
bound = record { update = expand; replay = row }

first_accepted :
    accepted ((step digests (run digests empty_store []) (apply_call bound)).1) ≡ some hash_b
unfolding step run apply_bridge_update_atomically is_replay_claim_reference opaque_id digest codes
    utf16_length get set create_data_query_grant_state valid_key non_empty in_u64 u64_max same_key
    equal_digest decoded append
first_accepted = refl

abbrev sent_calls : List Call
sent_calls = sent_call hash_b ∷ []

second_accepted :
    accepted (
      (step digests
        (run digests ((step digests (run digests empty_store []) (apply_call bound)).0) sent_calls)
        (apply_call bound)).1)
    ≡ some hash_b
unfolding step run apply_bridge_update_atomically is_replay_claim_reference opaque_id digest codes
    utf16_length get set create_data_query_grant_state valid_key non_empty in_u64 u64_max same_key
    equal_digest decoded append mark_ack_sent
second_accepted = refl

abbrev start : GrantStore
start = run digests empty_store []

one_claim_per_proposal_example :
    (bound.replay.claim_id ≡ bound.replay.claim_id)
    ↔ (proposal_key digests bound.update ≡ proposal_key digests bound.update)
one_claim_per_proposal_example =
    one_claim_per_proposal digests start sent_calls bound bound first_accepted second_accepted

abbrev granted : GrantStore
granted = (step digests start (apply_call bound)).0

run-Forward_example :
    Forward (load digests granted key) (load digests (run digests granted sent_calls) key)
run-Forward_example = run-Forward digests granted sent_calls key

abbrev AckUntilSent : Type 0
AckUntilSent =
    (e : GrantAckOutboxEnvelope) × (load_ack_outbox granted hash_b ≡ some e)
    × (load_ack_outbox (run digests granted sent_calls) hash_b ≡ some e)
    × (lists hash_b (recover_unsent_acks granted)
        ≡ (is_none (load_ack_outbox start hash_b) || lists hash_b (recover_unsent_acks start)))
    × (lists hash_b (recover_unsent_acks (run digests granted sent_calls))
        ≡ (lists hash_b (recover_unsent_acks granted) && not (any (marks hash_b) sent_calls)))

ack_until_sent_example : AckUntilSent
ack_until_sent_example = ack_until_sent digests [] sent_calls bound first_accepted

abbrev new_grant : DataQueryGrantState
new_grant = record {
  key = key;
  grant_revision = 0;
  bridge_effective_state = revoked;
  device_ui_state = ui_revoked;
  last_proposal_digest = none;
}

abbrev answer : VerifiedGrantAck
answer = record {
  key = key;
  proposal_digest = hash_b;
  bridge_effective_state = effective;
  grant_revision = 1;
}

abbrev events : List GrantEvent
events = ack answer ∷ update expand ∷ []

effective_now : (after new_grant events).bridge_effective_state ≡ effective
unfolding after reduce_data_query_grant same_key equal_digest digest codes decoded
effective_now = refl

effective-Acknowledged_example :
    ((after new_grant events).device_ui_state ≡ ui_effective
      → (after new_grant events).bridge_effective_state ≡ effective)
    × ((after new_grant events).bridge_effective_state ≡ effective → Acknowledged effective events)
effective-Acknowledged_example = effective-Acknowledged new_grant events refl refl

abbrev frame : UpdateFrame
frame = record {
  message_type = "data_query_grant_update";
  context = record {
    is_device = true;
    direction = "app-to-bridge";
    tenant_id = "tenant";
    human_principal_id = "human";
    device_id = "device";
  };
  message_id = some "m1";
  envelope_digest = some hash_a;
  grant_key = key;
  filter = selector none (some ("metadata" ∷ []));
  grant_revision = "1";
  proposed_state = some effective;
  proposal_digest = hash_b;
}

abbrev messages : List (Message hashes digests)
messages =
    record { authorities = 7 ∷ []; frame = frame; expansion = some authority; replay = row } ∷ []

abbrev effective_grant : DataQueryGrantState
effective_grant = record {
  key = key;
  grant_revision = 1;
  bridge_effective_state = effective;
  device_ui_state = ui_effective;
  last_proposal_digest = some hash_b;
}

grant_stored : load digests (after_messages hashes digests messages) key ≡ some effective_grant
unfolding load after_messages verify_data_query_grant_update resolve validate_capability_filter
    validate_notification_filter sorted_unique_strings attach_grant_replay_association
    parse_wire_key parse_u64 from_device may_expand some_state some_revision decimal_text
    decimal_value apply_bridge_update_atomically is_replay_claim_reference opaque_id digest codes
    utf16_length get set create_data_query_grant_state valid_key non_empty in_u64 u64_max same_key
    equal_digest decoded append
grant_stored = refl

effective-Authorised_example : Authorised hashes digests key messages
effective-Authorised_example = effective-Authorised hashes digests messages key grant_stored refl

abbrev contacts : CapabilityDefinition
contacts = record {
  scope = "contacts.read";
  filter_schema = no_filter;
  risk_floor = l2;
  sensitivity = CapabilitySensitivity.metadata;
  offline_policy = CapabilityOfflinePolicy.wait_read;
  minimum_approval = per_operation;
  allowed_backends = "B0" ∷ [];
  invariant_ids = [];
}

abbrev contact_hashes : Hashes
contact_hashes = record hashes { registry = contacts ∷ [] }

abbrev contact_frame : UpdateFrame
contact_frame = record frame {
  grant_key = record key { capability = "contacts.read" };
  filter = all_records;
}

contacts_found : resolve contact_hashes.registry contact_frame.grant_key.capability ≡ some contacts
unfolding resolve
contacts_found = refl

ungrantable_example :
    verify_data_query_grant_update contact_hashes (7 ∷ []) contact_frame (some authority)
    ≢ ok expand
ungrantable_example =
    ungrantable contact_hashes (7 ∷ []) contact_frame (some authority) contacts_found refl expand

abbrev query : StoredQueryInput
query = record {
  requester = record {
    tenant_id = "tenant";
    human_principal_id = "human";
    agent_principal_id = "agent";
    agent_instance_id = "instance";
    workspace_id = "workspace";
    session_id = "session";
    device_id = "device";
    agent_scope_ceiling = [];
  };
  key = key;
  grant = effective_grant;
  record_lineage = record {
    tenant_id = "tenant";
    human_principal_id = "human";
    device_id = "device";
    capability = "notifications.metadata";
    filter_hash = hash_a;
    source_id = "source";
    expires_at = "2026-08-08T00:00:00.000Z";
    tombstoned = false;
  };
  now = some 1000;
}

abbrev read_date : String → Option ℕ
read_date text = some 2000

query_allowed : evaluate_stored_query read_date query ≡ allowed
unfolding evaluate_stored_query equal_key lineage_matches
query_allowed = refl

stored_query-Authorised_example :
    Authorised hashes digests query.grant.key messages × Readable query
stored_query-Authorised_example =
    stored_query-Authorised hashes digests messages read_date query grant_stored query_allowed
