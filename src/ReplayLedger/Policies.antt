-- ===== src/ReplayLedger/Policies.antt =====
-- The policies of protocol/src/replay-window.ts, and the classification of the message types by
-- protocol/registries/v1/replay-policies.json.
use agent_life.Shared.{
  ◌≡◌, refl, String, Option, none, some, List, [], ◌∷◌, str_eq, ◌&&◌, Bool, if◌then◌else◌,
}
use agent_life.Shared.Dict.{get}
use agent_life.ReplayLedger.{LockedReplayPolicy, task5_default, operation_security_ledger}

pub record ReplayClassification : Type 0 where
  pub class_id : String
  pub retention_rule_id : String

-- REPLAY_POLICY_LITERALS.
unfoldable pub literals : LockedReplayPolicy → ReplayClassification
literals task5_default = record {
  class_id = "task5_default";
  retention_rule_id = "retain_until_max_expires_at_or_admitted_at_plus_86400_seconds_v1";
}
literals operation_security_ledger = record {
  class_id = "operation_security_ledger";
  retention_rule_id =
      "retain_until_max_operation_expires_at_or_bridge_ack_at_plus_2592000_seconds_v1";
}

-- The rows of the registry name the two classes with the rules of their literals.
unfoldable replay_classifications : List (String × LockedReplayPolicy)
replay_classifications =
    ("adapter_key_rotation", task5_default)
    ∷ ("adapter_key_rotation_ack", task5_default)
    ∷ ("adapter_protocol_error", task5_default)
    ∷ ("authorization_revision_ack", task5_default)
    ∷ ("authorization_revision_update", task5_default)
    ∷ ("bridge_key_rotation", task5_default)
    ∷ ("bridge_key_rotation_ack", task5_default)
    ∷ ("bridge_ping", task5_default)
    ∷ ("bridge_protocol_error", task5_default)
    ∷ ("capability_manifest", task5_default)
    ∷ ("data_query_grant_ack", task5_default)
    ∷ ("data_query_grant_update", task5_default)
    ∷ ("device_key_rotation", task5_default)
    ∷ ("device_key_rotation_ack", task5_default)
    ∷ ("device_ping", task5_default)
    ∷ ("device_event", task5_default)
    ∷ ("event_ack", task5_default)
    ∷ ("device_presence", task5_default)
    ∷ ("device_protocol_error", task5_default)
    ∷ ("operation_cancel", operation_security_ledger)
    ∷ ("operation_command", operation_security_ledger)
    ∷ ("operation_get", operation_security_ledger)
    ∷ ("operation_receipt", operation_security_ledger)
    ∷ ("operation_receipt_ack", operation_security_ledger)
    ∷ ("operation_reconcile", operation_security_ledger)
    ∷ ("operation_snapshot", operation_security_ledger)
    ∷ ("operation_submit", operation_security_ledger)
    ∷ ("operation_wait", operation_security_ledger)
    ∷ ("receipt_replay", operation_security_ledger)
    ∷ []

has_literals : ReplayClassification → LockedReplayPolicy → Bool
unfolding literals
has_literals c policy =
    str_eq c.class_id (literals policy).class_id
    && str_eq c.retention_rule_id (literals policy).retention_rule_id

policy_with : Option ReplayClassification → Option LockedReplayPolicy
unfolding has_literals
policy_with none = none
policy_with (some c) =
    if has_literals c task5_default
    then some task5_default
    else if has_literals c operation_security_ledger
    then some operation_security_ledger
    else none

classification : Option LockedReplayPolicy → Option ReplayClassification
unfolding literals
classification none = none
classification (some policy) = some (literals policy)

unfoldable pub policy_for_message_type : String → Option LockedReplayPolicy
unfolding policy_with classification replay_classifications
policy_for_message_type type = policy_with (classification (get type replay_classifications))

ping_policy : policy_for_message_type "device_ping" ≡ some task5_default
unfolding policy_for_message_type get
ping_policy = refl

cancel_policy : policy_for_message_type "operation_cancel" ≡ some operation_security_ledger
unfolding policy_for_message_type get
cancel_policy = refl

no_policy : policy_for_message_type "device_pong" ≡ none
unfolding policy_for_message_type get
no_policy = refl
