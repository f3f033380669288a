-- ===== src/Versions/Tests.antt =====
-- A sample negotiation.
use agent_life.Shared.{
  none, err, version_unsupported, ◌≡◌, refl, String, true, false, List, [], ◌∷◌, ok,
}
use agent_life.Shared.Int.{u64_max}
use agent_life.Shared.Text.{codes, is_decimal, decimal_value}
use agent_life.Shared.Sets.{has}
use agent_life.Versions.{
  VersionRegistryEntry, highest_common, parse_all, canonicals, common, parse_protocol_version,
  parse_parts, split_dot, place, sort_onto, compare_protocol_versions, first_canonical,
  ConnectHello, ConnectWelcome, VerifiedNegotiation, LockedVersionRegistry, verify_welcome,
}
use agent_life.Versions.Highest.{HighestCommon, verify_welcome-Highest}

abbrev registry : List VersionRegistryEntry
registry =
    record { version = "1.0"; negotiable = true }
    ∷ record { version = "1.10"; negotiable = true }
    ∷ record { version = "1.9"; negotiable = true }
    ∷ record { version = "2.0"; negotiable = false }
    ∷ []

abbrev offers : List String
offers = "2.0" ∷ "1.9" ∷ "1.10" ∷ []

selects : highest_common offers registry ≡ ok "1.10"
unfolding highest_common parse_all canonicals common parse_protocol_version parse_parts split_dot
    decimal_value place sort_onto compare_protocol_versions first_canonical has codes is_decimal
    u64_max
selects = refl

abbrev locked_registry : LockedVersionRegistry
locked_registry = record { object = 1; versions = registry }

abbrev digest_of : ConnectHello → String
digest_of h = "digest-1"

abbrev hello : ConnectHello
hello = record { supported_versions = offers; client_nonce = "nonce-1" }

abbrev welcome : ConnectWelcome
welcome = record {
  client_offer_digest = "digest-1";
  client_nonce = "nonce-1";
  selected_protocol = "1.10";
  bridge_nonce = "nonce-2";
  bridge_time = "2026-01-01T00:00:00.000Z";
  command_key_set = record { current = "key-1"; next = none };
  connection_generation = "7";
}

abbrev negotiation : VerifiedNegotiation
negotiation = record {
  selected = "1.10";
  client_offer_digest = "digest-1";
  client_nonce = "nonce-1";
  bridge_nonce = "nonce-2";
  bridge_time = "2026-01-01T00:00:00.000Z";
  command_key_set = record { current = "key-1"; next = none };
  connection_generation = "7";
}

negotiates : verify_welcome digest_of 1 welcome hello locked_registry ≡ ok negotiation
unfolding verify_welcome highest_common parse_all canonicals common parse_protocol_version
    parse_parts split_dot decimal_value place sort_onto compare_protocol_versions first_canonical
    has codes is_decimal u64_max
negotiates = refl

another_registry :
    verify_welcome digest_of 2 welcome hello locked_registry ≡ err version_unsupported
unfolding verify_welcome
another_registry = refl

verify_welcome-Highest_example :
    HighestCommon offers registry "1.10"
    × (locked_registry.object ≡ 1)
    × (welcome.selected_protocol ≡ negotiation.selected)
    × (welcome.client_offer_digest ≡ negotiation.client_offer_digest)
    × (welcome.client_nonce ≡ hello.client_nonce)
verify_welcome-Highest_example =
    verify_welcome-Highest digest_of 1 welcome hello locked_registry negotiation negotiates
