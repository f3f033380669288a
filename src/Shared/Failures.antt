-- ===== src/Shared/Failures.antt =====
-- The errors that the protocol modules throw, `new Error("…")`, as values.
use mathlib.Core.Bool.{Bool, true, false}

pub data Failure : Type 0 where
  schema_invalid invalid_state_transition auth_failed integrity_failed not_authorized : Failure
  version_unsupported auth_binding_mismatch connection_fenced retry_after_required : Failure
  raw_wire_too_large receipt_too_large intent_metadata_too_large tombstone_too_large : Failure
  security_ledger_full invalid_security_charge invalid_security_tombstone invalid_time
        outcome_unknown :
      Failure
  pairing_generation_stale grant_stale constraint_violated non_canonical_json scope_denied
        not_found :
      Failure

pub data Result {ℓ} (T : Type ℓ) : Type ℓ where
  ok : T → Result T
  err : Failure → Result T

infixl 5 ◌>>=◌ ◌>>◌
abbrev pub ◌>>=◌ {ℓ κ} : {T : Type ℓ} {U : Type κ} → Result T → (T → Result U) → Result U
err thrown >>= rest = err thrown
ok value >>= rest = rest value

-- `if (!test) throw new Error(thrown)`.
abbrev pub require : Bool → Failure → Result (Unit {0})
require false thrown = err thrown
require true thrown = ok tt

abbrev pub ◌>>◌ {ℓ} : {U : Type ℓ} → Result (Unit {0}) → Result U → Result U
check >> rest = check >>= (λ _. rest)
