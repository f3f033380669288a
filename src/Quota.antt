-- ===== src/Quota.antt =====
-- protocol/src/operation-ledger-quota.ts: what a row of the security ledger is charged, and the
-- admission of charges. Sizes may be negative where the code tests it.
pub mod Bounds
mod Tests
use agent_life.Shared.{
  ℕ, suc, ◌+◌, ◌*◌, String, Bool, true, false, not, ◌&&◌, ◌||◌, ◌==◌, Option, none, some, List, [],
  ◌∷◌, length, ltb, leb, is_none, str_eq, Failure, Result, ok, err, ◌>>=◌, ◌>>◌, require,
  if◌then◌else◌, raw_wire_too_large, receipt_too_large, intent_metadata_too_large,
  tombstone_too_large, security_ledger_full, invalid_security_charge, invalid_security_tombstone,
}
use agent_life.Shared.Int.{ℤ, pos, negsuc}
use agent_life.Shared.Text.{decimal_text}

-- SECURITY_LEDGER_LIMITS.
abbrev pub max_rows : ℕ
max_rows = 16384

abbrev pub inbound_raw_wire_bytes : ℕ
inbound_raw_wire_bytes = 262144

abbrev pub receipt_reservation_bytes : ℕ
receipt_reservation_bytes = 262144

abbrev pub intent_metadata_bytes : ℕ
intent_metadata_bytes = 65536

abbrev pub tombstone_bytes : ℕ
tombstone_bytes = 2048

abbrev pub max_charged_bytes : ℕ
max_charged_bytes = 9663676416

pub data SecurityRowPhase : Type 0 where
  pending abandoned finalized tombstone : SecurityRowPhase

pub record SecurityQuotaState : Type 0 where
  pub rows : ℤ
  pub charged_bytes : ℤ

pub record SecurityCharge : Type 0 where
  pub phase : SecurityRowPhase
  pub raw_wire_bytes : Option ℤ
  pub receipt_bytes : Option ℤ
  pub intent_metadata_bytes : Option ℤ
  pub tombstone_bytes : Option ℤ

abbrev pub is_non_negative : ℤ → Bool
is_non_negative (pos n) = true
is_non_negative (negsuc n) = false

abbrev pub is_positive : ℤ → Bool
is_positive (pos n) = leb 1 n
is_positive (negsuc n) = false

abbrev pub above : ℤ → ℕ → Bool
above (pos n) limit = ltb limit n
above (negsuc n) limit = false

-- A number that was tested not to be negative.
abbrev pub amount : ℤ → ℕ
amount (pos n) = n
amount (negsuc n) = 0

-- `value ?? 0n`.
abbrev pub or_zero : Option ℤ → ℤ
or_zero none = pos 0
or_zero (some z) = z

abbrev pub is_tombstone : SecurityRowPhase → Bool
is_tombstone tombstone = true
is_tombstone _ = false

-- A size that has to be positive and within its limit, and the errors otherwise.
unfoldable pub sized : ℤ → ℕ → Failure → Result (Unit {0})
sized value limit too_large =
    require (is_positive value && not (above value limit))
      (if above value limit then too_large else invalid_security_charge)

-- The charge of a row by its phase, once the raw bytes and the metadata were tested.
unfoldable pub charge_phase : SecurityCharge → SecurityRowPhase → ℤ → ℤ → Result ℕ
unfolding sized
charge_phase input pending raw metadata = do
  require (is_none input.receipt_bytes) invalid_security_charge
  ok (amount raw + receipt_reservation_bytes + amount metadata)
charge_phase input abandoned raw metadata = do
  require (is_none input.receipt_bytes) invalid_security_charge
  ok (amount raw + receipt_reservation_bytes + amount metadata)
charge_phase input finalized raw metadata = do
  sized (or_zero input.receipt_bytes) receipt_reservation_bytes receipt_too_large
  ok (amount raw + amount (or_zero input.receipt_bytes) + amount metadata)
charge_phase input tombstone raw metadata = do
  sized (or_zero input.tombstone_bytes) tombstone_bytes tombstone_too_large
  require
      (is_non_negative raw
        && amount raw == 0
        && is_non_negative metadata
        && amount metadata == 0
        && is_none input.receipt_bytes)
      invalid_security_charge
  ok (amount (or_zero input.tombstone_bytes))

unfoldable pub charge_security_row : SecurityCharge → Result ℕ
unfolding charge_phase sized
charge_security_row input = do
  (if is_tombstone input.phase
      then ok tt
      else sized (or_zero input.raw_wire_bytes) inbound_raw_wire_bytes raw_wire_too_large)
  require
      (is_non_negative (or_zero input.intent_metadata_bytes)
        && not (above (or_zero input.intent_metadata_bytes) intent_metadata_bytes))
      intent_metadata_too_large
  charge_phase input input.phase (or_zero input.raw_wire_bytes)
      (or_zero input.intent_metadata_bytes)

-- `chargedBytes > max - charge` is tested as `chargedBytes + charge > max`.
unfoldable pub admit_security_charge : SecurityQuotaState → ℤ → Result SecurityQuotaState
admit_security_charge state charge = do
  require
      (is_non_negative state.rows && is_non_negative state.charged_bytes && is_non_negative charge)
      invalid_security_charge
  require (ltb (amount state.rows) max_rows) security_ledger_full
  require (leb (amount state.charged_bytes + amount charge) max_charged_bytes) security_ledger_full
  ok record {
    rows = pos (suc (amount state.rows));
    charged_bytes = pos (amount state.charged_bytes + amount charge);
  }

pub record SecurityTombstone {ℓ} (V : Type ℓ) : Type ℓ where
  pub envelope_digest : String
  pub message_id : String
  pub message_type : String
  pub sequence : String
  pub space : List (String × V)

-- `canonicalBytes` is a parameter by the length of its result.
module _ {ℓ} {V : Type ℓ} (byte_length : SecurityTombstone V → ℕ) where
  unfoldable pub create_security_tombstone : SecurityTombstone V → Result (SecurityTombstone V)
  create_security_tombstone input = do
    require
        (not (str_eq input.envelope_digest "")
          && not (str_eq input.message_id "")
          && not (str_eq input.message_type "")
          && decimal_text input.sequence
          && leb 1 (length input.space))
        invalid_security_tombstone
    require (leb (byte_length input) tombstone_bytes) tombstone_too_large
    ok input
