-- ===== src/Quota/Tests.antt =====
-- Sample rows of the security ledger, and the theorems at them.
use agent_life.Shared.{◌≡◌, ◌<◌, refl, none, some, [], ◌∷◌, ok, arith, ℕ, List}
use agent_life.Shared.Int.{pos}
use agent_life.Quota.{
  pending, finalized, SecurityQuotaState, SecurityCharge, charge_phase, sized, charge_security_row,
  admit_security_charge,
}
use agent_life.Quota.Bounds.{admit_all, byte_limit_never_reached}

abbrev request : SecurityCharge
request = record {
  phase = pending;
  raw_wire_bytes = some (pos 100);
  receipt_bytes = none;
  intent_metadata_bytes = some (pos 10);
  tombstone_bytes = none;
}

abbrev answered : SecurityCharge
answered = record request { phase = finalized; receipt_bytes = some (pos 50) }

request_charge : charge_security_row request ≡ ok 262254
unfolding charge_security_row charge_phase sized
request_charge = refl

answered_charge : charge_security_row answered ≡ ok 160
unfolding charge_security_row charge_phase sized
answered_charge = refl

abbrev empty : SecurityQuotaState
empty = record { rows = pos 0; charged_bytes = pos 0 }

abbrev charges : List ℕ
charges = 262254 ∷ 160 ∷ []

abbrev charged : SecurityQuotaState
charged = record { rows = pos 2; charged_bytes = pos 262414 }

charges_admitted : admit_all empty charges ≡ ok charged
unfolding admit_all admit_security_charge
charges_admitted = refl

room : 2 < 16384
room = omega arith

byte_limit_never_reached_example :
    admit_security_charge charged (pos 160)
    ≡ ok (record { rows = pos 3; charged_bytes = pos 262574 })
byte_limit_never_reached_example =
    byte_limit_never_reached charges charged answered 160
      ((request, request_charge), ((answered, answered_charge), tt)) charges_admitted room
      answered_charge
