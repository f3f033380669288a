-- ===== src/Quota/Bounds.antt =====
-- The bounds of charges, of a row's charges over its phases, and of admitted sums.
use agent_life.Shared.{
  ℕ, suc, ◌+◌, ◌*◌, ◌≡◌, ◌≤◌, ◌<◌, ◌⊎◌, refl, List, [], ◌∷◌, length, All, arith, Result, ok, ◌>>=◌,
}
use agent_life.Shared.Int.{ℤ, pos}
use agent_life.Quota.{
  SecurityRowPhase, pending, abandoned, finalized, tombstone, SecurityQuotaState, SecurityCharge,
  charge_phase, charge_security_row, admit_security_charge, max_rows, max_charged_bytes, amount,
  or_zero, sized,
}

-- The most that a row is charged: raw bytes, a reserved receipt and metadata.
abbrev row_limit : ℕ
row_limit = 589824

abbrev Sized : SecurityRowPhase → ℤ → Type 0
Sized tombstone raw = Unit
Sized _ raw = (1 ≤ amount raw) × (amount raw ≤ 262144)

charge_phase-bounds :
    (input : SecurityCharge) (p : SecurityRowPhase) (raw metadata : ℤ) (c : ℕ)
    → Sized p raw
    → amount metadata ≤ 65536
    → charge_phase input p raw metadata ≡ ok c
    → (1 ≤ c) × (c ≤ row_limit)
unfolding charge_phase sized
charge_phase-bounds input pending raw metadata c (low, high) m h = ground arith
charge_phase-bounds input abandoned raw metadata c (low, high) m h = ground arith
charge_phase-bounds input finalized raw metadata c (low, high) m h = ground arith
charge_phase-bounds input tombstone raw metadata c _ m h = ground arith

charged-Sized :
    (input : SecurityCharge) (p : SecurityRowPhase) {c : ℕ}
    → input.phase ≡ p
    → charge_security_row input ≡ ok c
    → Sized p (or_zero input.raw_wire_bytes)
unfolding charge_security_row sized
charged-Sized input pending e h = ground arith
charged-Sized input abandoned e h = ground arith
charged-Sized input finalized e h = ground arith
charged-Sized input tombstone e h = tt

charged-metadata :
    (input : SecurityCharge) {c : ℕ}
    → charge_security_row input ≡ ok c
    → amount (or_zero input.intent_metadata_bytes) ≤ 65536
unfolding charge_security_row sized
charged-metadata input h = ground arith

charged-phase :
    (input : SecurityCharge) {c : ℕ}
    → charge_security_row input ≡ ok c
    → charge_phase input input.phase
        (or_zero input.raw_wire_bytes)
        (or_zero input.intent_metadata_bytes)
      ≡ ok c
unfolding charge_security_row
charged-phase input h = ground arith

-- A row is charged at least one byte and at most 589824, in every phase.
charge_security_row-bounds :
    (input : SecurityCharge) (c : ℕ) → charge_security_row input ≡ ok c → (1 ≤ c) × (c ≤ row_limit)
charge_security_row-bounds input c h =
    charge_phase-bounds input input.phase (or_zero input.raw_wire_bytes)
      (or_zero input.intent_metadata_bytes) c (charged-Sized input input.phase refl h)
      (charged-metadata input h) (charged-phase input h)

charge_phase-covers :
    (one two : SecurityCharge) (q : SecurityRowPhase) (raw metadata raw' metadata' : ℤ) (c d : ℕ)
    → ((q ≡ tombstone) ⊎ ((raw' ≡ raw) × (metadata' ≡ metadata)))
    → charge_phase one pending raw metadata ≡ ok c
    → charge_phase two q raw' metadata' ≡ ok d
    → d ≤ c
unfolding charge_phase sized
charge_phase-covers one two pending raw m raw' m' c d same h k = ground arith
charge_phase-covers one two abandoned raw m raw' m' c d same h k = ground arith
charge_phase-covers one two finalized raw m raw' m' c d same h k = ground arith
charge_phase-covers one two tombstone raw m raw' m' c d same h k = ground arith

-- The charge of a pending row covers what the row is charged later: abandoned or finalized with the
-- same raw bytes and metadata, or compacted to a tombstone.
reservation_covers :
    (one two : SecurityCharge) (c d : ℕ)
    → one.phase ≡ pending
    → (two.phase ≡ tombstone)
      ⊎ ((two.raw_wire_bytes ≡ one.raw_wire_bytes)
          × (two.intent_metadata_bytes ≡ one.intent_metadata_bytes))
    → charge_security_row one ≡ ok c
    → charge_security_row two ≡ ok d
    → d ≤ c
reservation_covers one two c d p same h k =
    charge_phase-covers one two two.phase (or_zero one.raw_wire_bytes)
      (or_zero one.intent_metadata_bytes) (or_zero two.raw_wire_bytes)
      (or_zero two.intent_metadata_bytes) c d (ground arith) (ground (arith, charged-phase one h))
      (charged-phase two k)

-- The charges of rows, admitted one after another.
unfoldable pub admit_all : SecurityQuotaState → List ℕ → Result SecurityQuotaState
admit_all state [] = ok state
admit_all state (c ∷ cs) = admit_security_charge state (pos c) >>= (λ next. admit_all next cs)

abbrev pub sum : List ℕ → ℕ
sum [] = 0
sum (c ∷ cs) = c + sum cs

admit_all-counts :
    (r b : ℕ) (cs : List ℕ) (s : SecurityQuotaState)
    → admit_all (record { rows = pos r; charged_bytes = pos b }) cs ≡ ok s
    → (s.rows ≡ pos (r + length cs))
      × (s.charged_bytes ≡ pos (b + sum cs))
      × ((r ≤ max_rows) → (r + length cs ≤ max_rows))
      × ((b ≤ max_charged_bytes) → (b + sum cs ≤ max_charged_bytes))
unfolding admit_all admit_security_charge
admit_all-counts r b [] s h =
    (ground arith, ground arith, λ l. omega (arith, l), λ l. omega (arith, l))
admit_all-counts r b (c ∷ cs) s h =
    let rest = admit_all-counts (suc r) (b + c) cs s (ground arith) in
    (ground (arith, rest), ground (arith, rest), ground (arith, rest), ground (arith, rest))

-- Charges of rows that were admitted from the empty ledger: as many as rows are charged and as
-- many bytes as their sum, within both limits.
admit_all-limits :
    (cs : List ℕ) (s : SecurityQuotaState)
    → admit_all (record { rows = pos 0; charged_bytes = pos 0 }) cs ≡ ok s
    → (s.rows ≡ pos (length cs))
      × (s.charged_bytes ≡ pos (sum cs))
      × (length cs ≤ max_rows)
      × (sum cs ≤ max_charged_bytes)
admit_all-limits cs s h =
    let (rows, bytes, few, small) = admit_all-counts 0 0 cs s h in
    (ground (arith, rows), ground (arith, bytes), ground (arith, few), ground (arith, small))

-- The charges of `chargeSecurityRow`.
abbrev pub Charges : List ℕ → Type 0
Charges = All (λ c. (input : SecurityCharge) × (charge_security_row input ≡ ok c))

Charges-sum : (cs : List ℕ) → Charges cs → sum cs ≤ row_limit * length cs
Charges-sum [] h = omega arith
Charges-sum (c ∷ cs) ((input, e), h) =
    omega (arith, charge_security_row-bounds input c e, Charges-sum cs h)

-- Rows that are charged by `chargeSecurityRow` never run into the byte limit: as long as fewer than
-- 16384 were admitted from the empty ledger, the next one is.
pub byte_limit_never_reached :
    (cs : List ℕ) (s : SecurityQuotaState) (input : SecurityCharge) (c : ℕ)
    → Charges cs
    → admit_all (record { rows = pos 0; charged_bytes = pos 0 }) cs ≡ ok s
    → length cs < max_rows
    → charge_security_row input ≡ ok c
    → admit_security_charge s (pos c)
      ≡ ok (record { rows = pos (suc (length cs)); charged_bytes = pos (sum cs + c) })
unfolding admit_security_charge
byte_limit_never_reached cs s input c charges h room e =
    let (rows, bytes, _, _) = admit_all-limits cs s h in
    let (_, high) = charge_security_row-bounds input c e in
    let total = Charges-sum cs charges in
    let small : sum cs + c ≤ max_charged_bytes = omega arith in ground arith
