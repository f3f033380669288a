-- ===== src/ReplayLedger/Sums.antt =====
-- The number and the bytes of a space's rows, as a row is put in, replaced or removed.
use agent_life.Shared.{
  ℕ, ◌+◌, String, ◌≡◌, refl, sym, ap, ◌∙◌, inl, inr, none, some, List, [], ◌∷◌, str_eq, Bool-cases,
  if◌then◌else◌, arith,
}
use agent_life.Shared.Int.{ℤ, pos, ◌+ℤ◌, +ℤ_assoc, +ℤ_comm}
use agent_life.Shared.Dict.{get, set, remove}
use agent_life.ReplayLedger.{LedgerRow, in_space}

-- What a row adds to the counters of a space.
abbrev pub one_in : String → LedgerRow → ℕ
one_in key row = if in_space key row then 1 else 0

abbrev pub bytes_in : String → LedgerRow → ℤ
bytes_in key row = if in_space key row then row.retained_bytes else pos 0

unfoldable pub count : String → List (String × LedgerRow) → ℕ
count key [] = 0
count key ((_, row) ∷ rows) = one_in key row + count key rows

unfoldable pub bytes : String → List (String × LedgerRow) → ℤ
bytes key [] = pos 0
bytes key ((_, row) ∷ rows) = bytes_in key row +ℤ bytes key rows

swap : (x y z : ℤ) → x +ℤ (y +ℤ z) ≡ y +ℤ (x +ℤ z)
swap x y z = sym (+ℤ_assoc x y z) ∙ ap (λ s. s +ℤ z) (+ℤ_comm x y) ∙ +ℤ_assoc y x z

pub count-new :
    (key message : String) (row : LedgerRow) (rows : List (String × LedgerRow))
    → get message rows ≡ none
    → count key (set message row rows) ≡ one_in key row + count key rows
unfolding count get set
count-new key message row [] free = ground arith
count-new key message row ((j, other) ∷ rows) free = ground (arith, count-new key message row rows)

pub bytes-new :
    (key message : String) (row : LedgerRow) (rows : List (String × LedgerRow))
    → get message rows ≡ none
    → bytes key (set message row rows) ≡ bytes_in key row +ℤ bytes key rows
unfolding bytes get set
bytes-new key message row [] free = refl
bytes-new key message row ((j, other) ∷ rows) free = elim (Bool-cases (str_eq j message)) [
  | inl hit ↦ absurd (ground arith)
  | inr miss ↦
      rw (miss, set)
        (ap (λ s. bytes_in key other +ℤ s) (bytes-new key message row rows (ground arith))
          ∙ swap (bytes_in key other) (bytes_in key row) (bytes key rows))
]

pub count-removed :
    (key message : String) (rows : List (String × LedgerRow)) {row : LedgerRow}
    → get message rows ≡ some row
    → count key rows ≡ one_in key row + count key (remove message rows)
unfolding count get remove
count-removed key message [] h = absurd (ground arith)
count-removed key message ((j, other) ∷ rows) {row} h =
    ground (arith, count-removed key message rows {row = row})

pub bytes-removed :
    (key message : String) (rows : List (String × LedgerRow)) {row : LedgerRow}
    → get message rows ≡ some row
    → bytes key rows ≡ bytes_in key row +ℤ bytes key (remove message rows)
unfolding bytes get remove
bytes-removed key message [] h = absurd (ground arith)
bytes-removed key message ((j, other) ∷ rows) {row} h = elim (Bool-cases (str_eq j message)) [
  | inl hit ↦ rw (hit, remove) (ground arith)
  | inr miss ↦
      rw (miss, remove)
        (ap (λ s. bytes_in key other +ℤ s)
            (bytes-removed key message rows {row = row} (ground arith))
          ∙ swap (bytes_in key other) (bytes_in key row) (bytes key (remove message rows)))
]

-- A row is replaced by one of the same space.
pub count-replaced :
    (key message : String) (rows : List (String × LedgerRow)) (row' : LedgerRow) {row : LedgerRow}
    → get message rows ≡ some row
    → row'.claim ≡ row.claim
    → count key (set message row' rows) ≡ count key rows
unfolding count get set in_space
count-replaced key message [] row' h same = absurd (ground arith)
count-replaced key message ((j, other) ∷ rows) row' {row} h same =
    elim (Bool-cases (str_eq j message)) [
      | inl hit ↦ rw (hit, set) (ground arith)
      | inr miss ↦
          rw (miss, set)
            (ap (λ n. one_in key other + n)
              (count-replaced key message rows row' {row = row} (ground arith) same))
    ]

pub bytes-replaced :
    (key message : String) (rows : List (String × LedgerRow)) (row' : LedgerRow) {row : LedgerRow}
    → get message rows ≡ some row
    → bytes_in key row +ℤ bytes key (set message row' rows) ≡ bytes_in key row' +ℤ bytes key rows
unfolding bytes get set
bytes-replaced key message [] row' h = absurd (ground arith)
bytes-replaced key message ((j, other) ∷ rows) row' {row} h = elim (Bool-cases (str_eq j message)) [
  | inl hit ↦
      rw (hit, set)
        (swap (bytes_in key row) (bytes_in key row') (bytes key rows)
          ∙ ap (λ x. bytes_in key row' +ℤ (bytes_in key x +ℤ bytes key rows))
              (some_eq (ground arith)))
  | inr miss ↦
      rw (miss, set)
        (swap (bytes_in key row) (bytes_in key other) (bytes key (set message row' rows))
          ∙ ap (λ s. bytes_in key other +ℤ s)
              (bytes-replaced key message rows row' {row = row} (ground arith))
          ∙ swap (bytes_in key other) (bytes_in key row') (bytes key rows))
]
  where
    some_eq : some other ≡ some row → row ≡ other
    some_eq e = ground arith
