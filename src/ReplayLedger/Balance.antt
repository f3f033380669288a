-- ===== src/ReplayLedger/Balance.antt =====
-- The capacity counters of a space are the number and the bytes of its rows.
use agent_life.Shared.{
  ℕ, ◌+◌, ◌≤◌, String, true, false, ◌≡◌, refl, sym, subst, ap, ◌∙◌, inl, inr, Option, none, some,
  List, str_eq, eq_iff, Bool-cases, arith,
}
use agent_life.Shared.Int.{ℤ, pos, exceeds, ◌+ℤ◌, ◌-ℤ◌, +ℤ_assoc, +ℤ_comm, +ℤ_zero, -ℤ_cancel, neg}
use agent_life.Shared.Dict.{get, set, get-set, remove}
use agent_life.ReplayLedger.{
  replay_space_key, LedgerRow, Capacity, capacity_or_zero, in_space, receipt_byte_budget,
}
use agent_life.ReplayLedger.Compact.{lower}
use agent_life.ReplayLedger.Settle.{settled_bytes}
use agent_life.ReplayLedger.Sums.{
  bytes_in, count, bytes, count-new, bytes-new, count-removed, bytes-removed, count-replaced,
  bytes-replaced,
}

-- The counters of a space, if it has any, are what its rows sum up to.
unfoldable pub Balanced : String → List (String × LedgerRow) → Option Capacity → Type 0
Balanced key rows none = (count key rows ≡ 0) × (bytes key rows ≡ pos 0)
Balanced key rows (some c) =
    (c.rows ≡ pos (count key rows)) × (c.retained_bytes ≡ bytes key rows) × (count key rows ≤ 4096)

pub Balanced-totals :
    (key : String) (rows : List (String × LedgerRow)) (o : Option Capacity)
    → Balanced key rows o
    → ((capacity_or_zero o).rows ≡ pos (count key rows))
      × ((capacity_or_zero o).retained_bytes ≡ bytes key rows)
      × (count key rows ≤ 4096)
unfolding Balanced
Balanced-totals key rows none (n, b) = (ap pos (sym n), sym b, omega arith)
Balanced-totals key rows (some c) h = h

same-Balanced :
    (key : String) (rows rows' : List (String × LedgerRow)) (o : Option Capacity)
    → count key rows' ≡ count key rows
    → bytes key rows' ≡ bytes key rows
    → Balanced key rows o
    → Balanced key rows' o
unfolding Balanced
same-Balanced key rows rows' none n b h = rw (n, b) h
same-Balanced key rows rows' (some c) n b h = rw (n, b) h

in_space-eq :
    (key : String) (row : LedgerRow)
    → in_space key row ≡ str_eq (replay_space_key row.claim.space) key
unfolding in_space
in_space-eq key row = refl

one_more :
    (n : ℕ) (c : Capacity)
    → c.rows ≡ pos n
    → exceeds (c.rows +ℤ pos 1) 4096 ≡ false
    → (c.rows +ℤ pos 1 ≡ pos (1 + n)) × (1 + n ≤ 4096)
unfolding ◌+ℤ◌
one_more n c r room = (ground arith, ground arith)

-- A row that is put in.
pub new_row-Balanced :
    (key place message : String) (row : LedgerRow) (rows : List (String × LedgerRow))
    (capacities : List (String × Capacity))
    → replay_space_key row.claim.space ≡ place
    → get message rows ≡ none
    → (let c = capacity_or_zero (get place capacities) in
        exceeds (c.rows +ℤ pos 1) 4096 ≡ false
        → Balanced key rows (get key capacities)
        → Balanced key (set message row rows) (
            get key (
              set place
                (record {
                  rows = c.rows +ℤ pos 1;
                  retained_bytes = c.retained_bytes +ℤ row.retained_bytes;
                })
                capacities)))
unfolding Balanced
new_row-Balanced key place message row rows capacities home free room h =
    let c = capacity_or_zero (get place capacities) in
    let c' : Capacity = record {
      rows = c.rows +ℤ pos 1;
      retained_bytes = c.retained_bytes +ℤ row.retained_bytes;
    } in
    elim (Bool-cases (str_eq place key)) [
      | inl same ↦
          let at : place ≡ key = (eq_iff place key).0 same in
          let inside : in_space key row ≡ true =
            in_space-eq key row ∙ ap (λ k. str_eq k key) home ∙ same in
          let totals = Balanced-totals key rows (get key capacities) h in
          let c_is : c ≡ capacity_or_zero (get key capacities) =
            ap (λ k. capacity_or_zero (get k capacities)) at in
          let counted = one_more (count key rows) c (ap Capacity.rows c_is ∙ totals.0) room in
          rw
            (
              get-set place key c' capacities,
              same,
              count-new key message row rows free,
              bytes-new key message row rows free,
              inside,
            )
            (
              counted.0,
              +ℤ_comm c.retained_bytes row.retained_bytes
                  ∙ ap (λ b. row.retained_bytes +ℤ b) (ap Capacity.retained_bytes c_is ∙ totals.1),
              counted.1,
            )
      | inr other ↦
          let outside : in_space key row ≡ false =
            in_space-eq key row ∙ ap (λ k. str_eq k key) home ∙ other in
          rw (get-set place key c' capacities, other)
            (same-Balanced key rows (set message row rows) (get key capacities)
              (count-new key message row rows free ∙ rw outside (omega arith))
              (bytes-new key message row rows free ∙ rw outside (+ℤ_zero (bytes key rows))) h)
    ]

one_less :
    (n : ℕ) (c : Capacity)
    → c.rows ≡ pos (1 + n)
    → 1 + n ≤ 4096
    → (c.rows -ℤ pos 1 ≡ pos n) × (n ≤ 4096)
unfolding ◌-ℤ◌
one_less n c r few = (ground arith, omega arith)

bytes_less : (x y z : ℤ) → x ≡ y +ℤ z → x -ℤ y ≡ z
bytes_less x y z e = ap (λ s. s -ℤ y) e ∙ -ℤ_cancel z y

lowered-Balanced :
    (key message : String) (row : LedgerRow) (rows : List (String × LedgerRow)) (c : Capacity)
    → get message rows ≡ some row
    → in_space key row ≡ true
    → Balanced key rows (some c)
    → Balanced key (remove message rows) (
        some (record {
          rows = c.rows -ℤ pos 1;
          retained_bytes = c.retained_bytes -ℤ row.retained_bytes;
        }))
unfolding Balanced
lowered-Balanced key message row rows c found inside (n, b, few) =
    let counted : count key rows ≡ 1 + count key (remove message rows) =
      count-removed key message rows found ∙ rw inside refl in
    let summed : bytes key rows ≡ row.retained_bytes +ℤ bytes key (remove message rows) =
      bytes-removed key message rows found ∙ rw inside refl in
    let less = one_less (count key (remove message rows)) c (n ∙ ap pos counted) (ground arith) in
    (less.0, bytes_less c.retained_bytes row.retained_bytes _ (b ∙ summed), less.1)

-- A row that is deleted.
pub deleted-Balanced :
    (key place message : String) (row : LedgerRow) (rows : List (String × LedgerRow))
    (capacities : List (String × Capacity)) (o : Option Capacity)
    → get message rows ≡ some row
    → in_space place row ≡ true
    → get place capacities ≡ o
    → Balanced key rows (get key capacities)
    → Balanced key (remove message rows) (get key (lower place row.retained_bytes capacities o))
unfolding lower
deleted-Balanced key place message row rows capacities o found inside e h =
    elim (Bool-cases (str_eq place key)) [
      | inl same ↦
          let at : place ≡ key = (eq_iff place key).0 same in
          let within : in_space key row ≡ true = subst (λ k. in_space k row ≡ true) at inside in
          here_deleted o same (sym (ap (λ k. get k capacities) at) ∙ e) within
      | inr other ↦
          let outside : in_space key row ≡ false = in_space-eq key row ∙ elsewhere other in
          subst (Balanced key (remove message rows)) (sym (untouched o other)) (
            same-Balanced key rows (remove message rows) (get key capacities)
              (sym (count-removed key message rows found ∙ rw outside (omega arith)))
              (sym (bytes-removed key message rows found ∙ rw outside (+ℤ_zero _))) h)
    ]
  where
    elsewhere : str_eq place key ≡ false → str_eq (replay_space_key row.claim.space) key ≡ false
    elsewhere other =
        ground (arith, eq_iff (replay_space_key row.claim.space) place, in_space-eq place row)

    untouched :
        (o : Option Capacity)
        → str_eq place key ≡ false
        → get key (lower place row.retained_bytes capacities o) ≡ get key capacities
    untouched none other = unfold lower in refl
    untouched (some c) other = unfold lower in (get-set place key _ capacities ∙ rw other refl)

    here_deleted :
        (o : Option Capacity)
        → str_eq place key ≡ true
        → get key capacities ≡ o
        → in_space key row ≡ true
        → Balanced key (remove message rows) (get key (lower place row.retained_bytes capacities o))
    here_deleted none same e within = absurd (
        unfold Balanced in
        (ground (arith, count-removed key message rows found, subst (Balanced key rows) e h)))
    here_deleted (some c) same e within =
        unfold lower in
        (subst (Balanced key (remove message rows))
          (sym (get-set place key _ capacities ∙ rw same refl))
          (lowered-Balanced key message row rows c found within (subst (Balanced key rows) e h)))

Balanced-some :
    (key : String) (rows : List (String × LedgerRow)) (c : Capacity)
    → Balanced key rows (some c)
    → (c.rows ≡ pos (count key rows))
      × (c.retained_bytes ≡ bytes key rows)
      × (count key rows ≤ 4096)
unfolding Balanced
Balanced-some key rows c h = h

add_cancel : (r x y : ℤ) → r +ℤ x ≡ r +ℤ y → x ≡ y
add_cancel r x y e = sym (-ℤ_cancel x r) ∙ ap (λ s. s -ℤ r) e ∙ -ℤ_cancel y r

settled_sum : (r b x : ℤ) (n : ℕ) → r +ℤ x ≡ settled_bytes r n +ℤ b → x ≡ settled_bytes b n
unfolding ◌-ℤ◌
settled_sum r b x n e =
    let d : ℤ = neg (pos receipt_byte_budget) +ℤ pos n in
    add_cancel r x (settled_bytes b n) (
      e
      ∙ ap (λ s. s +ℤ b) (+ℤ_assoc r (neg (pos receipt_byte_budget)) (pos n))
      ∙ +ℤ_assoc r d b
      ∙ ap (λ s. r +ℤ s) (+ℤ_comm d b ∙ sym (+ℤ_assoc b (neg (pos receipt_byte_budget)) (pos n))))

-- A row that is replaced by one of the same claim with the same bytes.
pub kept_row-Balanced :
    (key message : String) (row row' : LedgerRow) (rows : List (String × LedgerRow))
    (o : Option Capacity)
    → get message rows ≡ some row
    → row'.claim ≡ row.claim
    → row'.retained_bytes ≡ row.retained_bytes
    → Balanced key rows o
    → Balanced key (set message row' rows) o
kept_row-Balanced key message row row' rows o found same bytes_same h =
    same-Balanced key rows (set message row' rows) o
      (count-replaced key message rows row' found same)
      (add_cancel (bytes_in key row) _ _
        (bytes-replaced key message rows row' found ∙ ap (λ s. s +ℤ bytes key rows) same_share))
      h
  where
    same_share : bytes_in key row' ≡ bytes_in key row
    same_share = unfold in_space in (rw (same, bytes_same) refl)

-- A row whose receipt is stored: its bytes and the counter change by the same amount.
pub settled-Balanced :
    (key place message : String) (row row' : LedgerRow) (rows : List (String × LedgerRow))
    (capacities : List (String × Capacity)) (c : Capacity) (n : ℕ)
    → get message rows ≡ some row
    → replay_space_key row.claim.space ≡ place
    → row'.claim ≡ row.claim
    → row'.retained_bytes ≡ settled_bytes row.retained_bytes n
    → get place capacities ≡ some c
    → Balanced key rows (get key capacities)
    → Balanced key (set message row' rows) (
        get key
          (set place (record c { retained_bytes = settled_bytes c.retained_bytes n }) capacities))
settled-Balanced key place message row row' rows capacities c n found home same settled e h =
    elim (Bool-cases (str_eq place key)) [
      | inl hit ↦ inside hit ((eq_iff place key).0 hit)
      | inr miss ↦ outside miss
    ]
  where
    lowered : Capacity
    lowered = record c { retained_bytes = settled_bytes c.retained_bytes n }

    share : in_space key row' ≡ in_space key row
    share = unfold in_space in (rw same refl)

    located : in_space key row ≡ str_eq place key
    located = in_space-eq key row ∙ ap (λ k. str_eq k key) home

    inside :
        str_eq place key ≡ true
        → place ≡ key
        → Balanced key (set message row' rows) (get key (set place lowered capacities))
    inside hit at =
        let (r, b, few) =
          Balanced-some key rows c
            (subst (Balanced key rows) (sym (ap (λ k. get k capacities) at) ∙ e) h) in
        let swapped = bytes-replaced key message rows row' found in
        let here_row : in_space key row ≡ true = located ∙ hit in
        let new_bytes : bytes key (set message row' rows) ≡ settled_bytes (bytes key rows) n =
          settled_sum row.retained_bytes (bytes key rows) _ n
            (sym (rw here_row refl) ∙ swapped ∙ rw (share, here_row, settled) refl) in
        let read : get key (set place lowered capacities) ≡ some lowered =
          get-set place key lowered capacities ∙ rw hit refl in
        subst (Balanced key (set message row' rows)) (sym read) (
          unfold Balanced in
          (rw (count-replaced key message rows row' found same, new_bytes)
            (r, ap (λ s. settled_bytes s n) b, few)))

    outside :
        str_eq place key ≡ false
        → Balanced key (set message row' rows) (get key (set place lowered capacities))
    outside miss =
        let away : in_space key row ≡ false = located ∙ miss in
        let read : get key (set place lowered capacities) ≡ get key capacities =
          get-set place key lowered capacities ∙ rw miss refl in
        subst (Balanced key (set message row' rows)) (sym read) (
          same-Balanced key rows (set message row' rows) (get key capacities)
            (count-replaced key message rows row' found same)
            (add_cancel (bytes_in key row) _ _
              (bytes-replaced key message rows row' found ∙ rw (share, away) refl))
            h)
