-- ===== src/ReplayLedger/Compaction.antt =====
-- What every deletion keeps, `compact` keeps.
use agent_life.Shared.{
  ℕ, String, Bool, true, ◌≡◌, refl, inl, inr, Option, none, some, List, [], ◌∷◌, eq_iff, Bool-cases,
  arith,
}
use agent_life.Shared.Dict.{get, remove, get-remove, Entries, Distinct, Distinct-remove}
use agent_life.Replay.{ReplayWindowState}
use agent_life.ReplayLedger.{
  ReplaySpace, replay_space_key, LedgerRow, ReplayLedger, window_or_empty, window_of,
}
use agent_life.ReplayLedger.Compact.{
  Removed, removable, delete_row, compact_rows, compact_window, compact,
}

abbrev pub Current : ReplayLedger → List (String × LedgerRow) → Type 0
Current l = Entries (λ message row. get message l.rows ≡ some row)

get-shift :
    (j message : String) (rows : List (String × LedgerRow)) (row : LedgerRow) {v : LedgerRow}
    → get j rows ≡ none
    → get message rows ≡ some v
    → get message ((j, row) ∷ rows) ≡ some v
unfolding get
get-shift j message rows row {v} free h = ground (arith, eq_iff j message)

-- The entries of a dictionary are what `get` reads.
Current-weaken :
    (l : ReplayLedger) (todo rows : List (String × LedgerRow)) (j : String) (row : LedgerRow)
    → get j rows ≡ none
    → Entries (λ message r. get message rows ≡ some r) todo
    → Entries (λ message r. get message ((j, row) ∷ rows) ≡ some r) todo
Current-weaken l [] rows j row free h = tt
Current-weaken l ((message, r) ∷ todo) rows j row free (e, h) =
    (get-shift j message rows row free e, Current-weaken l todo rows j row free h)

get-head :
    (j : String) (row : LedgerRow) (rows : List (String × LedgerRow))
    → get j ((j, row) ∷ rows) ≡ some row
unfolding get
get-head j row rows = ground (arith, eq_iff j j)

Entries-Current :
    (l : ReplayLedger) (rows : List (String × LedgerRow))
    → Distinct rows
    → Entries (λ message row. get message rows ≡ some row) rows
Entries-Current l [] d = tt
Entries-Current l ((j, row) ∷ rows) (free, d) =
    (get-head j row rows, Current-weaken l rows rows j row free (Entries-Current l rows d))

get-removed :
    (j message : String) (l : ReplayLedger) (todo : List (String × LedgerRow)) (row r : LedgerRow)
    → Distinct l.rows
    → get j ((message, r) ∷ todo) ≡ none
    → get message l.rows ≡ some r
    → get message (remove j l.rows) ≡ some r
unfolding get
get-removed j message l todo row r d free e =
    ground (arith, get-remove j message l.rows d, eq_iff message j, eq_iff j message)

get-tail :
    (j message : String) (r : LedgerRow) (todo : List (String × LedgerRow))
    → get j ((message, r) ∷ todo) ≡ none
    → get j todo ≡ none
unfolding get
get-tail j message r todo h = ground arith

delete_row-Current :
    (key j : String) (row : LedgerRow) (l : ReplayLedger) (todo : List (String × LedgerRow))
    → Distinct l.rows
    → get j todo ≡ none
    → Current l todo
    → Current (delete_row key j row l) todo
unfolding delete_row
delete_row-Current key j row l [] d free h = tt
delete_row-Current key j row l ((message, r) ∷ todo) d free (e, h) = (
  get-removed j message l todo row r d free e,
  delete_row-Current key j row l todo d (get-tail j message r todo free) h,
)

module _ (P : ReplayLedger → Type 0) where
  -- Deleting any row that may go keeps P.
  abbrev pub Kept : String → ℕ → Option ℕ → (String → Bool) → Type 0
  Kept key high now can_remove =
      (l : ReplayLedger) (message : String) (row : LedgerRow)
      → P l
      → Distinct l.rows
      → get message l.rows ≡ some row
      → removable key high now can_remove row ≡ true
      → P (delete_row key message row l)

  compact_rows-keeps :
      (key : String) (high : ℕ) (now : Option ℕ) (can_remove : String → Bool)
      (todo : List (String × LedgerRow)) (l : ReplayLedger) (removed : Removed)
      → Kept key high now can_remove
      → Distinct todo
      → Distinct l.rows
      → Current l todo
      → P l
      → P ((compact_rows key high now can_remove todo l removed).0)
        × Distinct ((compact_rows key high now can_remove todo l removed).0.rows)
  unfolding compact_rows
  compact_rows-keeps key high now can_remove [] l removed keep t d h p = (p, d)
  compact_rows-keeps key high now can_remove ((message, row) ∷ todo) l removed keep (free, t) d
        (e, h) p =
      elim (Bool-cases (removable key high now can_remove row)) [
        | inl go ↦
            rw (go, compact_rows)
              (compact_rows-keeps key high now can_remove todo (delete_row key message row l) _ keep
                t (unfold delete_row in (Distinct-remove message l.rows d))
                (delete_row-Current key message row l todo d free h) (keep l message row p d e go))
        | inr stay ↦
            rw (stay, compact_rows)
              (compact_rows-keeps key high now can_remove todo l _ keep t d h p)
      ]

  compact_window-keeps :
      (key : String) (now : Option ℕ) (can_remove : String → Bool) (l : ReplayLedger)
      (o : Option ReplayWindowState)
      → ((high : ℕ) → (window_or_empty o).highest_seen ≡ some high → Kept key high now can_remove)
      → Distinct l.rows
      → P l
      → P ((compact_window key now can_remove l o).0)
        × Distinct ((compact_window key now can_remove l o).0.rows)
  unfolding compact_window
  compact_window-keeps key now can_remove l none keep d p = (p, d)
  compact_window-keeps key now can_remove l (some w) keep d p = from w.highest_seen refl
    where
      from :
          (top : Option ℕ)
          → w.highest_seen ≡ top
          → P ((compact_window key now can_remove l (some (record w { highest_seen = top }))).0)
            × Distinct (
                (compact_window key now can_remove l
                  (some (record w { highest_seen = top }))).0.rows)
      from none e = unfold compact_window in (p, d)
      from (some high) e =
          unfold compact_window in
          (compact_rows-keeps key high now can_remove l.rows l _ (keep high e) d d
            (Entries-Current l l.rows d) p)

  pub compact-keeps :
      (l : ReplayLedger) (space : ReplaySpace) (now : Option ℕ) (can_remove : String → Bool)
      → ((high : ℕ)
          → (window_of (replay_space_key space) l).highest_seen ≡ some high
          → Kept (replay_space_key space) high now can_remove)
      → Distinct l.rows
      → P l
      → P ((compact l space now can_remove).0) × Distinct ((compact l space now can_remove).0.rows)
  unfolding compact window_of
  compact-keeps l space now can_remove keep d p =
      compact_window-keeps (replay_space_key space) now can_remove l
        (get (replay_space_key space) l.windows) keep d p
