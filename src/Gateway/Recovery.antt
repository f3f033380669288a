-- ===== src/Gateway/Recovery.antt =====
-- The recovery of overdue device requests.
use agent_life.Shared.{
  ℕ, suc, ◌≡◌, inl, inr, refl, ◌∙◌, subst, arith, String, Bool, true, false, Option, none, some,
  List, [], ◌∷◌, Result, ok, err, eq_iff, eq_refl, str_eq, Bool-cases, Option-cases, is_none, leb,
  not, ◌&&◌,
}
use agent_life.Shared.Dict.{get, get-set, Distinct}
use agent_life.Gateway.{DeviceRequestState, DeviceRequestEvent, next_device_request_state}
use agent_life.Gateway.Store.{DeviceRequestRow, Database, onward, transaction, settle, pure}
use agent_life.Gateway.Requests.{update_state, with_state, expire_by, overdue_event}
use agent_life.Gateway.Results.{overdue, recover_rows, recover_expired}
use agent_life.Gateway.Moves.{Moves, Moves-refl, onward-Moves, transaction-Moves, expire_by-Moves}

abbrev Rows : Type 0
Rows = List (String × DeviceRequestRow)

-- Setting the state of one request leaves the others.
with_state-other :
    (id j : String) (s : DeviceRequestState) (db : Database) (prior : Option DeviceRequestRow)
    → str_eq id j ≡ false
    → get j (with_state id s db prior).requests ≡ get j db.requests
unfolding with_state
with_state-other id j s db none other = refl
with_state-other id j s db (some row) other =
    ground (arith, get-set id j (record row { state = s }) db.requests)

transaction-other :
    (id j : String) (s : DeviceRequestState) (e : Option DeviceRequestEvent) (db : Database)
    → str_eq id j ≡ false
    → get j (transaction (expire_by id s e) db).0.requests ≡ get j db.requests
unfolding transaction expire_by onward update_state
transaction-other id j s none db other = refl
transaction-other id j s (some e) db other = by_next (next_device_request_state s e)
  where
    by_next :
        (x : Result DeviceRequestState)
        → get j
            (settle db (
              onward
                (λ s'. λ db'. onward (λ _. pure true) (update_state id s' db'))
                (db, x))).0.requests
          ≡ get j db.requests
    by_next (err thrown) = refl
    by_next (ok s') = with_state-other id j s' db (get id db.requests) other

-- Rows that stand in the tables as they were read.
abbrev Stand : Rows → Database → Type 0
Stand rows db =
    (j : String) (r : DeviceRequestRow) → get j rows ≡ some r → get j db.requests ≡ some r

rest-Stand :
    (id : String) (row : DeviceRequestRow) (rows : Rows) (e : Option DeviceRequestEvent)
    (db : Database)
    → get id rows ≡ none
    → Stand ((id, row) ∷ rows) db
    → Stand rows (transaction (expire_by id row.state e) db).0
unfolding get
rest-Stand id row rows e db free stand j r h =
    transaction-other id j row.state e db (ground (arith, eq_iff id j))
    ∙ stand j r (ground (arith, eq_iff id j))

settled :
    (id : String) (row : DeviceRequestRow) (rows : Rows) (e : Option DeviceRequestEvent)
    (db db' : Database) (value : Bool)
    → transaction (expire_by id row.state e) db ≡ (db', ok value)
    → Stand rows (transaction (expire_by id row.state e) db).0
    → Stand rows db'
settled id row rows e db db' value h stand =
    subst (λ (x : Database × Result Bool). Stand rows x.0) h stand

recover_rows-Moves :
    (rows : Rows) (recovered : ℕ) (db : Database)
    → Distinct rows
    → Stand rows db
    → Moves db (recover_rows recovered rows db).0
unfolding recover_rows get
recover_rows-Moves [] recovered db d stand = Moves-refl db
recover_rows-Moves ((id, row) ∷ rows) recovered db (free, d) stand =
    onward-Moves _ db _
      (transaction-Moves _ db (
        expire_by-Moves id row (overdue_event row.state) db
          (stand id row (ground (arith, eq_refl id)))))
      (λ value db' e. recover_rows-Moves rows (suc recovered) db' d (
        settled id row rows (overdue_event row.state) db db' value e
          (rest-Stand id row rows (overdue_event row.state) db free stand)))

overdue-get :
    (now : ℕ) (rows : Rows) (j : String) (r : DeviceRequestRow)
    → Distinct rows
    → get j (overdue now rows) ≡ some r
    → get j rows ≡ some r
unfolding overdue get
overdue-get now [] j r d h = h
overdue-get now ((id, row) ∷ rows) j r (free, d) h =
    ground (arith, overdue-get now rows j r d, eq_iff id j)

overdue-free :
    (now : ℕ) (rows : Rows) (j : String)
    → Distinct rows
    → get j rows ≡ none
    → get j (overdue now rows) ≡ none
overdue-free now rows j d h = elim (Option-cases (get j (overdue now rows))) [
  | inl free ↦ free
  | inr (r, there) ↦ absurd (ground (arith, overdue-get now rows j r d there))
]

overdue-Distinct : (now : ℕ) (rows : Rows) → Distinct rows → Distinct (overdue now rows)
unfolding overdue
overdue-Distinct now [] d = d
overdue-Distinct now ((id, row) ∷ rows) (free, d) =
    elim (Bool-cases (leb row.expires_at now && not (is_none (overdue_event row.state)))) [
      | inl late ↦ rw (late, overdue) (overdue-free now rows id d free, overdue-Distinct now rows d)
      | inr early ↦ rw (early, overdue) (overdue-Distinct now rows d)
    ]

pub recover_expired-Moves :
    (now : ℕ) (db : Database) → Distinct db.requests → Moves db (recover_expired now db).0
unfolding recover_expired
recover_expired-Moves now db d =
    recover_rows-Moves (overdue now db.requests) 0 db (overdue-Distinct now db.requests d)
      (λ j r. overdue-get now db.requests j r d)
