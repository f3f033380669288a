-- ===== src/Gateway/Moves.antt =====
-- What the methods of DeviceRequestStore do to requests and receipts: a request keeps its columns and
-- its state goes down its table; a receipt stays as it is.
use agent_life.Shared.{
  ℕ, ◌≡◌, ◌<◌, ◌⊎◌, inl, inr, refl, sym, subst, arith, String, Bool, true, false, Option, none,
  some, Result, ok, err, eq_iff, str_eq, Bool-cases, ltb,
}
use agent_life.Shared.Dict.{get, set, get-set, Distinct, Distinct-set}
use agent_life.Gateway.{DeviceRequestState, DeviceRequestEvent, next_device_request_state}
use agent_life.Gateway.Machines.{request_rank, request_lowers}
use agent_life.Gateway.Store.{
  DeviceRequestRow, ClaimRow, Database, Work, onward, transaction, settle, pure, AuditRecord,
  append_audit,
}
use agent_life.Gateway.Requests.{
  DeviceCall, get_row, found, assert_binding, update_state, with_state, expire_by, expire_if_due,
  overdue_event, known,
}

-- A state goes down the table of device requests, or stays.
abbrev pub Reaches : DeviceRequestState → DeviceRequestState → Type 0
Reaches s s' = (s' ≡ s) ⊎ (request_rank s' < request_rank s)

abbrev pub Moved : DeviceRequestRow → Option DeviceRequestRow → Type 0
Moved r x = (s : DeviceRequestState) × (x ≡ some (record r { state = s })) × Reaches r.state s

pub record Moves (db db' : Database) : Type 0 where
  pub rows :
      (k : String) (r : DeviceRequestRow)
      → get k db.requests ≡ some r
      → Moved r (get k db'.requests)
  pub receipts : (k : String) (c : ClaimRow) → get k db.claims ≡ some c → get k db'.claims ≡ some c
  pub keys : Distinct db.requests → Distinct db'.requests

pub Moves-refl : (db : Database) → Moves db db
Moves-refl db = record {
  rows = λ k r h. (r.state, h, inl refl);
  receipts = λ k c h. h;
  keys = λ d. d;
}

pub Moves-trans : (a b c : Database) → Moves a b → Moves b c → Moves a c
Moves-trans a b c f g = record {
  rows = λ k r h.
      let (s, there, down) = f.rows k r h in
      let (s', there', down') = g.rows k (record r { state = s }) there in
      (s', there', ground arith);
  receipts = λ k x h. g.receipts k x (f.receipts k x h);
  keys = λ d. g.keys (f.keys d);
}

pub onward-Moves :
    {T U : Type 0} (f : T → Work U) (db : Database) (x : Database × Result T)
    → Moves db x.0
    → ((value : T) (db' : Database) → x ≡ (db', ok value) → Moves db' (f value db').0)
    → Moves db (onward f x).0
unfolding onward
onward-Moves f db (db', err thrown) m rest = m
onward-Moves f db (db', ok value) m rest =
    Moves-trans db db' (f value db').0 m (rest value db' refl)

pub transaction-Moves :
    {T : Type 0} (work : Work T) (db : Database)
    → Moves db (work db).0
    → Moves db (transaction work db).0
unfolding transaction
transaction-Moves {T = T} work db m = kept (work db) m
  where
    kept : (x : Database × Result T) → Moves db x.0 → Moves db (settle db x).0
    kept (db', err thrown) m = Moves-refl db
    kept (db', ok value) m = m

-- Setting the state of a row that stands there.
pub set-Moves :
    (id : String) (s : DeviceRequestState) (db : Database) (row : DeviceRequestRow)
    → get id db.requests ≡ some row
    → Reaches row.state s
    → Moves db (record db { requests = set id (record row { state = s }) db.requests })
set-Moves id s db row there down = record {
  rows = λ k r h. elim (Bool-cases (str_eq id k)) [
    | inl here ↦ (
      s,
      ground (arith, get-set id k (record row { state = s }) db.requests, eq_iff id k),
      ground (arith, eq_iff id k),
    )
    | inr other ↦
        (r.state, ground (arith, get-set id k (record row { state = s }) db.requests), inl refl)
  ];
  receipts = λ k c h. h;
  keys = λ d. Distinct-set id (record row { state = s }) db.requests d;
}

pub update_state-Moves :
    (id : String) (s : DeviceRequestState) (db : Database) (row : DeviceRequestRow)
    → get id db.requests ≡ some row
    → Reaches row.state s
    → Moves db (update_state id s db).0
unfolding update_state with_state
update_state-Moves id s db row there down =
    subst (λ x. Moves db (with_state id s db x)) (sym there) (set-Moves id s db row there down)

-- Reading a row, and testing a binding, change nothing.
pub get_row-reads :
    (id : String) (db db' : Database) (row : DeviceRequestRow)
    → get_row id db ≡ (db', ok row)
    → (db' ≡ db) × (get id db.requests ≡ some row)
unfolding get_row found
get_row-reads id db db' row h = (ground arith, ground arith)

pub assert_binding-reads :
    (call : DeviceCall) (device : String) (generation grant : ℕ) (db : Database)
    → (assert_binding call device generation grant db).0 ≡ db
unfolding assert_binding
assert_binding-reads call device generation grant db = ground arith

pub assert_binding-holds :
    (call : DeviceCall) (device : String) (generation grant : ℕ) (db db' : Database)
    → assert_binding call device generation grant db ≡ (db', ok tt)
    → (db' ≡ db)
      × (device ≡ call.device_id)
      × (generation ≡ call.pairing_generation)
      × (grant ≡ call.grant_revision)
unfolding assert_binding
assert_binding-holds call device generation grant db db' h =
    (ground arith, ground (arith, eq_iff device call.device_id), ground arith, ground arith)

-- An event of the table moves a row that stands there.
pub next-Reaches :
    (s : DeviceRequestState) (e : DeviceRequestEvent) (s' : DeviceRequestState)
    → next_device_request_state s e ≡ ok s'
    → Reaches s s'
next-Reaches s e s' h = inr (request_lowers s e s' h)

pub expire_by-Moves :
    (id : String) (row : DeviceRequestRow) (e : Option DeviceRequestEvent) (db : Database)
    → get id db.requests ≡ some row
    → Moves db (expire_by id row.state e db).0
unfolding expire_by onward
expire_by-Moves id row none db there = Moves-refl db
expire_by-Moves id row (some e) db there = by_next (next_device_request_state row.state e) refl
  where
    by_next :
        (x : Result DeviceRequestState)
        → next_device_request_state row.state e ≡ x
        → Moves db
            (onward (λ s'. λ db'. onward (λ _. pure true) (update_state id s' db')) (db, x)).0
    by_next (err thrown) h = Moves-refl db
    by_next (ok s') h =
        onward-Moves (λ _. pure true) db (update_state id s' db)
          (update_state-Moves id s' db row there (next-Reaches row.state e s' h))
          (λ value db' e'. Moves-refl db')

pub expire_if_due-Moves :
    (id : String) (row : DeviceRequestRow) (now : ℕ) (db : Database)
    → get id db.requests ≡ some row
    → Moves db (expire_if_due id row now db).0
unfolding expire_if_due
expire_if_due-Moves id row now db there = elim (Bool-cases (ltb now row.expires_at)) [
  | inl early ↦ rw (early, expire_if_due) (Moves-refl db)
  | inr due ↦ rw (due, expire_if_due) (expire_by-Moves id row (overdue_event row.state) db there)
]

-- A request that is not overdue is left as it is.
pub expire_if_due-reads :
    (id : String) (row : DeviceRequestRow) (now : ℕ) (db db' : Database)
    → expire_if_due id row now db ≡ (db', ok false)
    → db' ≡ db
unfolding expire_if_due expire_by update_state onward
expire_if_due-reads id row now db db' h = ground arith

pub known-Moves : {T : Type 0} (outcome : Option T) (db : Database) → Moves db (known outcome db).0
unfolding known
known-Moves none db = Moves-refl db
known-Moves (some value) db = Moves-refl db

pub assert_binding-Moves :
    (call : DeviceCall) (device : String) (generation grant : ℕ) (db : Database)
    → Moves db (assert_binding call device generation grant db).0
assert_binding-Moves call device generation grant db =
    subst (Moves db) (sym (assert_binding-reads call device generation grant db)) (Moves-refl db)

get_row-Moves : (id : String) (db : Database) → Moves db (get_row id db).0
unfolding get_row
get_row-Moves id db = Moves-refl db

-- The row of a call stands in the tables, and is bound as the call says.
pub record Bound (call : DeviceCall) (row : DeviceRequestRow) (db : Database) : Type 0 where
  pub stands : get call.request_id db.requests ≡ some row
  pub device : row.device_id ≡ call.device_id
  pub generation : row.pairing_generation ≡ call.pairing_generation
  pub grant : row.grant_revision ≡ call.grant_revision

read-Bound :
    (call : DeviceCall) (row : DeviceRequestRow) (db db' db'' : Database)
    → get_row call.request_id db ≡ (db', ok row)
    → assert_binding call row.device_id row.pairing_generation row.grant_revision db'
      ≡ (db'', ok tt)
    → Bound call row db''
read-Bound call row db db' db'' read bound =
    let r = get_row-reads call.request_id db db' row read in
    let b =
      assert_binding-holds call row.device_id row.pairing_generation row.grant_revision db' db''
        bound in
    record { stands = ground (arith, r.0, r.1, b.0); device = b.1; generation = b.2; grant = b.3 }

early_test :
    {x : Database × Result Bool} {d : Database} {b : Bool}
    → b ≡ false
    → x ≡ (d, ok b)
    → x ≡ (d, ok false)
early_test early e = ground arith

-- What every transaction of a device starts with: the row, its binding, and the overdue test. The
-- rest finds the row as it was read, unless it was overdue.
pub Bound-Moves :
    {T : Type 0} (call : DeviceCall) (rest : DeviceRequestRow → Bool → Work T) (now : ℕ)
    (db : Database)
    → ((row : DeviceRequestRow) (due : Bool) (db' : Database)
        → (due ≡ false → Bound call row db')
        → Moves db' (rest row due db').0)
    → Moves db
        (onward
          (λ row. λ db'.
            onward
              (λ _.
                λ db''. onward (λ due. rest row due) (expire_if_due call.request_id row now db''))
              (assert_binding call row.device_id row.pairing_generation row.grant_revision db'))
          (get_row call.request_id db)).0
Bound-Moves call rest now db moves =
    onward-Moves _ db _ (get_row-Moves call.request_id db) (λ row db' read.
      onward-Moves _ db' _
        (assert_binding-Moves call row.device_id row.pairing_generation row.grant_revision db')
        (λ ok_ db'' bound.
          let b = read-Bound call row db db' db'' read bound in
          onward-Moves _ db'' _ (expire_if_due-Moves call.request_id row now db'' b.stands)
            (λ due last e. moves row due last (λ early.
              subst (Bound call row)
                (sym (expire_if_due-reads call.request_id row now db'' last (early_test early e)))
                b))))

pub append_audit-Moves : (a : AuditRecord) (db : Database) → Moves db (append_audit a db).0
unfolding append_audit
append_audit-Moves a db = record {
  rows = λ k r h. (r.state, h, inl refl);
  receipts = λ k c h. h;
  keys = λ d. d;
}
