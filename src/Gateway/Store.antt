-- ===== src/Gateway/Store.antt =====
-- integrations/openclaw/src/core/account-store.ts, audit-store.ts and event-store.ts: the tables that
-- device requests use, transactions, and the two appends. SQLite is read by its documented meaning:
-- a violated key throws and leaves the tables. Instants are milliseconds; the texts that the tables
-- hold order like them in the years 0 to 9999.
use agent_life.Shared.{
  ℕ, String, List, [], ◌∷◌, ◌++◌, any, str_eq, Result, ok, err, Failure, if◌then◌else◌,
  constraint_violated,
}
use agent_life.Gateway.{DeviceRequestState, DeviceRequestRisk}

-- A row of `device_requests`, apart from its id, which is the key; the columns of JSON hold texts.
pub record DeviceRequestRow : Type 0 where
  pub device_id : String
  pub pairing_generation : ℕ
  pub grant_revision : ℕ
  pub risk : DeviceRequestRisk
  pub state : DeviceRequestState
  pub capability_json : String
  pub provider_json : String
  pub parameters_json : String
  pub created_at : ℕ
  pub expires_at : ℕ

-- A row of `claim_receipts`, apart from its request's id, which is the key.
pub record ClaimRow : Type 0 where
  pub claim_id : String
  pub device_id : String
  pub pairing_generation : ℕ
  pub grant_revision : ℕ
  pub created_at : ℕ

pub data ResultOutcome : Type 0 where
  success failure denial cancellation unknown : ResultOutcome

-- The audit records of device requests, none of whose keys is scrubbed: type and actor, subject,
-- correlation and time.
pub data AuditRecord : Type 0 where
  request_claimed : String → String → String → String → ℕ → String → ℕ → AuditRecord
  request_result : String → String → String → String → ResultOutcome → String → ℕ → AuditRecord

-- An event `device.requested`.
pub record GatewayEvent : Type 0 where
  pub event_id : String
  pub correlation_id : String
  pub occurred_at : ℕ
  pub request_id : String
  pub risk : DeviceRequestRisk
  pub grant_revision : ℕ
  pub expires_at : ℕ

-- The tables; requests and claims by request id.
pub record Database : Type 0 where
  pub requests : List (String × DeviceRequestRow)
  pub claims : List (String × ClaimRow)
  pub audit : List AuditRecord
  pub events : List GatewayEvent

-- Work on the tables: what it leaves, and what it returns or throws.
abbrev pub Work : Type 0 → Type 0
Work T = Database → Database × Result T

unfoldable pub onward : {T U : Type 0} → (T → Work U) → Database × Result T → Database × Result U
onward rest (db, err thrown) = (db, err thrown)
onward rest (db, ok value) = rest value db

infixl 5 ◌>>=◌ ◌>>◌
abbrev pub ◌>>=◌ : {T U : Type 0} → Work T → (T → Work U) → Work U
(work >>= rest) db = onward rest (work db)

abbrev pub ◌>>◌ : {U : Type 0} → Work Unit → Work U → Work U
first >> rest = first >>= (λ _. rest)

abbrev pub lift : {T : Type 0} → Result T → Work T
lift result db = (db, result)

abbrev pub pure : {T : Type 0} → T → Work T
pure value db = (db, ok value)

abbrev pub throw : {T : Type 0} → Failure → Work T
throw thrown db = (db, err thrown)

-- `GatewayAccountStore.transaction`, not inside another one: what throws is rolled back.
abbrev pub settle : {T : Type 0} → Database → Database × Result T → Database × Result T
settle before (db, err thrown) = (before, err thrown)
settle before (db, ok value) = (db, ok value)

unfoldable pub transaction : {T : Type 0} → Work T → Work T
transaction work db = settle db (work db)

-- `AuditStore.append`.
unfoldable pub append_audit : AuditRecord → Work Unit
append_audit record_ db = (record db { audit = db.audit ++ (record_ ∷ []) }, ok tt)

-- `EventStore.append`; the id is a primary key.
unfoldable pub append_event : GatewayEvent → Work Unit
append_event event db =
    if any (λ e. str_eq e.event_id event.event_id) db.events
    then (db, err constraint_violated)
    else (record db { events = db.events ++ (event ∷ []) }, ok tt)
