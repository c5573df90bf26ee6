-- ===== src/Repository.antt =====
-- infra/repository/repo/control/store.go and infra/repository/po/control/: the rows of the control
-- plane's four tables, and the statements that the code builds. The database that runs them, and
-- JSON, are parameters.
pub mod Queries
pub mod Times
pub mod Laws
pub mod Saving
pub mod Claiming
use agent_runtime_client.Base.{
  ℕ, ◌+◌, ◌-◌, ◌*◌, ◌/◌, ◌^◌, ℤ, pos, negsuc, String, Bool, true, false, Option, none, some, List,
  [], ◌∷◌, Map, leb, eqb, if◌then◌else◌,
}
use agent_runtime_client.Protocol.Error.{Error, Result, ok, err}
use agent_runtime_client.Protocol.Message.{Time, zero_time, Object, Metadatum}
use agent_runtime_client.Store.{Call}
unfoldable pub use agent_runtime_client.Store.{next, ◌>>=◌, ◌>>◌, pure, lift}

pub record DeviceRow : Type 0 where
  pub device_id : String
  pub user_id : String
  pub name : String
  pub platform : String
  pub architecture : String
  pub capabilities : String
  pub online : Bool
  pub connected_at : ℤ
  pub last_seen_at : ℤ

pub record TaskRow : Type 0 where
  pub task_id : String
  pub conversation_id : String
  pub user_id : String
  pub device_id : String
  pub status : String
  pub sequence : ℤ
  pub active_sessions : String
  pub metadata : String
  pub created_at : ℤ
  pub updated_at : ℤ

pub record ActionRow : Type 0 where
  pub action_id : String
  pub task_id : String
  pub device_id : String
  pub user_id : String
  pub session_id : String
  pub sequence : ℤ
  pub idempotency_key : String
  pub deadline : ℤ
  pub capability : String
  pub arguments : String
  pub risk : String
  pub decision : String

pub record ObservationRow : Type 0 where
  pub action_id : String
  pub task_id : String
  pub idempotency_key : String
  pub session_id : String
  pub sequence : ℤ
  pub status : String
  pub observed_at : ℤ
  pub state : String
  pub error : String

-- The statements on a table of rows `R` in a database `D`, with the number of rows affected.
-- `create_or_ignore conflicts row` is an `INSERT` that does nothing on a conflict, and
-- `create_or_assign conflicts assign row` one that applies `assign` to the rows in conflict;
-- `update where set` is an `UPDATE`; `find where before limit` is a `SELECT` with an order, and all
-- rows for the limit 0.
pub record Table (D R : Type 0) : Type 0 where
  pub rows : D → List R
  pub create_or_ignore : (R → Bool) → R → Call D ℕ
  pub create_or_assign : (R → Bool) → (R → R) → R → Call D ℕ
  pub update : (R → Bool) → (R → R) → Call D ℕ
  pub find : (R → Bool) → (R → R → Bool) → ℕ → Call D (List R)

-- `unix_now` is the second that `time.Now()` is in, as gorm reads it for a statement.
pub record Database (D : Type 0) : Type 1 where
  pub devices : Table D DeviceRow
  pub tasks : Table D TaskRow
  pub actions : Table D ActionRow
  pub observations : Table D ObservationRow
  pub transaction : {A : Type 0} → Call D A → Call D A
  pub unix_now : D → ℤ

-- `encoding/json` at the types of the columns. A decoder returns what `json.Unmarshal` leaves in a
-- variable that held an empty map, or nil for a state, for arguments and for capabilities.
pub record Json : Type 0 where
  pub encode_texts : List String → Result String
  pub decode_texts : String → List String
  pub encode_sessions : Option (Map String) → Result String
  pub decode_sessions : String → Option (Map String)
  pub encode_metadata : Option (Map Metadatum) → Result String
  pub decode_metadata : String → Option (Map Metadatum)
  pub encode_object : Object → Result String
  pub decode_object : String → Object

-- 1970-01-01 as a time.
abbrev pub unix_epoch : Time
unix_epoch = 62135596800 * 10 ^ 9

-- `millis`, with `time.Time.UnixMilli`.
unfoldable pub millis : Time → ℤ
millis t =
    if eqb t zero_time
    then pos 0
    else if leb unix_epoch t
    then pos ((t - unix_epoch) / 10 ^ 6)
    else negsuc ((unix_epoch - t - 1) / 10 ^ 6)

-- `fromMillis`, with `time.UnixMilli`.
unfoldable pub from_millis : ℤ → Time
from_millis (pos n) = if eqb n 0 then zero_time else unix_epoch + n * 10 ^ 6
from_millis (negsuc n) = unix_epoch - (n + 1) * 10 ^ 6
