-- ===== src/Repository/Saving.antt =====
-- What `SaveTask` of infra/repository/repo/control/store.go leaves in the table of tasks.
use agent_runtime_client.Base.{ℤ, String, ◌&&◌, Option, none, some, List, ◌≡◌, ◌==◌, if◌then◌else◌}
use agent_runtime_client.Repository.{TaskRow, Database, Json}
use agent_runtime_client.Repository.Queries.{int_le, settled}
use agent_runtime_client.Repository.Laws.{Lawful, Transactional, row_of}

abbrev pub task_at : String → List TaskRow → Option TaskRow
task_at id rows = row_of (λ r. r.task_id) id rows

-- The columns that a write takes over when it is not older than the row.
abbrev pub newer : TaskRow → TaskRow → TaskRow
newer value r =
    if int_le r.updated_at value.updated_at
    then record r {
      conversation_id = value.conversation_id;
      user_id = value.user_id;
      device_id = value.device_id;
      sequence = value.sequence;
      active_sessions = value.active_sessions;
      metadata = value.metadata;
      updated_at = value.updated_at;
    }
    else r

-- What a write makes of the row of its task at a time in seconds: a terminal status stays.
abbrev pub merged : ℤ → TaskRow → Option TaskRow → TaskRow
merged seconds value none = value
merged seconds value (some r) = record (newer value r) {
  status = if settled r.status then r.status else value.status;
  updated_at = seconds;
}

-- The two statements of the transaction, on one row.
abbrev first_set : TaskRow → TaskRow → TaskRow
first_set value r =
    if r.task_id == value.task_id && int_le r.updated_at value.updated_at
    then record r {
      conversation_id = value.conversation_id;
      user_id = value.user_id;
      device_id = value.device_id;
      sequence = value.sequence;
      active_sessions = value.active_sessions;
      metadata = value.metadata;
      updated_at = value.updated_at;
    }
    else r

abbrev second_set : ℤ → TaskRow → TaskRow → TaskRow
second_set seconds value r =
    if r.task_id == value.task_id
    then record r {
      status = if settled r.status then r.status else value.status;
      updated_at = seconds;
    }
    else r

abbrev mapped : (TaskRow → TaskRow) → Option TaskRow → Option TaskRow
mapped f none = none
mapped f (some r) = some (f r)

module _ {D : Type 0} (db : Database D) (json : Json) (law : Lawful db.tasks)
    (transactions : Transactional db) where
  -- The rows by their key after a write of `value`, at a second that the clock was in.
  abbrev pub Written : TaskRow → String → D → D → Type 0
  Written value id d after =
      (t : D) × (task_at id (db.tasks.rows after) ≡ (
        if value.task_id == id
        then some (merged (db.unix_now t) value (task_at id (db.tasks.rows d)))
        else task_at id (db.tasks.rows d)))
