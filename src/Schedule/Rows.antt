-- ===== src/Schedule/Rows.antt =====
-- The rows of infra/repository/po/scheduledtask, po/job and po/chat that the scheduled tasks of
-- application/service/scheduledtask/service.go are kept in, and its limits.
use agent_runtime_client.Base.{ℤ, String, List, ℕ}
use agent_runtime_client.Store.{Call}
use agent_runtime_client.Repository.{Table}
use agent_runtime_client.Runtime.Values.{SysAgent, SysAgentUserModel}

-- A text as its bytes.
abbrev pub Bytes : Type 0
Bytes = List ℕ

abbrev pub active : String
active = "active"

abbrev pub paused : String
paused = "paused"

abbrev pub job_running : String
job_running = "running"

abbrev pub job_success : String
job_success = "success"

abbrev pub job_failed : String
job_failed = "failed"

abbrev pub confirm_before_commit : String
confirm_before_commit = "confirm_before_commit"

abbrev pub max_concurrent_runs : ℕ
max_concurrent_runs = 3

abbrev pub result_limit : ℕ
result_limit = 12000

pub record ScheduledTask : Type 0 where
  pub ulid : String
  pub created_at : ℤ
  pub updated_at : ℤ
  pub deleted_at : ℤ
  pub user_id : String
  pub agent_id : String
  pub session_id : String
  pub name : String
  pub task_type : String
  pub cron_expr : String
  pub timezone : String
  pub prompt : String
  pub criteria_json : String
  pub action_mode : String
  pub status : String
  pub last_slot : String
  pub last_run_at : ℤ
  pub last_status : String
  pub last_result : Bytes
  pub last_error : Bytes
  pub execution_count : ℕ

pub record JobExecution : Type 0 where
  pub ulid : String
  pub created_at : ℤ
  pub updated_at : ℤ
  pub deleted_at : ℤ
  pub agent_id : String
  pub agent_name : String
  pub session_id : String
  pub status : String
  pub trigger_time : ℤ
  pub started_at : ℤ
  pub finished_at : ℤ
  pub input_summary : Bytes
  pub output_summary : Bytes
  pub output_full : Bytes
  pub error_msg : Bytes
  pub tokens_used : ℤ
  pub latency_ms : ℤ

pub record ChatApproval : Type 0 where
  pub ulid : String
  pub user_id : String
  pub message_id : String
  pub agent_id : String
  pub tool_name : String
  pub risk_level : String
  pub parameters : String
  pub status : String
  pub approved_by : String
  pub approved_at : ℤ
  pub reason : String
  pub created_at : ℤ

-- The tables, and an `INSERT` into those that the service adds to, with the hooks and the times that gorm
-- sets: it returns the row as it has been inserted.
pub record TaskDatabase (D : Type 0) : Type 0 where
  pub tasks : Table D ScheduledTask
  pub jobs : Table D JobExecution
  pub approvals : Table D ChatApproval
  pub agents : Table D SysAgent
  pub bindings : Table D SysAgentUserModel
  pub create_task : ScheduledTask → Call D ScheduledTask
  pub create_job : JobExecution → Call D JobExecution
  pub create_approval : ChatApproval → Call D ChatApproval
