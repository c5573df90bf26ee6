-- ===== src/Schedule/Running.antt =====
-- The execution of a task in application/service/scheduledtask/service.go: `execute`.
use Prim.Native.String.{◌++◌}
use agent_runtime_client.Base.{
  ◌+◌, ◌%◌, ℤ, pos, String, true, false, List, [], ◌∷◌, ◌==◌, ◌^◌, int_eq, Map, if◌then◌else◌,
}
use agent_runtime_client.Protocol.Error.{Error, Result, ok, err}
use agent_runtime_client.Runtime.Values.{SysAgent, Value, text, flag}
use agent_runtime_client.Schedule.Text.{utf8, truncate, asks_for_action}
use agent_runtime_client.Schedule.Rows.{
  Bytes, ScheduledTask, JobExecution, ChatApproval, TaskDatabase, job_running, job_success,
  job_failed, result_limit,
}

abbrev pub safety_note : String
safety_note =
    "\n\n[BACKGROUND MONITOR SAFETY] Query and report availability only. Do not purchase, reserve, submit an appointment, accept terms, enter payment, bypass queues, or solve CAPTCHA. Compare findings against every requested criterion. Start the final answer with exactly ACTION_REQUIRED: only when the criteria are satisfied; otherwise start with exactly NO_ACTION:. Include the exact option, price, source URL, and timestamp."

-- The prompt and the context of the run.
unfoldable pub run_prompt : ScheduledTask → String
run_prompt task = task.prompt ++ safety_note

unfoldable pub run_context : ScheduledTask → Map Value
run_context task =
    ("user_id", text task.user_id)
    ∷ ("agent_id", text task.agent_id)
    ∷ ("session_id", text task.session_id)
    ∷ ("scheduled_task_id", text task.ulid)
    ∷ ("background_monitor", flag true)
    ∷ []

-- The job of an execution when it starts; the identifier is the one that `BeforeCreate` gives it.
unfoldable pub new_job : ScheduledTask → String → String → ℤ → JobExecution
new_job task id agent_name started = record {
  ulid = id;
  created_at = pos 0;
  updated_at = pos 0;
  deleted_at = pos 0;
  agent_id = task.agent_id;
  agent_name = agent_name;
  session_id = task.session_id;
  status = job_running;
  trigger_time = started;
  started_at = started;
  finished_at = pos 0;
  input_summary = truncate (utf8 task.prompt) 500;
  output_summary = [];
  output_full = [];
  error_msg = [];
  tokens_used = pos 0;
  latency_ms = pos 0;
}

-- What the run returns: its content and the tokens used.
pub record Completed : Type 0 where
  pub content : String
  pub tokens_used : ℤ

-- The end of an execution: the time, how long it took, and what the run has returned.
pub record Finish : Type 0 where
  pub finished_at : ℤ
  pub latency_ms : ℤ
  pub outcome : Result Completed

-- The job at the end, in memory.
unfoldable pub finished_job : (Error → String) → JobExecution → Finish → JobExecution
finished_job error_text job f = elim f.outcome [
  | err e ↦ record job {
    finished_at = f.finished_at;
    latency_ms = f.latency_ms;
    status = job_failed;
    error_msg = truncate (utf8 (error_text e)) result_limit;
  }
  | ok c ↦
      let content = truncate (utf8 c.content) result_limit in
      record job {
        finished_at = f.finished_at;
        latency_ms = f.latency_ms;
        status = job_success;
        output_summary = truncate content 1000;
        output_full = content;
        tokens_used = c.tokens_used;
      }
]

-- What is written to the task's row at the end of an execution that was started at a time.
unfoldable pub write_result :
    (Error → String) → ScheduledTask → ℤ → Result Completed → ScheduledTask → ScheduledTask
write_result error_text task started (err e) r = record r {
  last_run_at = started;
  execution_count = (task.execution_count + 1) % 2 ^ 64;
  last_status = job_failed;
  last_error = truncate (utf8 (error_text e)) result_limit;
}
write_result error_text task started (ok c) r = record r {
  last_run_at = started;
  execution_count = (task.execution_count + 1) % 2 ^ 64;
  last_status = job_success;
  last_result = truncate (utf8 c.content) result_limit;
  last_error = [];
}

abbrev text_or : String → String → String
text_or new old = if new == "" then old else new

abbrev int_or : ℤ → ℤ → ℤ
int_or new old = if int_eq new (pos 0) then old else new

abbrev bytes_or : Bytes → Bytes → Bytes
bytes_or [] old = old
bytes_or (b ∷ bs) old = b ∷ bs

-- `Updates(&job)`, which writes the fields that are not zero.
unfoldable pub write_job : JobExecution → JobExecution → JobExecution
write_job job r = record {
  ulid = text_or job.ulid r.ulid;
  created_at = int_or job.created_at r.created_at;
  updated_at = int_or job.updated_at r.updated_at;
  deleted_at = int_or job.deleted_at r.deleted_at;
  agent_id = text_or job.agent_id r.agent_id;
  agent_name = text_or job.agent_name r.agent_name;
  session_id = text_or job.session_id r.session_id;
  status = text_or job.status r.status;
  trigger_time = int_or job.trigger_time r.trigger_time;
  started_at = int_or job.started_at r.started_at;
  finished_at = int_or job.finished_at r.finished_at;
  input_summary = bytes_or job.input_summary r.input_summary;
  output_summary = bytes_or job.output_summary r.output_summary;
  output_full = bytes_or job.output_full r.output_full;
  error_msg = bytes_or job.error_msg r.error_msg;
  tokens_used = int_or job.tokens_used r.tokens_used;
  latency_ms = int_or job.latency_ms r.latency_ms;
}

-- The approval that a result with ACTION_REQUIRED asks for; `parameters` is its JSON text.
unfoldable pub review : ScheduledTask → JobExecution → String → ChatApproval
review task job parameters = record {
  ulid = "";
  user_id = task.user_id;
  message_id = job.ulid;
  agent_id = task.agent_id;
  tool_name = "Scheduled result review";
  risk_level = "high";
  parameters = parameters;
  status = "pending";
  approved_by = "";
  approved_at = pos 0;
  reason = "";
  created_at = pos 0;
}

agent_name_of : Result (List SysAgent) → String
agent_name_of (ok (a ∷ rest)) = a.name
agent_name_of (ok []) = ""
agent_name_of (err e) = ""

module _ {D : Type 0} (db : TaskDatabase D) where
  -- `execute` up to the run. Errors of the database are only logged.
  unfoldable pub open_job : ScheduledTask → String → ℤ → D → JobExecution × D
  unfolding agent_name_of
  open_job task id started d =
      let found = db.agents.find (λ r. r.ulid == task.agent_id) (λ a b. false) 1 d in
      let job = new_job task id (agent_name_of found.0) started in
      (job, (db.create_job job found.1).1)

  module _ (error_text : Error → String) (parameters : ScheduledTask → Bytes → String) where
    -- The approval of a result that asks for one.
    unfoldable pub request_review : ScheduledTask → JobExecution → Result Completed → D → D
    request_review task job (err e) d = d
    request_review task job (ok c) d =
        let content = truncate (utf8 c.content) result_limit in
        if asks_for_action content
        then (db.create_approval (review task job (parameters task content)) d).1
        else d

    -- `execute` after the run.
    unfoldable pub close_job : ScheduledTask → JobExecution → Finish → D → D
    close_job task job f d =
        let reviewed = request_review task job f.outcome d in
        let logged =
          (db.jobs.update (λ r. r.ulid == job.ulid) (write_job (finished_job error_text job f))
            reviewed).1 in
        (db.tasks.update (λ r. r.ulid == task.ulid)
          (write_result error_text task job.started_at f.outcome) logged).1
