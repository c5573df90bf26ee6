-- ===== src/Tests/Schedule.antt =====
-- The scheduled tasks of application/service/scheduledtask/service.go over a database of lists.
use agent_runtime_client.Base.{
  ◌+◌, ◌≤◌, pos, String, true, false, List, [], ◌∷◌, ◌++◌, ◌≡◌, ◌≢◌, refl, arith,
}
use agent_runtime_client.Protocol.Error.{Error, ok}
use agent_runtime_client.Store.{next}
use agent_runtime_client.Runtime.Values.{SysAgent, SysAgentUserModel}
use agent_runtime_client.Schedule.Rows.{
  Bytes, ScheduledTask, JobExecution, ChatApproval, TaskDatabase,
}
use agent_runtime_client.Schedule.Requests.{decide_approval}
use agent_runtime_client.Schedule.Running.{Finish}
use agent_runtime_client.Schedule.Ticks.{Moment, Scheduler, Event, examines, opens, closes, run}
use agent_runtime_client.Schedule.Slots.{Sound}
use agent_runtime_client.Schedule.Starting.{starts}
use agent_runtime_client.Schedule.Once.{run-starts}
use agent_runtime_client.Schedule.Limit.{Limited, run-Limited}
use agent_runtime_client.Schedule.Decisions.{Settled, decide_all, decide_approval-once}
use agent_runtime_client.Tests.Tables.{table, lawful}

record Memory : Type 0 where
  tasks : List ScheduledTask
  jobs : List JobExecution
  approvals : List ChatApproval
  agents : List SysAgent
  bindings : List SysAgentUserModel

abbrev memory : TaskDatabase Memory
memory = record {
  tasks = table (λ d. d.tasks) (λ rows d. record d { tasks = rows });
  jobs = table (λ d. d.jobs) (λ rows d. record d { jobs = rows });
  approvals = table (λ d. d.approvals) (λ rows d. record d { approvals = rows });
  agents = table (λ d. d.agents) (λ rows d. record d { agents = rows });
  bindings = table (λ d. d.bindings) (λ rows d. record d { bindings = rows });
  create_task = λ t d. (ok t, record d { tasks = d.tasks ++ t ∷ [] });
  create_job = λ j d. (ok j, record d { jobs = d.jobs ++ j ∷ [] });
  create_approval = λ a d. (ok a, record d { approvals = d.approvals ++ a ∷ [] });
}

memory-Sound : Sound memory
memory-Sound = record {
  tasks = lawful (λ d. d.tasks) (λ rows d. record d { tasks = rows }) (λ rows d. refl);
  failed = λ test set d e h. cc;
  agents = λ test before n d. refl;
  jobs = λ test set d. refl;
  job = λ j d. refl;
  approval = λ a d. refl;
}

memory-Settled : Settled memory
memory-Settled = record {
  lawful = lawful (λ d. d.approvals) (λ rows d. record d { approvals = rows }) (λ rows d. refl);
  failed = λ test set d e h. cc;
}

abbrev watch : ScheduledTask
watch = record {
  ulid = "s1";
  created_at = pos 1;
  updated_at = pos 1;
  deleted_at = pos 0;
  user_id = "u1";
  agent_id = "a1";
  session_id = "";
  name = "tickets";
  task_type = "ticket";
  cron_expr = "* * * * *";
  timezone = "Local";
  prompt = "look";
  criteria_json = "{}";
  action_mode = "confirm_before_commit";
  status = "active";
  last_slot = "";
  last_run_at = pos 0;
  last_status = "";
  last_result = [];
  last_error = [];
  execution_count = 0;
}

abbrev review_row : ChatApproval
review_row = record {
  ulid = "p1";
  user_id = "u1";
  message_id = "j1";
  agent_id = "a1";
  tool_name = "Scheduled result review";
  risk_level = "high";
  parameters = "{}";
  status = "pending";
  approved_by = "";
  approved_at = pos 0;
  reason = "";
  created_at = pos 1;
}

abbrev stored : Memory
stored = record {
  tasks = watch ∷ [];
  jobs = [];
  approvals = review_row ∷ [];
  agents = [];
  bindings = [];
}

abbrev idle : Scheduler Memory
idle = record { db = stored; running = []; started = [] }

abbrev noon : Moment
noon = record {
  minute = 0;
  hour = 12;
  day = 1;
  month = 1;
  weekday = 4;
  slot = "202601011200";
  millis = pos 5;
}

abbrev finish : Finish
finish = record {
  finished_at = pos 9;
  latency_ms = pos 4;
  outcome = ok (record { content = "ACTION_REQUIRED: buy"; tokens_used = pos 7 });
}

-- Two scans of one slot, with the run's whole life in between.
abbrev two_scans : List Event
two_scans = examines noon watch ∷ opens 0 "j1" (pos 5) ∷ closes 0 finish ∷ examines noon watch ∷ []

abbrev error_text : Error → String
error_text e = "failed"

abbrev parameters : ScheduledTask → Bytes → String
parameters t content = "{}"

run-starts_example : starts "s1" (run memory error_text parameters two_scans idle) ≤ 0 + 1
run-starts_example =
    run-starts memory memory-Sound "s1" "202601011200" error_text parameters two_scans idle refl
      (refl, (tt, (tt, (refl, tt)))) (omega arith)

run-Limited_example : Limited (run memory error_text parameters two_scans idle)
run-Limited_example = run-Limited memory error_text parameters two_scans idle (omega arith)

first_decision :
    (decide_approval memory "u1" "p1" (record { approved = true; reason = "" }) (pos 9) stored).0
    ≡ ok tt
unfolding decide_approval next
first_decision = refl

decide_approval-once_example :
    (decide_approval memory "u1" "p1"
      (record { approved = false; reason = "no" })
      (pos 11)
      (decide_all memory []
        (decide_approval memory "u1" "p1"
          (record { approved = true; reason = "" })
          (pos 9)
          stored).1)).0
    ≢ ok tt
decide_approval-once_example =
    decide_approval-once memory memory-Settled "u1" "p1" (record { approved = true; reason = "" })
      (record { approved = false; reason = "no" }) (pos 9) (pos 11) [] stored first_decision
