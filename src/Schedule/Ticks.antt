-- ===== src/Schedule/Ticks.antt =====
-- The scanner of application/service/scheduledtask/service.go: `tick` with its claim of a slot and its
-- limit of concurrent runs, and histories of the scheduler.
use agent_runtime_client.Base.{
  ℕ, zero, suc, ◌+◌, ℤ, pos, int_eq, String, Bool, false, not, ◌&&◌, ◌||◌, Option, none, some, List,
  [], ◌∷◌, ◌==◌, ltb, length, if◌then◌else◌, ◌≡◌, refl,
}
use mathlib.Core.List
use agent_runtime_client.Protocol.Error.{Error, Result, ok, err}
use agent_runtime_client.Cron.{cron_matches}
use agent_runtime_client.Schedule.Rows.{
  Bytes, ScheduledTask, JobExecution, TaskDatabase, active, job_running, max_concurrent_runs,
}
use agent_runtime_client.Schedule.Requests.{update, delete_task}
use agent_runtime_client.Schedule.Running.{Finish, open_job, close_job}

-- A reading of the clock in some location, with the slot that it falls into, in the format 200601021504.
pub record Moment : Type 0 where
  pub minute : ℕ
  pub hour : ℕ
  pub day : ℕ
  pub month : ℕ
  pub weekday : ℕ
  pub slot : String
  pub millis : ℤ

-- An execution, before or after its job is logged.
pub record Run : Type 0 where
  pub task : ScheduledTask
  pub job : Option JobExecution

-- The database, the runs that hold a place of the semaphore, and the tasks that a run was ever started for.
pub record Scheduler (D : Type 0) : Type 0 where
  pub db : D
  pub running : List Run
  pub started : List String

-- The location of a task; `known` is `time.LoadLocation`.
unfoldable pub location : (String → Bool) → ScheduledTask → String
location known task =
    if not (task.timezone == "") && not (task.timezone == "Local") && known task.timezone
    then task.timezone
    else "Local"

-- The claim of a slot.
abbrev pub claimable : String → String → ScheduledTask → Bool
claimable id slot r =
    r.ulid == id && r.status == active && (r.last_slot == "" || not (r.last_slot == slot))

abbrev pub claim : String → ℤ → ScheduledTask → ScheduledTask
claim slot now r = record r { last_slot = slot; last_run_at = now; last_status = job_running }

module _ {D : Type 0} (db : TaskDatabase D) where
  -- A claimed task runs if the semaphore has a place left.
  unfoldable pub start_run : ScheduledTask → Scheduler D → Scheduler D
  start_run task s =
      if ltb (length s.running) max_concurrent_runs
      then record s {
        running = List.◌++◌ s.running (record { task = task; job = none } ∷ []);
        started = task.ulid ∷ s.started;
      }
      else s

  unfoldable pub after_claim : ScheduledTask → Result ℕ → Scheduler D → Scheduler D
  after_claim task (err e) s = s
  after_claim task (ok zero) s = s
  after_claim task (ok (suc n)) s = start_run task s

  unfoldable pub claim_slot : Moment → ScheduledTask → Scheduler D → Scheduler D
  claim_slot now task s =
      let claimed =
        db.tasks.update (claimable task.ulid now.slot) (claim now.slot now.millis) s.db in
      after_claim task claimed.0 (record s { db = claimed.1 })

  -- The body of the loop of `tick`.
  unfoldable pub examine : Moment → ScheduledTask → Scheduler D → Scheduler D
  examine now task s =
      if cron_matches task.cron_expr now.minute now.hour now.day now.month now.weekday
      then claim_slot now task s
      else s

  -- `tick`; the clock may go on between two tasks.
  unfoldable pub examine_all :
      (ℕ → String → Moment) → (String → Bool) → ℕ → List ScheduledTask → Scheduler D → Scheduler D
  examine_all clock known n [] s = s
  examine_all clock known n (task ∷ rest) s =
      examine_all clock known (n + 1) rest (examine (clock n (location known task)) task s)

  unfoldable pub examine_found :
      (ℕ → String → Moment)
      → (String → Bool)
      → Result (List ScheduledTask)
      → Scheduler D
      → Scheduler D
  examine_found clock known (err e) s = s
  examine_found clock known (ok tasks) s = examine_all clock known 0 tasks s

  unfoldable pub tick : (ℕ → String → Moment) → (String → Bool) → Scheduler D → Scheduler D
  tick clock known s =
      let found =
        db.tasks.find (λ r. r.status == active && int_eq r.deleted_at (pos 0)) (λ a b. false) 0
          s.db in
      examine_found clock known found.0 (record s { db = found.1 })

unfoldable pub run_at : ℕ → List Run → Option Run
run_at n [] = none
run_at zero (r ∷ rest) = some r
run_at (suc n) (r ∷ rest) = run_at n rest

unfoldable pub set_run : ℕ → Run → List Run → List Run
set_run n run [] = []
set_run zero run (r ∷ rest) = run ∷ rest
set_run (suc n) run (r ∷ rest) = r ∷ set_run n run rest

unfoldable pub drop_run : ℕ → List Run → List Run
drop_run n [] = []
drop_run zero (r ∷ rest) = rest
drop_run (suc n) (r ∷ rest) = r ∷ drop_run n rest

-- What may happen to the scheduler, in any order: the scanner examines a task at some moment, the run at
-- some place logs its job, or ends, and a user updates or deletes a task.
pub data Event : Type 0 where
  examines : Moment → ScheduledTask → Event
  opens : ℕ → String → ℤ → Event
  closes : ℕ → Finish → Event
  updates : String → String → String → Event
  deletes : String → String → ℤ → Event

module _ {D : Type 0} (db : TaskDatabase D) (error_text : Error → String)
    (parameters : ScheduledTask → Bytes → String) where
  unfoldable pub open_run : ℕ → String → ℤ → Option Run → Scheduler D → Scheduler D
  unfolding set_run
  open_run k id now none s = s
  open_run k id now (some r) s =
      let opened = open_job db r.task id now s.db in
      record s {
        db = opened.1;
        running = set_run k (record { task = r.task; job = some opened.0 }) s.running;
      }

  -- The goroutine of a run that ends gives its place back.
  unfoldable pub close_with :
      ℕ → Finish → ScheduledTask → Option JobExecution → Scheduler D → Scheduler D
  close_with k f task none s = s
  close_with k f task (some job) s = record s {
    db = close_job db error_text parameters task job f s.db;
    running = drop_run k s.running;
  }

  unfoldable pub close_run : ℕ → Finish → Option Run → Scheduler D → Scheduler D
  close_run k f none s = s
  close_run k f (some r) s = close_with k f r.task r.job s

  unfoldable pub step : Event → Scheduler D → Scheduler D
  unfolding run_at
  step (examines now task) s = examine db now task s
  step (opens k id now) s = open_run k id now (run_at k s.running) s
  step (closes k f) s = close_run k f (run_at k s.running) s
  step (updates user_id id status) s = record s { db = (update db user_id id status s.db).1 }
  step (deletes user_id id now) s = record s { db = (delete_task db user_id id now s.db).1 }

  unfoldable pub run : List Event → Scheduler D → Scheduler D
  run [] s = s
  run (e ∷ es) s = run es (step e s)

  -- What a scan does, as events.
  unfoldable pub scan :
      (ℕ → String → Moment) → (String → Bool) → ℕ → List ScheduledTask → List Event
  scan clock known n [] = []
  scan clock known n (task ∷ rest) =
      examines (clock n (location known task)) task ∷ scan clock known (n + 1) rest

  -- A scan of tasks is the history of the events in which it examines them.
  pub examine_all-run :
      (clock : ℕ → String → Moment) (known : String → Bool) (n : ℕ) (tasks : List ScheduledTask)
      (s : Scheduler D)
      → examine_all db clock known n tasks s ≡ run (scan clock known n tasks) s
  unfolding examine_all scan run step
  examine_all-run clock known n [] s = refl
  examine_all-run clock known n (task ∷ rest) s = examine_all-run clock known (n + 1) rest _
