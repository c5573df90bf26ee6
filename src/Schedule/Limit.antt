-- ===== src/Schedule/Limit.antt =====
-- At most three runs of scheduled tasks go on at once: the semaphore of
-- application/service/scheduledtask/service.go.
use agent_runtime_client.Base.{
  ℕ, zero, suc, ◌≤◌, ℤ, String, Option, none, some, List, [], ◌∷◌, ◌≡◌, refl, inl, inr, length,
  length-append, Bool-cases, arith,
}
use agent_runtime_client.Protocol.Error.{Error, Result, ok, err}
use agent_runtime_client.Cron.{cron_matches}
use agent_runtime_client.Schedule.Rows.{
  Bytes, ScheduledTask, JobExecution, TaskDatabase, max_concurrent_runs,
}
use agent_runtime_client.Schedule.Running.{Finish}
use agent_runtime_client.Schedule.Ticks.{
  Moment, Run, Scheduler, start_run, after_claim, claim_slot, examine, Event, examines, opens,
  closes, updates, deletes, open_run, close_run, close_with, run_at, set_run, drop_run, step, run,
}

length-set_run : (k : ℕ) (r : Run) (rs : List Run) → length (set_run k r rs) ≡ length rs
unfolding set_run
length-set_run k r [] = refl
length-set_run zero r (q ∷ rs) = refl
length-set_run (suc k) r (q ∷ rs) = rw (length-set_run k r rs) refl

length-drop_run : (k : ℕ) (rs : List Run) → length (drop_run k rs) ≤ length rs
unfolding drop_run
length-drop_run k [] = omega arith
length-drop_run zero (q ∷ rs) = omega arith
length-drop_run (suc k) (q ∷ rs) = omega (arith, length-drop_run k rs)

-- The places of the semaphore are not exceeded.
abbrev pub Limited : {D : Type 0} → Scheduler D → Type 0
Limited s = length s.running ≤ max_concurrent_runs

module _ {D : Type 0} (db : TaskDatabase D) where
  start_run-Limited :
      (task : ScheduledTask) (s : Scheduler D) → Limited s → Limited (start_run db task s)
  unfolding start_run
  start_run-Limited task s l =
      let e = length-append s.running (record { task = task; job = none } ∷ []) in ground arith

  after_claim-Limited :
      (task : ScheduledTask) (r : Result ℕ) (s : Scheduler D)
      → Limited s
      → Limited (after_claim db task r s)
  unfolding after_claim
  after_claim-Limited task (err e) s l = l
  after_claim-Limited task (ok zero) s l = l
  after_claim-Limited task (ok (suc n)) s l = start_run-Limited task s l

  examine-Limited :
      (now : Moment) (task : ScheduledTask) (s : Scheduler D)
      → Limited s
      → Limited (examine db now task s)
  unfolding examine claim_slot
  examine-Limited now task s l =
      elim (Bool-cases
        (cron_matches task.cron_expr now.minute now.hour now.day now.month now.weekday)) [
          | inl e ↦ rw e (after_claim-Limited task _ _ l)
          | inr e ↦ rw e l
        ]

  module _ (error_text : Error → String) (parameters : ScheduledTask → Bytes → String) where
    open_run-Limited :
        (k : ℕ) (id : String) (now : ℤ) (r : Option Run) (s : Scheduler D)
        → Limited s
        → Limited (open_run db error_text parameters k id now r s)
    unfolding open_run
    open_run-Limited k id now none s l = l
    open_run-Limited k id now (some r) s l = rw (length-set_run k _ s.running) l

    close_run-Limited :
        (k : ℕ) (f : Finish) (r : Option Run) (s : Scheduler D)
        → Limited s
        → Limited (close_run db error_text parameters k f r s)
    unfolding close_run close_with
    close_run-Limited k f none s l = l
    close_run-Limited k f (some r) s l = close_with-Limited r.job
      where
        close_with-Limited :
            (job : Option JobExecution)
            → Limited (close_with db error_text parameters k f r.task job s)
        close_with-Limited none = l
        close_with-Limited (some job) = omega (arith, l, length-drop_run k s.running)

    step-Limited :
        (e : Event) (s : Scheduler D) → Limited s → Limited (step db error_text parameters e s)
    unfolding step
    step-Limited (examines now task) s l = examine-Limited now task s l
    step-Limited (opens k id now) s l = open_run-Limited k id now (run_at k s.running) s l
    step-Limited (closes k f) s l = close_run-Limited k f (run_at k s.running) s l
    step-Limited (updates user_id id status) s l = l
    step-Limited (deletes user_id id now) s l = l

    -- In every history of the scheduler, at most three runs hold a place of the semaphore at once, if no more
    -- did at its start.
    pub run-Limited :
        (es : List Event) (s : Scheduler D)
        → Limited s
        → Limited (run db error_text parameters es s)
    unfolding run
    run-Limited [] s l = l
    run-Limited (e ∷ es) s l = run-Limited es _ (step-Limited e s l)
