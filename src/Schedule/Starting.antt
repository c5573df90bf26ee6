-- ===== src/Schedule/Starting.antt =====
-- What one step of the scheduler in application/service/scheduledtask/service.go does to a task and a slot.
use agent_runtime_client.Base.{
  ℕ, zero, suc, ℤ, String, true, false, not, ◌||◌, Option, none, some, ◌∷◌, ◌==◌, ◌≡◌, ◌≢◌, refl,
  sym, ap, ◌∙◌, ◌⊎◌, inl, inr, ltb, any, keep, length, eq_iff, Bool-cases, arith,
}
use agent_runtime_client.Protocol.Error.{Error, Result, ok, err}
use agent_runtime_client.Cron.{cron_matches}
use agent_runtime_client.Schedule.Rows.{
  Bytes, ScheduledTask, JobExecution, TaskDatabase, max_concurrent_runs,
}
use agent_runtime_client.Schedule.Running.{Finish}
use agent_runtime_client.Schedule.Ticks.{
  Moment, Run, Scheduler, claimable, claim, start_run, after_claim, claim_slot, examine, Event,
  examines, opens, closes, updates, deletes, open_run, close_run, close_with, run_at, step,
}
use agent_runtime_client.Schedule.Slots.{
  Sound, Single, Slotted, Follows, Follows-same, update-Follows, claim-Slotted,
  Slotted-not_claimable, open_slot,
}
use agent_runtime_client.Schedule.Writes.{
  rows, right_of, open_job-Follows, close_job-Follows, claim-written, change-Follows,
  delete_task-Follows,
}

-- How many runs were started for a task.
abbrev pub starts : {D : Type 0} → String → Scheduler D → ℕ
starts id s = length (keep (λ x. x == id) s.started)

-- If an event examines the task, then it does so in the slot.
abbrev pub InSlot : String → String → Event → Type 0
InSlot id slot (examines now task) = (not (task.ulid == id) || now.slot == slot) ≡ true
InSlot id slot (opens k job now) = Unit
InSlot id slot (closes k f) = Unit
InSlot id slot (updates user_id task status) = Unit
InSlot id slot (deletes user_id task now) = Unit

module _ {D : Type 0} (db : TaskDatabase D) (law : Sound db) (id slot : String) where
  -- One step of the scheduler: the task is not started, or it is started now, its slot was not written
  -- before and is written now.
  pub record Steps (s t : Scheduler D) : Type 0 where
    pub single : Single id (rows db law id slot s.db) → Single id (rows db law id slot t.db)
    pub starts_once :
        Single id (rows db law id slot s.db)
        → ((starts id t ≡ starts id s)
            × (Slotted id slot (rows db law id slot s.db)
                → Slotted id slot (rows db law id slot t.db)))
          ⊎ ((any (open_slot id slot) (rows db law id slot s.db) ≢ false)
              × (starts id t ≡ suc (starts id s))
              × Slotted id slot (rows db law id slot t.db))

  still :
      (s t : Scheduler D)
      → t.started ≡ s.started
      → Follows id slot (rows db law id slot s.db) (rows db law id slot t.db)
      → Steps s t
  still s t e f = record {
    single = f.single;
    starts_once = λ h. inl (ap (λ xs. length (keep (λ x. x == id) xs)) e, f.slotted);
  }

  start_run-started :
      (task : ScheduledTask) (s : Scheduler D)
      → ((start_run db task s).started ≡ s.started)
        ⊎ ((start_run db task s).started ≡ task.ulid ∷ s.started)
  unfolding start_run
  start_run-started task s = elim (Bool-cases (ltb (length s.running) max_concurrent_runs)) [
    | inl e ↦ inr (rw (e, start_run) refl)
    | inr e ↦ inl (rw (e, start_run) refl)
  ]

  start_run-db : (task : ScheduledTask) (s : Scheduler D) → (start_run db task s).db ≡ s.db
  unfolding start_run
  start_run-db task s = elim (Bool-cases (ltb (length s.running) max_concurrent_runs)) [
    | inl e ↦ rw (e, start_run) refl
    | inr e ↦ rw (e, start_run) refl
  ]

  after_claim-Steps :
      (now : Moment) (task : ScheduledTask) (s : Scheduler D) (r : Result ℕ)
      → (slot == "") ≡ false
      → (not (task.ulid == id) || now.slot == slot) ≡ true
      → (db.tasks.update (claimable task.ulid now.slot) (claim now.slot now.millis) s.db).0 ≡ r
      → Steps s (
          after_claim db task r (record s {
            db =
                (db.tasks.update (claimable task.ulid now.slot) (claim now.slot now.millis) s.db).1;
          }))
  unfolding after_claim
  after_claim-Steps now task s (err e) n i p =
      still _ _ refl
        (update-Follows db law id slot _ _ s.db (claim-written db law id slot now task i))
  after_claim-Steps now task s (ok zero) n i p =
      still _ _ refl
        (update-Follows db law id slot _ _ s.db (claim-written db law id slot now task i))
  after_claim-Steps now task s (ok (suc m)) n i p =
      let s' : Scheduler D = record s {
        db = (db.tasks.update (claimable task.ulid now.slot) (claim now.slot now.millis) s.db).1;
      } in
      let f : Follows id slot (rows db law id slot s.db) (rows db law id slot s'.db) =
        update-Follows db law id slot _ _ s.db (claim-written db law id slot now task i) in
      let hit = law.tasks.matched _ _ s.db (suc m) p (omega arith) in
      let new = law.tasks.updated _ _ s.db (suc m) p in
      record {
        single = λ h. rw (start_run-db task s') (f.single h);
        starts_once = λ h. elim (start_run-started task s') [
          | inl e ↦ inl (
            ap (λ xs. length (keep (λ x. x == id) xs)) e,
            λ c. rw (start_run-db task s') (f.slotted c),
          )
          | inr e ↦ elim (Bool-cases (task.ulid == id)) [
            | inl t ↦
                let u : task.ulid ≡ id = (eq_iff _ _).0 t in
                let v : now.slot ≡ slot =
                  (eq_iff _ _).0 (right_of (now.slot == slot) (rw t at i)) in
                let w : any (claimable id slot) (rows db law id slot s.db) ≡ true =
                  rw (u, v) at hit in
                inr (
                  λ c.
                      let z : true ≡ false =
                        sym w ∙ Slotted-not_claimable id slot (rows db law id slot s.db) n c in
                      cc,
                  rw (e, t) refl,
                  rw (start_run-db task s', new, u, v)
                      (claim-Slotted id slot now.millis (rows db law id slot s.db) h w),
                )
            | inr t ↦ inl (rw (e, t) refl, λ c. rw (start_run-db task s') (f.slotted c))
          ]
        ];
      }

  examine-Steps :
      (now : Moment) (task : ScheduledTask) (s : Scheduler D)
      → (slot == "") ≡ false
      → (not (task.ulid == id) || now.slot == slot) ≡ true
      → Steps s (examine db now task s)
  unfolding examine claim_slot
  examine-Steps now task s n i =
      elim (Bool-cases
        (cron_matches task.cron_expr now.minute now.hour now.day now.month now.weekday)) [
          | inl e ↦ rw e (after_claim-Steps now task s _ n i refl)
          | inr e ↦ rw e (still s s refl (Follows-same id slot _ _ refl))
        ]

  module _ (error_text : Error → String) (parameters : ScheduledTask → Bytes → String) where
    open_run-Steps :
        (k : ℕ) (job : String) (now : ℤ) (r : Option Run) (s : Scheduler D)
        → Steps s (open_run db error_text parameters k job now r s)
    unfolding open_run
    open_run-Steps k job now none s = still s s refl (Follows-same id slot _ _ refl)
    open_run-Steps k job now (some r) s =
        still s _ refl (open_job-Follows db law id slot r.task job now s.db)

    close_with-Steps :
        (k : ℕ) (f : Finish) (task : ScheduledTask) (job : Option JobExecution) (s : Scheduler D)
        → Steps s (close_with db error_text parameters k f task job s)
    unfolding close_with
    close_with-Steps k f task none s = still s s refl (Follows-same id slot _ _ refl)
    close_with-Steps k f task (some job) s =
        still s _ refl (close_job-Follows db law id slot error_text parameters task job f s.db)

    close_run-Steps :
        (k : ℕ) (f : Finish) (r : Option Run) (s : Scheduler D)
        → Steps s (close_run db error_text parameters k f r s)
    unfolding close_run
    close_run-Steps k f none s = still s s refl (Follows-same id slot _ _ refl)
    close_run-Steps k f (some r) s = close_with-Steps k f r.task r.job s

    pub step-Steps :
        (e : Event) (s : Scheduler D)
        → (slot == "") ≡ false
        → InSlot id slot e
        → Steps s (step db error_text parameters e s)
    unfolding step
    step-Steps (examines now task) s n i = examine-Steps now task s n i
    step-Steps (opens k job now) s n i = open_run-Steps k job now (run_at k s.running) s
    step-Steps (closes k f) s n i = close_run-Steps k f (run_at k s.running) s
    step-Steps (updates user_id task status) s n i =
        still s _ refl (change-Follows db law id slot user_id task status s)
    step-Steps (deletes user_id task now) s n i =
        still s _ refl (delete_task-Follows db law id slot user_id task now s)
