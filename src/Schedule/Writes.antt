-- ===== src/Schedule/Writes.antt =====
-- The statements of application/service/scheduledtask/service.go on the tasks, one by one: none changes an
-- identifier, and none but a claim changes a slot.
use agent_runtime_client.Base.{
  ℤ, String, Bool, true, false, not, ◌&&◌, ◌||◌, List, ◌==◌, ◌≡◌, refl, ◌∙◌, inl, inr, eq_iff,
  Bool-cases,
}
use agent_runtime_client.Protocol.Error.{Error, Result, ok, err}
use agent_runtime_client.Store.{next, lift}
use agent_runtime_client.Schedule.Rows.{
  Bytes, ScheduledTask, JobExecution, TaskDatabase, result_limit, active, paused,
}
use agent_runtime_client.Schedule.Requests.{update, delete_task, own_task, affected, no_task}
use agent_runtime_client.Schedule.Text.{utf8, truncate, asks_for_action}
use agent_runtime_client.Schedule.Running.{
  open_job, close_job, request_review, write_result, Finish, Completed,
}
use agent_runtime_client.Schedule.Ticks.{Moment, Scheduler, claimable, claim}
use agent_runtime_client.Schedule.Slots.{
  Sound, Keeps, Follows, Follows-same, Follows-trans, update-Follows, written, written-Keeps,
  claim-Keeps,
}

pub right_of : (b : Bool) → (false || b) ≡ true → b ≡ true
right_of b h = h

left_of : (a b : Bool) → (a && b) ≡ true → a ≡ true
left_of true b h = refl
left_of false b h = cc

lift-state :
    {D A B : Type 0} (r : Result A) (f : A → Result B) (d : D) → (next r (λ a. lift (f a)) d).1 ≡ d
unfolding next
lift-state (ok a) f d = refl
lift-state (err e) f d = refl

module _ {D : Type 0} (db : TaskDatabase D) (law : Sound db) (id slot : String) where
  abbrev pub rows : D → List ScheduledTask
  rows d = db.tasks.rows d

  pub open_job-Follows :
      (task : ScheduledTask) (job : String) (now : ℤ) (d : D)
      → Follows id slot (rows d) (rows (open_job db task job now d).1)
  unfolding open_job
  open_job-Follows task job now d = Follows-same id slot _ _ (law.job _ _ ∙ law.agents _ _ _ d)

  module _ (error_text : Error → String) (parameters : ScheduledTask → Bytes → String) where
    request_review-rows :
        (task : ScheduledTask) (job : JobExecution) (outcome : Result Completed) (d : D)
        → rows (request_review db error_text parameters task job outcome d) ≡ rows d
    unfolding request_review
    request_review-rows task job (err e) d = refl
    request_review-rows task job (ok c) d =
        elim (Bool-cases (asks_for_action (truncate (utf8 c.content) result_limit))) [
          | inl e ↦ rw e (law.approval _ d)
          | inr e ↦ rw e refl
        ]

    write_result-Keeps :
        (task : ScheduledTask) (started : ℤ) (outcome : Result Completed)
        → Keeps id slot (write_result error_text task started outcome)
    unfolding write_result
    write_result-Keeps task started (err e) = record { key = λ r. refl; closed = λ r h. h }
    write_result-Keeps task started (ok c) = record { key = λ r. refl; closed = λ r h. h }

    pub close_job-Follows :
        (task : ScheduledTask) (job : JobExecution) (f : Finish) (d : D)
        → Follows id slot (rows d) (rows (close_job db error_text parameters task job f d))
    unfolding close_job
    close_job-Follows task job f d =
        let reviewed = request_review db error_text parameters task job f.outcome d in
        Follows-trans id slot _ _ _
          (Follows-same id slot _ _
            (law.jobs _ _ reviewed ∙ request_review-rows task job f.outcome d))
          (update-Follows db law id slot _ _ _
            (written-Keeps id slot _ _ (write_result-Keeps task job.started_at f.outcome)))

  -- The claim of a slot for another task, or of this slot for the task, opens no slot of the task.
  pub claim-written :
      (now : Moment) (task : ScheduledTask)
      → (not (task.ulid == id) || now.slot == slot) ≡ true
      → Keeps id slot (written (claimable task.ulid now.slot) (claim now.slot now.millis))
  claim-written now task i = elim (Bool-cases (task.ulid == id)) [
    | inl e ↦
        let k : now.slot ≡ slot = (eq_iff _ _).0 (right_of (now.slot == slot) (rw e at i)) in
        rw k (written-Keeps id slot _ _ (claim-Keeps id slot now.millis))
    | inr e ↦ record {
      key = λ r. elim (Bool-cases (claimable task.ulid now.slot r)) [
        | inl c ↦ rw c refl
        | inr c ↦ rw c refl
      ];
      closed = λ r h. elim (Bool-cases (claimable task.ulid now.slot r)) [
        | inl c ↦
            let u : r.ulid ≡ task.ulid = (eq_iff _ _).0 (
              left_of (r.ulid == task.ulid) (r.status == active) (
                left_of (r.ulid == task.ulid && r.status == active)
                  (r.last_slot == "" || not (r.last_slot == now.slot)) c)) in
            let v : r.ulid == id ≡ false = rw u e in rw (c, v) refl
        | inr c ↦ rw c h
      ];
    }
  ]

  pub change-Follows :
      (user_id task status : String) (s : Scheduler D)
      → Follows id slot (rows s.db) (rows (update db user_id task status s.db).1)
  unfolding update next
  change-Follows user_id task status s =
      elim (Bool-cases (not (status == active) && not (status == paused))) [
        | inl e ↦ rw e (Follows-same id slot _ _ refl)
        | inr e ↦
            rw
              (
                e,
                lift-state
                    (db.tasks.update (own_task user_id task) (λ r. record r { status = status })
                      s.db).0
                    (affected no_task)
                    (db.tasks.update (own_task user_id task) (λ r. record r { status = status })
                      s.db).1,
              )
              (update-Follows db law id slot _ _ s.db (
                written-Keeps id slot (own_task user_id task) _
                  (record { key = λ r. refl; closed = λ r h. h })))
      ]

  pub delete_task-Follows :
      (user_id task : String) (now : ℤ) (s : Scheduler D)
      → Follows id slot (rows s.db) (rows (delete_task db user_id task now s.db).1)
  unfolding delete_task
  delete_task-Follows user_id task now s =
      rw
        (lift-state
          (db.tasks.update (own_task user_id task)
            (λ r. record r { deleted_at = now; status = paused }) s.db).0
          (affected no_task)
          (db.tasks.update (own_task user_id task)
            (λ r. record r { deleted_at = now; status = paused }) s.db).1)
        (update-Follows db law id slot _ _ s.db (
          written-Keeps id slot (own_task user_id task) _
            (record { key = λ r. refl; closed = λ r h. h })))
