-- ===== src/Hub/Messages.antt =====
-- The messages of a device in application/service/control/hub.go: observations and progress.
use agent_runtime_client.Base.{
  String, Bool, true, false, not, ◌||◌, Option, none, some, ◌==◌, lookup, put, int_eq,
  if◌then◌else◌,
}
use agent_runtime_client.Protocol.Error.{Error, Result, ok, err, already_queued, progress_mismatch}
use agent_runtime_client.Protocol.Error
use agent_runtime_client.Protocol.Message.{Time, Observation, Progress, TaskSession}
use agent_runtime_client.Protocol.Validate.{
  Codec, validate_observation, validate_progress, without_attachment_data,
}
use agent_runtime_client.Store.{Store}
use agent_runtime_client.Hub.State.{◌>>=◌, ◌>>◌, PendingAction, Hub, M, lift, get, modify, call}
use agent_runtime_client.Hub.Sessions.{put_task, record_progress}
use agent_runtime_client.Hub.Tasks.{task, record_observation}

-- Whether `Task` found a session; its error counts as none.
abbrev pub was_found : Result (Option TaskSession) → Bool
was_found (ok (some t)) = true
was_found (ok none) = false
was_found (err e) = false

abbrev pub run_handler : Option (Progress → Result (Unit {0})) → Progress → Result (Unit {0})
run_handler none p = ok tt
run_handler (some f) p = f p

module _ {S : Type 0} where
  -- `pending.channel <- observation`, or the default case when the channel is full.
  unfoldable pub queue_observation : PendingAction → Observation → M S (Unit {0})
  queue_observation p o h = elim p.channel [
    | some _ ↦ (err already_queued, h)
    | none ↦
        (ok tt, record h { pending = put o.action_id (record p { channel = some o }) h.pending })
  ]

  unfoldable pub adopt : String → Result (Option TaskSession) → Hub S → Hub S
  adopt task_id (ok (some t)) h = put_task task_id t h
  adopt task_id (ok none) h = h
  adopt task_id (err e) h = h

module _ {S : Type 0} ⦃db : Store S⦄ where
  -- A session that only the repository has is brought into memory.
  unfoldable pub load_session : String → M S (Unit {0})
  unfolding adopt
  load_session task_id h = elim (lookup task_id h.sessions) [
    | some _ ↦ (ok tt, h)
    | none ↦
        let found = call (db.find_task task_id) none h in (ok tt, adopt task_id found.0 found.1)
  ]

  -- `Observe` for an action that no dispatch waits for.
  unfoldable pub observe_late : Observation → Time → M S (Unit {0})
  observe_late o now h =
      let found = task o.task_id h in
      if was_found found.0
      then (do load_session o.task_id; record_observation o.task_id (without_attachment_data o) now)
          found.1
      else (ok tt, found.1)

  -- `Observe`
  unfoldable pub observe : Codec → Observation → Time → M S (Unit {0})
  unfolding observe_late
  observe codec o now = do
    lift (validate_observation codec o)
    call (db.save_observation (without_attachment_data o)) tt
    h ← get
    elim (lookup o.action_id h.pending) [
      | none ↦ observe_late o now
      | some p ↦ queue_observation p o
    ]

  -- `Progress` for an action that no dispatch waits for.
  unfoldable pub late_progress : Progress → Time → M S (Unit {0})
  late_progress p now h =
      let found = task p.task_id h in
      if was_found found.0
      then (ok tt, record_progress p.task_id p now found.1)
      else (ok tt, found.1)

  unfoldable pub pending_progress : PendingAction → Progress → Time → M S (Unit {0})
  pending_progress pending p now = do
    lift (
        Error.reject
          (not (pending.action.task_id == p.task_id)
            || not (int_eq pending.action.sequence p.sequence))
          progress_mismatch)
    modify (record_progress p.task_id p now)
    lift (run_handler pending.on_progress p)

  -- `Progress`
  unfoldable pub progress : Progress → Time → M S (Unit {0})
  unfolding late_progress pending_progress
  progress p now = do
    lift (validate_progress p)
    h ← get
    elim (lookup p.action_id h.pending) [
      | none ↦ late_progress p now
      | some pending ↦ pending_progress pending p now
    ]
