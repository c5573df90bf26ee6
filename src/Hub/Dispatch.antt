-- ===== src/Hub/Dispatch.antt =====
-- `Dispatch` and `CancelByConversation` of application/service/control/hub.go.
-- `Dispatch` waits for its observation, so it is two methods here: `dispatch_start` runs up to the
-- `select`, and `receive`, `cancel_dispatch` and `expire_dispatch` are the cases of the `select`,
-- with the deferred removal of the pending action. Other methods run between the two.
use agent_runtime_client.Base.{
  ℕ, String, Bool, true, false, not, ◌||◌, Option, none, some, List, [], ◌∷◌, ◌==◌, Map, lookup,
  put, delete, int_eq, leb, ltb, length, if◌then◌else◌, any,
}
use agent_runtime_client.Protocol.Error.{
  Error, Result, ok, err, deadline_expired, device_offline, capability_missing, already_pending,
  device_of_another, send_failed, observation_mismatch, cancelled, timed_out,
}
use agent_runtime_client.Protocol.Error
use agent_runtime_client.Protocol.Message.{
  Time, protocol, type_observation, Action, Observation, Progress, TaskSession, normalize,
  new_cancel,
}
use agent_runtime_client.Protocol.Status
use agent_runtime_client.Protocol.Validate.{
  validate_action, without_attachment_data, obs_cancelled, expired,
}
use agent_runtime_client.Store.{Store}
use agent_runtime_client.Hub.State.{
  Device, PendingAction, Hub, M, ◌>>=◌, ◌>>◌, pure, fail, lift, get, modify, attempt, call, send,
  completed_observation_limit,
}
use agent_runtime_client.Hub.State.Frame.{action, cancel}
use agent_runtime_client.Hub.Devices.{supports_capability, owned_by_other}
use agent_runtime_client.Hub.Sessions.{record_observation_locked}
use agent_runtime_client.Hub.Tasks.{
  tasks, set_task_status, task_user_id, record_action, record_observation, save_recorded,
}

-- What `Dispatch` has reached when it returns at once, or when it waits: the connection that it read
-- from the device, and the action that it sent.
pub data Started : Type 0 where
  finished : Observation → Started
  waiting : ℕ → Action → Started

-- The observation that stands for a dispatch that was cancelled or has expired.
unfoldable pub terminal_observation : Action → String → String → Time → Observation
terminal_observation a status message now = record {
  protocol = protocol;
  type = type_observation;
  task_id = a.task_id;
  action_id = a.action_id;
  session_id = a.session_id;
  sequence = a.sequence;
  status = status;
  observed_at = now;
  state = none;
  attachments = [];
  error = message;
}

-- The tasks that `CancelByConversation` cancels.
unfoldable pub live_tasks : List TaskSession → List String
live_tasks [] = []
live_tasks (t ∷ rest) =
    let others = live_tasks rest in
    if t.status == Status.completed || t.status == Status.failed || t.status == Status.cancelled
    then others
    else t.task_id ∷ others

module _ {S : Type 0} where
  -- The deferred function of `Dispatch`.
  abbrev pub forget : String → Hub S → Hub S
  forget action_id h = record h { pending = delete action_id h.pending }

  -- The deferred function runs where a part of `Dispatch` fails, and the dispatch waits otherwise.
  unfoldable pub on_failure : {A : Type 0} → String → Result A → Hub S → Result A × Hub S
  on_failure action_id (ok a) h = (ok a, h)
  on_failure action_id (err e) h = (err e, forget action_id h)

  abbrev pub guarded : {A : Type 0} → String → M S A → M S A
  guarded action_id m h = on_failure action_id (m h).0 (m h).1

  -- A part of `Dispatch` after which the deferred function runs.
  abbrev pub finally : {A : Type 0} → String → M S A → M S A
  finally action_id m h = ((m h).0, forget action_id (m h).1)

  abbrev pub is_pending : String → Hub S → Bool
  is_pending action_id h = elim (lookup action_id h.pending) [ none ↦ false | some _ ↦ true ]

  -- The entry that a received observation leaves in the cache, which is emptied when it is full.
  unfoldable pub remember : String → Observation → Hub S → Hub S
  remember key o h = record h {
    completed =
        put key o
          (if leb completed_observation_limit (length h.completed) then [] else h.completed);
  }

  unfoldable pub deliver : ℕ → Action → M S Started
  deliver conn a h =
      if h.reachable conn
      then (ok (waiting conn a), send conn (action a) h)
      else (err send_failed, h)

  -- The loop of `CancelByConversation` over the pending actions of the cancelled tasks.
  unfoldable pub send_cancel : List String → String → PendingAction → Hub S → Hub S
  send_cancel task_ids reason p h =
      if any (λ t. t == p.action.task_id) task_ids
      then elim (lookup p.device_id h.devices) [
        | none ↦ h
        | some d ↦ send d.conn (cancel (new_cancel p.action reason)) h
      ]
      else h

  unfoldable pub send_cancels : List String → String → Map PendingAction → Hub S → Hub S
  send_cancels task_ids reason [] h = h
  send_cancels task_ids reason ((id, p) ∷ rest) h =
      send_cancels task_ids reason rest (send_cancel task_ids reason p h)

module _ {S : Type 0} ⦃db : Store S⦄ where
  -- `Dispatch` once the action is pending: the owner is checked, the action recorded and sent.
  unfoldable pub send_action : Device → String → Action → Time → M S Started
  send_action d device_id a now = do
    user_id ← task_user_id a.task_id
    lift (Error.reject (owned_by_other user_id d) device_of_another)
    call (db.save_action device_id user_id a) tt
    record_action device_id a now
    deliver d.conn a

  -- `Dispatch` once the device is known.
  unfoldable pub dispatch_to :
      Device → String → Action → Option (Progress → Result (Unit {0})) → Time → M S Started
  dispatch_to d device_id a on_progress now = do
    lift (Error.reject (not (supports_capability d.capabilities a.capability)) capability_missing)
    h ← get
    lift (Error.reject (is_pending a.action_id h) already_pending)
    modify (λ h. record h {
      pending =
          put a.action_id
            (record {
              channel = none;
              device_id = device_id;
              action = a;
              on_progress = on_progress;
            })
            h.pending;
    })
    guarded a.action_id (send_action d device_id a now)

  -- `Dispatch` once the action is known to be new.
  unfoldable pub dispatch_new :
      String → Action → Option (Progress → Result (Unit {0})) → Time → M S Started
  dispatch_new device_id a on_progress now h = elim (lookup device_id h.devices) [
    | none ↦ (err device_offline, h)
    | some d ↦ dispatch_to d device_id a on_progress now h
  ]

  unfoldable pub dispatch_unseen :
      String → Action → Option (Progress → Result (Unit {0})) → Time → M S Started
  dispatch_unseen device_id a on_progress now = do
    stored ← call (db.find_observation_by_idempotency a.idempotency_key) none
    elim stored [ some o ↦ pure (finished o) | none ↦ dispatch_new device_id a on_progress now ]

  -- `Dispatch` up to its `select`.
  unfoldable pub dispatch_start :
      String → Action → Option (Progress → Result (Unit {0})) → Time → M S Started
  unfolding dispatch_unseen
  dispatch_start device_id given on_progress now = do
    let a = normalize given
    lift (validate_action a)
    lift (Error.reject (not (ltb now a.deadline)) deadline_expired)
    h ← get
    elim (lookup a.idempotency_key h.completed) [
      | some o ↦ pure (finished o)
      | none ↦ dispatch_unseen device_id a on_progress now
    ]

  -- The case of `Dispatch` in which an observation arrives.
  unfoldable pub receive : Action → Observation → Time → M S Observation
  receive a o now = finally a.action_id do
    lift (
        Error.reject (not (o.task_id == a.task_id) || not (int_eq o.sequence a.sequence))
          observation_mismatch)
    modify (remember a.idempotency_key (without_attachment_data o))
    record_observation_locked a.task_id (without_attachment_data o) now
    save_recorded a.task_id
    pure o

  -- `persistTerminalObservation`
  unfoldable pub persist_terminal_observation : Action → String → String → Time → M S (Unit {0})
  persist_terminal_observation a status message now = do
    let o = terminal_observation a status message now
    attempt (call (db.save_observation o) tt)
    modify (λ h. record h { completed = put a.idempotency_key o h.completed })
    record_observation a.task_id o now

  -- The case of `Dispatch` in which the caller's context ends, with the error `reason`.
  unfoldable pub cancel_dispatch : ℕ → Action → String → Time → M S Observation
  cancel_dispatch conn a reason now = finally a.action_id do
    modify (send conn (cancel (new_cancel a "request canceled")))
    persist_terminal_observation a obs_cancelled reason now
    fail cancelled

  -- The case of `Dispatch` in which the deadline passes.
  unfoldable pub expire_dispatch : ℕ → Action → Time → M S Observation
  expire_dispatch conn a now = finally a.action_id do
    modify (send conn (cancel (new_cancel a "action deadline exceeded")))
    persist_terminal_observation a expired "action deadline exceeded" now
    fail timed_out

  -- The loop of `CancelByConversation` over the tasks.
  unfoldable pub cancel_task : TaskSession → Time → Hub S → Hub S
  cancel_task t now h =
      if t.status == Status.completed || t.status == Status.failed || t.status == Status.cancelled
      then h
      else (set_task_status t.task_id Status.cancelled now h).1

  unfoldable pub cancel_tasks : List TaskSession → Time → Hub S → Hub S
  cancel_tasks [] now h = h
  cancel_tasks (t ∷ rest) now h = cancel_tasks rest now (cancel_task t now h)

  -- `CancelByConversation`
  unfoldable pub cancel_by_conversation : String → String → String → Time → M S (Unit {0})
  cancel_by_conversation user_id conversation_id reason now h =
      if user_id == "" || conversation_id == ""
      then (ok tt, h)
      else (do
        ts ← tasks user_id conversation_id 100
        modify (cancel_tasks ts now)
        modify (λ h. send_cancels (live_tasks ts) reason h.pending h))
          h
