-- ===== src/Hub/Tasks.antt =====
-- The task methods of application/service/control/hub.go. `now` is the time that a method reads.

use agent_runtime_client.Base.{
  ℕ, zero, suc, take, String, Bool, true, not, ◌&&◌, ◌||◌, Option, none, some, List, [], ◌∷◌, ◌++◌,
  pos, Map, lookup, put, ◌==◌, if◌then◌else◌,
}
use agent_runtime_client.Protocol.Error.{Error, Result, ok, err, task_of_another, task_status}
use agent_runtime_client.Protocol.Error
use agent_runtime_client.Protocol.Message.{Time, Action, Observation, TaskSession}
use agent_runtime_client.Protocol.Status.{
  waiting_action, valid_task_status, can_transition_task_status,
}
use agent_runtime_client.Store.{Store}
use agent_runtime_client.Hub.Sessions.{
  entries, clone_task, conversation_key, executing_status, put_task, record_observation_locked,
}
use agent_runtime_client.Hub.State.{◌>>=◌, ◌>>◌, M, lift, get, modify, attempt, call}

-- The inner loop of `ActiveSessions`: a family that has no session yet takes this one.
fill_families : Map String → Map String → Map String
fill_families result [] = result
fill_families result ((family, session_id) ∷ rest) =
    let missing : Bool = elim (lookup family result) [ none ↦ true | some s ↦ s == "" ] in
    fill_families (if missing then put family session_id result else result) rest

fill_tasks : Map String → List TaskSession → Map String
fill_tasks result [] = result
fill_tasks result (t ∷ rest) = fill_tasks (fill_families result (entries t.active_sessions)) rest

-- The loop of `Tasks` over the sessions in memory, without its limit.
matching_tasks : String → String → Map TaskSession → List TaskSession
matching_tasks user_id conversation_id [] = []
matching_tasks user_id conversation_id ((id, t) ∷ rest) =
    let others = matching_tasks user_id conversation_id rest in
    if t.user_id == user_id && (conversation_id == "" || t.conversation_id == conversation_id)
    then clone_task t ∷ others
    else others

-- The break at a positive limit; 0 stands for every limit that is not positive.
limited : ℕ → List TaskSession → List TaskSession
limited zero ts = ts
limited (suc n) ts = take (suc n) ts

stored_sessions : Result (List TaskSession) → Map String
stored_sessions (err e) = []
stored_sessions (ok ts) = fill_tasks [] ts

stored_owner : Result (Option TaskSession) → String
stored_owner (ok (some t)) = t.user_id
stored_owner (ok none) = ""
stored_owner (err e) = ""

-- The session that `recordAction` extends: that in memory, or a new one.
unfoldable pub action_session : String → Action → Time → Option TaskSession → TaskSession
action_session device_id a now (some t) = t
action_session device_id a now none = record {
  task_id = a.task_id;
  conversation_id = "";
  user_id = "";
  device_id = device_id;
  status = "";
  sequence = pos 0;
  active_sessions = some [];
  actions = [];
  observations = [];
  created_at = now;
  updated_at = 0;
  metadata = none;
}

module _ {S : Type 0} ⦃db : Store S⦄ where
  -- `saveTask`
  unfoldable pub save_task : TaskSession → M S (Unit {0})
  save_task t h = if t.task_id == "" then (ok tt, h) else call (db.save_task t) tt h

  unfoldable pub begin_existing :
      String → String → String → String → Time → TaskSession → M S (Unit {0})
  begin_existing task_id user_id conversation_id device_id now current = do
    lift (
        Error.reject (not (current.user_id == "") && not (current.user_id == user_id))
          task_of_another)
    let t = record current {
      user_id = if current.user_id == "" then user_id else current.user_id;
      device_id = device_id;
      conversation_id = conversation_id;
      updated_at = now;
    }
    modify (put_task task_id t)
    save_task (clone_task t)

  unfoldable pub begin_new : String → String → String → String → Time → M S (Unit {0})
  begin_new task_id user_id conversation_id device_id now = do
    let t : TaskSession = record {
      task_id = task_id;
      conversation_id = conversation_id;
      user_id = user_id;
      device_id = device_id;
      status = waiting_action;
      sequence = pos 0;
      active_sessions = some [];
      actions = [];
      observations = [];
      created_at = now;
      updated_at = now;
      metadata = none;
    }
    modify (put_task task_id t)
    save_task (clone_task t)

  -- `BeginTask`
  unfoldable pub begin_task : String → String → String → String → Time → M S (Unit {0})
  unfolding begin_existing begin_new
  begin_task task_id user_id conversation_id device_id now h = elim (lookup task_id h.sessions) [
    | none ↦ begin_new task_id user_id conversation_id device_id now h
    | some current ↦ begin_existing task_id user_id conversation_id device_id now current h
  ]

  -- `ActiveSessions`; without a repository an empty answer stays empty.
  unfoldable pub active_sessions : String → String → M S (Map String)
  unfolding fill_tasks fill_families stored_sessions
  active_sessions user_id conversation_id h =
      elim (entries (lookup (conversation_key user_id conversation_id) h.active)) [
        | [] ↦
            let listing = call (db.list_tasks user_id conversation_id 20) [] h in
            (ok (stored_sessions listing.0), listing.1)
        | e ∷ rest ↦ (ok (e ∷ rest), h)
      ]

  -- `Task`: the session in memory, or the repository's.
  unfoldable pub task : String → M S (Option TaskSession)
  task task_id h = elim (lookup task_id h.sessions) [
    | some current ↦ (ok (some (clone_task current)), h)
    | none ↦ call (db.find_task task_id) none h
  ]

  -- `Tasks`
  unfoldable pub tasks : String → String → ℕ → M S (List TaskSession)
  unfolding matching_tasks limited
  tasks user_id conversation_id limit h = elim h.store [
    | some _ ↦ call (db.list_tasks user_id conversation_id limit) [] h
    | none ↦ (ok (limited limit (matching_tasks user_id conversation_id h.sessions)), h)
  ]

  -- `SetTaskStatus` from the point where the session is known.
  unfoldable pub change_status : String → String → Time → TaskSession → M S (Unit {0})
  change_status task_id status now current h =
      if not (can_transition_task_status current.status status)
      then (ok tt, h)
      else let t : TaskSession = record current { status = status; updated_at = now } in
        save_task (clone_task t) (put_task task_id t h)

  -- `SetTaskStatus` with a session that the repository found, or not.
  unfoldable pub adopt_status : String → String → Time → Option TaskSession → M S (Unit {0})
  adopt_status task_id status now none h = (ok tt, h)
  adopt_status task_id status now (some t) h =
      change_status task_id status now t (put_task task_id t h)

  -- `SetTaskStatus`
  unfoldable pub set_task_status : String → String → Time → M S (Unit {0})
  unfolding change_status adopt_status
  set_task_status task_id status now = do
    lift (Error.reject (not (valid_task_status status)) (task_status status))
    h ← get
    elim (lookup task_id h.sessions) [
      | some current ↦ change_status task_id status now current
      | none ↦ do found ← call (db.find_task task_id) none; adopt_status task_id status now found
    ]

  -- `taskUserID`
  unfoldable pub task_user_id : String → M S String
  unfolding stored_owner
  task_user_id task_id h = elim (lookup task_id h.sessions) [
    | some t ↦ (ok t.user_id, h)
    | none ↦ let found = call (db.find_task task_id) none h in (ok (stored_owner found.0), found.1)
  ]

  -- `recordAction`
  unfoldable pub record_action : String → Action → Time → M S (Unit {0})
  unfolding action_session
  record_action device_id a now h =
      let current : TaskSession = action_session device_id a now (lookup a.task_id h.sessions) in
      let t : TaskSession = record current {
        device_id = device_id;
        status = executing_status current.status;
        sequence = a.sequence;
        actions = current.actions ++ a ∷ [];
        updated_at = now;
      } in
      attempt (save_task (clone_task t)) (put_task a.task_id t h)

  unfoldable pub save_recorded : String → M S (Unit {0})
  save_recorded task_id h = elim (lookup task_id h.sessions) [
    | none ↦ (ok tt, h)
    | some t ↦ attempt (save_task (clone_task t)) h
  ]

  -- `recordObservation`
  unfoldable pub record_observation : String → Observation → Time → M S (Unit {0})
  unfolding save_recorded
  record_observation task_id o now = do
    record_observation_locked task_id o now
    save_recorded task_id
