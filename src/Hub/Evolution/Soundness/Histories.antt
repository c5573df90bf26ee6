-- ===== src/Hub/Evolution/Soundness/Histories.antt =====
-- Well-formed sessions over whole histories of calls of application/service/control/hub.go.
use agent_runtime_client.Base.{
  ℕ, String, Bool, Option, none, some, Option-cases, List, [], ◌∷◌, ◌≡◌, inl, inr, ◌==◌, ◌||◌, eqb,
  Bool-cases, Map, lookup, any,
}
use agent_runtime_client.Protocol.Error.{ok}
use agent_runtime_client.Protocol.Message.{Time, DeviceMessage, Observation, TaskSession}
use agent_runtime_client.Protocol.Validate.{Codec}
use agent_runtime_client.Protocol.Status
use agent_runtime_client.Store.{Store}
use agent_runtime_client.Hub.State.{PendingAction, Hub, new_hub}
use agent_runtime_client.Hub.Sessions.{record_observation_locked}
use agent_runtime_client.Hub.Devices.{register, unregister, touch, bind_commit, install_device}
use agent_runtime_client.Hub.Tasks.{tasks}
use agent_runtime_client.Hub.Dispatch.{
  live_tasks, send_cancel, cancel_task, cancel_tasks, send_cancels, cancel_by_conversation,
}
use agent_runtime_client.Hub.Steps.{
  Event, registers, unregisters, touches, claims, binds, begins, sets_status, observes, progresses,
  dispatches, receives, cancels, expires, cancels_conversation, step, run,
}
use agent_runtime_client.Hub.Rules.{Leaves, leaves, Leaves-after, Leaves-ok, Leaves-then}
use agent_runtime_client.Hub.Evolution.Soundness.{
  Reliable, GoodStore, Whole, record_observation_locked-written,
}
use agent_runtime_client.Hub.Evolution.Soundness.Methods.{
  left_good, begin_task-Whole, set_task_status-Whole,
}
use agent_runtime_client.Hub.Evolution.Soundness.Dispatching.{
  observe-Whole, progress-Whole, dispatch_start-Whole, receive-Whole, cancel_dispatch-Whole,
  expire_dispatch-Whole,
}

module _ {S : Type 0} ⦃db : Store S⦄ {Good : S → Type 0} (reliable : Reliable db Good) where
  register-Whole :
      (message : DeviceMessage) (conn : Option ℕ) (now : Time) (h : Hub S)
      → Whole Good h
      → Leaves (Whole Good) (register message conn now h)
  unfolding register install_device
  register-Whole message none now h w = leaves (Whole Good) _ h w
  register-Whole message (some conn) now h (a, g) =
      let kept =
        left_good Good (db.find_device message.device_id) h.store
          (reliable.finding_device message.device_id) g in
      Leaves-after (Whole Good) _ _ _ (a, g)
        λ _ _.
          Leaves-after (Whole Good) _ _ _ (a, kept)
            λ _ _.
              Leaves-after (Whole Good) _ _ _
                (a, left_good Good (db.upsert_device _) _ (reliable.upserting _) kept)
                (λ _ _.
                  leaves (Whole Good) _ _
                    (a, left_good Good (db.upsert_device _) _ (reliable.upserting _) kept))

  unregister-Whole :
      (id : String) (conn : ℕ) (now : Time) (h : Hub S)
      → Whole Good h
      → Leaves (Whole Good) (unregister id conn now h)
  unfolding unregister
  unregister-Whole id conn now h (a, g) = elim (Option-cases (lookup id h.devices)) [
    | inl e ↦ rw (e, unregister) (leaves (Whole Good) _ h (a, g))
    | inr (d, e) ↦
        rw (e, unregister)
          (elim (Bool-cases (eqb d.conn conn)) [
            | inl f ↦ rw f (
                leaves (Whole Good) _ _ (
                  a,
                  left_good Good (db.set_device_online id _ now) h.store (reliable.seeing id _ now)
                      g,
                ))
            | inr f ↦ rw f (leaves (Whole Good) _ h (a, g))
          ])
  ]

  touch-Whole :
      (id : String) (now : Time) (h : Hub S) → Whole Good h → Leaves (Whole Good) (touch id now h)
  unfolding touch
  touch-Whole id now h (a, g) = Leaves-ok (Whole Good) _ _ _ (
      leaves (Whole Good) _ _
        (a, left_good Good (db.set_device_online id _ now) h.store (reliable.seeing id _ now) g))

  bind_commit-Whole :
      (id user_id : String) (h : Hub S)
      → Whole Good h
      → Leaves (Whole Good) (bind_commit id user_id h)
  unfolding bind_commit
  bind_commit-Whole id user_id h w =
      Leaves-ok (Whole Good) _ _ _
        (Leaves-after (Whole Good) _ _ _ w (λ _ _. leaves (Whole Good) _ _ w))

  cancel_task-Whole :
      (t : TaskSession) (now : Time) (h : Hub S) → Whole Good h → Whole Good (cancel_task t now h)
  unfolding cancel_task
  cancel_task-Whole t now h w =
      elim (Bool-cases (
        t.status == Status.completed
        || t.status == Status.failed
        || t.status == Status.cancelled)) [
          | inl e ↦ rw (e, cancel_task) w
          | inr e ↦
              rw (e, cancel_task)
                ((set_task_status-Whole reliable t.task_id Status.cancelled now h w).holds)
        ]

  cancel_tasks-Whole :
      (ts : List TaskSession) (now : Time) (h : Hub S)
      → Whole Good h
      → Whole Good (cancel_tasks ts now h)
  unfolding cancel_tasks
  cancel_tasks-Whole [] now h w = w
  cancel_tasks-Whole (t ∷ rest) now h w =
      cancel_tasks-Whole rest now (cancel_task t now h) (cancel_task-Whole t now h w)

  send_cancel-Whole :
      (ids : List String) (reason : String) (p : PendingAction) (h : Hub S)
      → Whole Good h
      → Whole Good (send_cancel ids reason p h)
  unfolding send_cancel
  send_cancel-Whole ids reason p h w = elim (Bool-cases (any (λ t. t == p.action.task_id) ids)) [
    | inl e ↦
        rw (e, send_cancel)
          (elim (Option-cases (lookup p.device_id h.devices)) [
            | inl f ↦ rw f w
            | inr (d, f) ↦ rw f w
          ])
    | inr e ↦ rw (e, send_cancel) w
  ]

  send_cancels-Whole :
      (ids : List String) (reason : String) (ps : Map PendingAction) (h : Hub S)
      → Whole Good h
      → Whole Good (send_cancels ids reason ps h)
  unfolding send_cancels
  send_cancels-Whole ids reason [] h w = w
  send_cancels-Whole ids reason ((id, p) ∷ rest) h w =
      send_cancels-Whole ids reason rest (send_cancel ids reason p h)
        (send_cancel-Whole ids reason p h w)

  tasks-Whole :
      (user_id conversation_id : String) (limit : ℕ) (h : Hub S)
      → Whole Good h
      → Whole Good (tasks user_id conversation_id limit h).1
  unfolding tasks
  tasks-Whole user_id conversation_id limit h (a, g) = elim (Option-cases h.store) [
    | inl e ↦ rw (e, tasks) (a, g)
    | inr (st, e) ↦
        rw (e, tasks)
          (
            a,
            left_good Good (db.list_tasks user_id conversation_id limit) h.store
                (reliable.listing user_id conversation_id limit) g,
          )
  ]

  cancel_by_conversation-Whole :
      (user_id conversation_id reason : String) (now : Time) (h : Hub S)
      → Whole Good h
      → Leaves (Whole Good) (cancel_by_conversation user_id conversation_id reason now h)
  unfolding cancel_by_conversation
  cancel_by_conversation-Whole user_id conversation_id reason now h w =
      elim (Bool-cases (user_id == "" || conversation_id == "")) [
        | inl e ↦ rw (e, cancel_by_conversation) (leaves (Whole Good) _ h w)
        | inr e ↦
            rw (e, cancel_by_conversation)
              (Leaves-then (Whole Good) (tasks user_id conversation_id 100) _ h
                (record { holds = tasks-Whole user_id conversation_id 100 h w })
                λ ts _ k. Leaves-ok (Whole Good) _ _ _ (record {
                  holds =
                      send_cancels-Whole (live_tasks ts) reason _ _ (cancel_tasks-Whole ts now _ k);
                }))
      ]

  module _ (codec : Codec) where
    step-Whole : (e : Event) (h : Hub S) → Whole Good h → Whole Good (step codec e h)
    unfolding step
    step-Whole (registers message conn now) h w = (register-Whole message conn now h w).holds
    step-Whole (unregisters id conn now) h w = (unregister-Whole id conn now h w).holds
    step-Whole (touches id now) h w = (touch-Whole id now h w).holds
    step-Whole (claims id user_id) h (a, g) =
        (a, left_good Good (db.bind_device id user_id) h.store (reliable.binding id user_id) g)
    step-Whole (binds id user_id) h w = (bind_commit-Whole id user_id h w).holds
    step-Whole (begins id user_id conversation_id device_id now) h w =
        (begin_task-Whole reliable id user_id conversation_id device_id now h w).holds
    step-Whole (sets_status id status now) h w =
        (set_task_status-Whole reliable id status now h w).holds
    step-Whole (observes o now) h w = (observe-Whole reliable codec o now h w).holds
    step-Whole (progresses p now) h w = (progress-Whole reliable p now h w).holds
    step-Whole (dispatches id a on_progress now) h w =
        (dispatch_start-Whole reliable id a on_progress now h w).holds
    step-Whole (receives a o now) h w = (receive-Whole reliable a o now h w).holds
    step-Whole (cancels conn a reason now) h w =
        (cancel_dispatch-Whole reliable conn a reason now h w).holds
    step-Whole (expires conn a now) h w = (expire_dispatch-Whole reliable conn a now h w).holds
    step-Whole (cancels_conversation user_id conversation_id reason now) h w =
        (cancel_by_conversation-Whole user_id conversation_id reason now h w).holds

    -- If the repository finds only sound sessions in its good states, and every call keeps it in a good
    -- state, a write of a session provided that the session is sound, then after every history of calls,
    -- from a hub with sound sessions and a repository in a good state, every session in memory is sound,
    -- that is under its own task, with a status of the life cycle and a map of active sessions, and the
    -- repository is in a good state.
    pub run-Whole : (h : Hub S) (es : List Event) → Whole Good h → Whole Good (run codec h es)
    unfolding run
    run-Whole h [] w = w
    run-Whole h (e ∷ es) w = run-Whole (step codec e h) es (step-Whole e h w)

-- With such a repository in a good state, or with none, and after any history of calls of a new hub,
-- writing an observation to a session does not panic, whatever the session and the observation: the
-- map that it writes to is there.
pub run-record_observation_locked :
    {S : Type 0} ⦃db : Store S⦄ {Good : S → Type 0} (reliable : Reliable db Good) (codec : Codec)
    (store : Option S) (reachable : ℕ → Bool) (es : List Event) (id : String) (o : Observation)
    (now : Time)
    → GoodStore Good store
    → (record_observation_locked id o now (run codec (new_hub store reachable) es)).0 ≡ ok tt
unfolding new_hub
run-record_observation_locked reliable codec store reachable es id o now good =
    record_observation_locked-written id o now _
      (run-Whole reliable codec (new_hub store reachable) es (tt, good)).0
