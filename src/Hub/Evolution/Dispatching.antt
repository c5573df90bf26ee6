-- ===== src/Hub/Evolution/Dispatching.antt =====
-- Messages, dispatches and cancellation in application/service/control/hub.go, and the sessions in
-- memory.
use agent_runtime_client.Base.{
  ℕ, String, Option, none, some, Option-cases, ◌≡◌, refl, inl, inr, Bool-cases, Map, lookup,
}
use agent_runtime_client.Protocol.Error.{Result, ok, err}
use agent_runtime_client.Protocol.Message.{
  Time, Action, Observation, Progress, TaskSession, normalize,
}
use agent_runtime_client.Protocol.Validate.{Codec}
use agent_runtime_client.Store.{Store}
use agent_runtime_client.Hub.State.{Device, PendingAction, Hub}
use agent_runtime_client.Hub.Tasks.{task, task_user_id, record_action, save_recorded}
use agent_runtime_client.Hub.Messages.{
  was_found, queue_observation, adopt, load_session, observe_late, observe, late_progress,
  pending_progress, progress,
}
use agent_runtime_client.Hub.Dispatch.{
  remember, deliver, send_action, on_failure, dispatch_to, dispatch_new, dispatch_unseen,
  dispatch_start, receive, persist_terminal_observation, cancel_dispatch, expire_dispatch,
}
use agent_runtime_client.Hub.Rules.{Leaves, leaves, Leaves-after, Leaves-ok, Leaves-then}
use agent_runtime_client.Hub.Evolution.{
  Origin, Evolves, EvolvesIn, stays, Evolves-trans, added, record_observation_locked-Evolves,
  record_progress-Evolves,
}
use agent_runtime_client.Hub.Evolution.Methods.{
  record_action-Leaves, save_recorded-Leaves, record_observation-Leaves, called-Origin,
}

module _ {S : Type 0} ⦃db : Store S⦄ where
  task-sessions : (id : String) (h : Hub S) → (task id h).1.sessions ≡ h.sessions
  unfolding task
  task-sessions id h = elim (Option-cases (lookup id h.sessions)) [
    | inl e ↦ rw (e, task)
    | inr (t, e) ↦ rw (e, task)
  ]

  adopt-Evolves :
      (id : String) (found : Result (Option TaskSession)) (h : Hub S)
      → ((t : TaskSession) → found ≡ ok (some t) → Origin S id t)
      → lookup id h.sessions ≡ none
      → Evolves S h.sessions (adopt id found h).sessions
  unfolding adopt
  adopt-Evolves id (ok (some t)) h o e = added id t h.sessions e (o t refl)
  adopt-Evolves id (ok none) h o e = stays
  adopt-Evolves id (err x) h o e = stays

  load_session-Evolves :
      (id : String) (h : Hub S) → Evolves S h.sessions (load_session id h).1.sessions
  unfolding load_session
  load_session-Evolves id h = elim (Option-cases (lookup id h.sessions)) [
    | inl e ↦ rw (e, load_session) (adopt-Evolves id _ _ (λ t o. called-Origin id h.store t o) e)
    | inr (t, e) ↦ rw (e, load_session) (stays)
  ]

  task-Evolves : (id : String) (h : Hub S) → Evolves S h.sessions (task id h).1.sessions
  task-Evolves id h = rw (task-sessions id h) (stays)

  observe_late-Leaves :
      (o : Observation) (now : Time) (h : Hub S)
      → Leaves (EvolvesIn h.sessions) (observe_late o now h)
  unfolding observe_late
  observe_late-Leaves o now h = elim (Bool-cases (was_found (task o.task_id h).0)) [
    | inl e ↦
        rw (e, observe_late)
          (Leaves-then (EvolvesIn h.sessions) (load_session o.task_id) _ (task o.task_id h).1
            (record {
              holds =
                  Evolves-trans _ _ _ (task-Evolves o.task_id h)
                    (load_session-Evolves o.task_id (task o.task_id h).1);
            })
            (λ _ _ k. record_observation-Leaves o.task_id _ now _ _ k))
    | inr e ↦ rw (e, observe_late) (record { holds = task-Evolves o.task_id h })
  ]

  queue_observation-Leaves :
      (p : PendingAction) (o : Observation) (h : Hub S)
      → Leaves (EvolvesIn h.sessions) (queue_observation p o h)
  unfolding queue_observation
  queue_observation-Leaves p o h = elim (Option-cases p.channel) [
    | inl e ↦ rw (e, queue_observation) (leaves (EvolvesIn h.sessions) _ _ stays)
    | inr (x, e) ↦ rw (e, queue_observation) (leaves (EvolvesIn h.sessions) _ _ stays)
  ]

  pub observe-Leaves :
      (codec : Codec) (o : Observation) (now : Time) (h : Hub S)
      → Leaves (EvolvesIn h.sessions) (observe codec o now h)
  unfolding observe
  observe-Leaves codec o now h = Leaves-after (EvolvesIn h.sessions) _ _ _ stays λ _ _.
      Leaves-after (EvolvesIn h.sessions) _ _ _ stays λ _ _.
        Leaves-ok (EvolvesIn h.sessions) _ _ _ (elim (Option-cases (lookup o.action_id h.pending)) [
          | inl e ↦ rw e (observe_late-Leaves o now _)
          | inr (p, e) ↦ rw e (queue_observation-Leaves p o _)
        ])

  late_progress-Leaves :
      (p : Progress) (now : Time) (h : Hub S)
      → Leaves (EvolvesIn h.sessions) (late_progress p now h)
  unfolding late_progress
  late_progress-Leaves p now h = elim (Bool-cases (was_found (task p.task_id h).0)) [
    | inl e ↦
        rw (e, late_progress)
          (record {
            holds =
                Evolves-trans _ _ _ (task-Evolves p.task_id h)
                  (record_progress-Evolves p.task_id p now (task p.task_id h).1);
          })
    | inr e ↦ rw (e, late_progress) (record { holds = task-Evolves p.task_id h })
  ]

  pending_progress-Leaves :
      (pending : PendingAction) (p : Progress) (now : Time) (h : Hub S)
      → Leaves (EvolvesIn h.sessions) (pending_progress pending p now h)
  unfolding pending_progress
  pending_progress-Leaves pending p now h = Leaves-after (EvolvesIn h.sessions) _ _ _ stays λ _ _.
      Leaves-ok (EvolvesIn h.sessions) _ _ _
        (leaves (EvolvesIn h.sessions) _ _ (record_progress-Evolves p.task_id p now h))

  pub progress-Leaves :
      (p : Progress) (now : Time) (h : Hub S) → Leaves (EvolvesIn h.sessions) (progress p now h)
  unfolding progress
  progress-Leaves p now h = Leaves-after (EvolvesIn h.sessions) _ _ _ stays λ _ _.
      Leaves-ok (EvolvesIn h.sessions) _ _ _ (elim (Option-cases (lookup p.action_id h.pending)) [
        | inl e ↦ rw e (late_progress-Leaves p now h)
        | inr (pending, e) ↦ rw e (pending_progress-Leaves pending p now h)
      ])

  task_user_id-sessions : (id : String) (h : Hub S) → (task_user_id id h).1.sessions ≡ h.sessions
  unfolding task_user_id
  task_user_id-sessions id h = elim (Option-cases (lookup id h.sessions)) [
    | inl e ↦ rw (e, task_user_id)
    | inr (t, e) ↦ rw (e, task_user_id)
  ]

  deliver-Leaves :
      (conn : ℕ) (a : Action) (m : Map TaskSession) (h : Hub S)
      → Evolves S m h.sessions
      → Leaves (EvolvesIn m) (deliver conn a h)
  unfolding deliver
  deliver-Leaves conn a m h k = elim (Bool-cases (h.reachable conn)) [
    | inl e ↦ rw (e, deliver) (leaves (EvolvesIn m) _ _ k)
    | inr e ↦ rw (e, deliver) (leaves (EvolvesIn m) _ _ k)
  ]

  send_action-Leaves :
      (d : Device) (device_id : String) (a : Action) (now : Time) (h : Hub S)
      → Leaves (EvolvesIn h.sessions) (send_action d device_id a now h)
  unfolding send_action
  send_action-Leaves d device_id a now h =
      let same : Evolves S h.sessions (task_user_id a.task_id h).1.sessions =
        rw (task_user_id-sessions a.task_id h) (stays) in
      Leaves-after (EvolvesIn h.sessions) _ _ _ same λ _ _.
        Leaves-after (EvolvesIn h.sessions) _ _ _ same λ _ _.
          Leaves-after (EvolvesIn h.sessions) _ _ _ same λ _ _.
            Leaves-then (EvolvesIn h.sessions) (record_action device_id a now) _ _
              (record_action-Leaves device_id a now h.sessions _ same)
              (λ _ _ k. deliver-Leaves d.conn a h.sessions _ k)

  on_failure-Leaves :
      {A : Type 0} (m : Map TaskSession) (id : String) (r : Result A) (h : Hub S)
      → Evolves S m h.sessions
      → Leaves (EvolvesIn m) (on_failure id r h)
  unfolding on_failure
  on_failure-Leaves m id (ok a) h k = record { holds = k }
  on_failure-Leaves m id (err e) h k = record { holds = k }

  dispatch_to-Leaves :
      (d : Device) (device_id : String) (a : Action)
      (on_progress : Option (Progress → Result (Unit {0}))) (now : Time) (h : Hub S)
      → Leaves (EvolvesIn h.sessions) (dispatch_to d device_id a on_progress now h)
  unfolding dispatch_to
  dispatch_to-Leaves d device_id a on_progress now h =
      Leaves-after (EvolvesIn h.sessions) _ _ _ stays λ _ _.
        Leaves-ok (EvolvesIn h.sessions) _ _ _ (
          Leaves-after (EvolvesIn h.sessions) _ _ _ stays λ _ _.
            Leaves-ok (EvolvesIn h.sessions) _ _ _ (
              on_failure-Leaves h.sessions a.action_id _ _
                (send_action-Leaves d device_id a now _).holds))

  dispatch_new-Leaves :
      (device_id : String) (a : Action) (on_progress : Option (Progress → Result (Unit {0})))
      (now : Time) (h : Hub S)
      → Leaves (EvolvesIn h.sessions) (dispatch_new device_id a on_progress now h)
  unfolding dispatch_new
  dispatch_new-Leaves device_id a on_progress now h =
      elim (Option-cases (lookup device_id h.devices)) [
        | inl e ↦ rw (e, dispatch_new) (leaves (EvolvesIn h.sessions) _ h stays)
        | inr (d, e) ↦ rw (e, dispatch_new) (dispatch_to-Leaves d device_id a on_progress now h)
      ]

  dispatch_unseen-Leaves :
      (device_id : String) (a : Action) (on_progress : Option (Progress → Result (Unit {0})))
      (now : Time) (h : Hub S)
      → Leaves (EvolvesIn h.sessions) (dispatch_unseen device_id a on_progress now h)
  unfolding dispatch_unseen
  dispatch_unseen-Leaves device_id a on_progress now h =
      Leaves-after (EvolvesIn h.sessions) _ _ _ stays λ stored _. elim (Option-cases stored) [
        | inl e ↦ rw e (dispatch_new-Leaves device_id a on_progress now _)
        | inr (o, e) ↦ rw e (leaves (EvolvesIn h.sessions) _ _ stays)
      ]

  pub dispatch_start-Leaves :
      (device_id : String) (a : Action) (on_progress : Option (Progress → Result (Unit {0})))
      (now : Time) (h : Hub S)
      → Leaves (EvolvesIn h.sessions) (dispatch_start device_id a on_progress now h)
  unfolding dispatch_start
  dispatch_start-Leaves device_id a on_progress now h =
      Leaves-after (EvolvesIn h.sessions) _ _ _ stays λ _ _.
        Leaves-after (EvolvesIn h.sessions) _ _ _ stays λ _ _.
          Leaves-ok (EvolvesIn h.sessions) _ _ _
            (elim (Option-cases (lookup (normalize a).idempotency_key h.completed)) [
              | inl e ↦ rw e (dispatch_unseen-Leaves device_id (normalize a) on_progress now h)
              | inr (o, e) ↦ rw e (leaves (EvolvesIn h.sessions) _ h stays)
            ])

  pub receive-Leaves :
      (a : Action) (o : Observation) (now : Time) (h : Hub S)
      → Leaves (EvolvesIn h.sessions) (receive a o now h)
  unfolding receive remember
  receive-Leaves a o now h = record {
    holds =
        (Leaves-after (EvolvesIn h.sessions) _ _ h stays λ _ _.
          Leaves-ok (EvolvesIn h.sessions) _ _ _ (
            Leaves-after (EvolvesIn h.sessions) _ _ _
              (record_observation_locked-Evolves a.task_id _ now _)
              λ _ _.
                Leaves-then (EvolvesIn h.sessions) (save_recorded a.task_id) _ _
                  (save_recorded-Leaves a.task_id _ _
                    (record_observation_locked-Evolves a.task_id _ now _))
                  (λ _ _ k. leaves (EvolvesIn h.sessions) _ _ k))).holds;
  }

  persist_terminal_observation-Leaves :
      (a : Action) (status message : String) (now : Time) (m : Map TaskSession) (h : Hub S)
      → Evolves S m h.sessions
      → Leaves (EvolvesIn m) (persist_terminal_observation a status message now h)
  unfolding persist_terminal_observation
  persist_terminal_observation-Leaves a status message now m h k =
      Leaves-ok (EvolvesIn m) _ _ _
        (Leaves-ok (EvolvesIn m) _ _ _ (record_observation-Leaves a.task_id _ now m _ k))

  pub cancel_dispatch-Leaves :
      (conn : ℕ) (a : Action) (reason : String) (now : Time) (h : Hub S)
      → Leaves (EvolvesIn h.sessions) (cancel_dispatch conn a reason now h)
  unfolding cancel_dispatch
  cancel_dispatch-Leaves conn a reason now h = record {
    holds =
        (Leaves-ok (EvolvesIn h.sessions) _ _ _ (
          Leaves-then (EvolvesIn h.sessions) (persist_terminal_observation a _ reason now) _ _
            (persist_terminal_observation-Leaves a _ reason now h.sessions _ stays)
            (λ _ _ k. leaves (EvolvesIn h.sessions) _ _ k))).holds;
  }

  pub expire_dispatch-Leaves :
      (conn : ℕ) (a : Action) (now : Time) (h : Hub S)
      → Leaves (EvolvesIn h.sessions) (expire_dispatch conn a now h)
  unfolding expire_dispatch
  expire_dispatch-Leaves conn a now h = record {
    holds =
        (Leaves-ok (EvolvesIn h.sessions) _ _ _ (
          Leaves-then (EvolvesIn h.sessions) (persist_terminal_observation a _ _ now) _ _
            (persist_terminal_observation-Leaves a _ _ now h.sessions _ stays)
            (λ _ _ k. leaves (EvolvesIn h.sessions) _ _ k))).holds;
  }
