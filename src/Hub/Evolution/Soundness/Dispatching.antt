-- ===== src/Hub/Evolution/Soundness/Dispatching.antt =====
-- Messages and dispatches in application/service/control/hub.go keep well-formed sessions, in memory and
-- in the repository.
use agent_runtime_client.Base.{
  ℕ, String, Option, none, some, Option-cases, ◌≡◌, refl, inl, inr, ◌==◌, Bool-cases, lookup,
}
use agent_runtime_client.Protocol.Error.{Result, ok, err}
use agent_runtime_client.Protocol.Message.{
  Time, Action, Observation, Progress, TaskSession, normalize,
}
use agent_runtime_client.Protocol.Validate.{Codec, without_attachment_data}
use agent_runtime_client.Store.{Store}
use agent_runtime_client.Hub.State.{Device, PendingAction, Hub}
use agent_runtime_client.Hub.Sessions.{
  closes, record_session, record_observation_locked, record_progress,
}
use agent_runtime_client.Hub.Tasks.{
  task, task_user_id, record_action, record_observation, save_recorded,
}
use agent_runtime_client.Hub.Messages.{
  was_found, queue_observation, adopt, load_session, observe_late, observe, late_progress,
  pending_progress, progress,
}
use agent_runtime_client.Hub.Dispatch.{
  remember, deliver, send_action, on_failure, dispatch_to, dispatch_new, dispatch_unseen,
  dispatch_start, receive, persist_terminal_observation, cancel_dispatch, expire_dispatch,
}
use agent_runtime_client.Hub.Rules.{Leaves, leaves, Leaves-after, Leaves-ok, Leaves-then}
use agent_runtime_client.Hub.Evolution.Soundness.{
  Sound, Sound-put, Reliable, Whole, record_observation_locked-AllSound, record_progress-AllSound,
}
use agent_runtime_client.Hub.Evolution.Soundness.Methods.{
  left_good, called-Sound, found_good, record_action-Whole, save_recorded-Whole,
}

record_session-store :
    {S : Type 0} (id : String) (t : TaskSession) (o : Observation) (now : Time) (h : Hub S)
    → (record_session id t o now h).1.store ≡ h.store
unfolding record_session
record_session-store id t o now h = elim (Bool-cases (closes t.actions o.status)) [
  | inl e ↦ rw (e, record_session) refl
  | inr e ↦
      rw (e, record_session)
        (elim (Option-cases t.active_sessions) [ inl f ↦ rw f refl | inr (m, f) ↦ rw f refl ])
]

-- Writing to a session in memory leaves the repository alone.
record_observation_locked-store :
    {S : Type 0} (id : String) (o : Observation) (now : Time) (h : Hub S)
    → (record_observation_locked id o now h).1.store ≡ h.store
unfolding record_observation_locked
record_observation_locked-store id o now h = elim (Option-cases (lookup id h.sessions)) [
  | inl e ↦ rw (e, record_observation_locked) refl
  | inr (t, e) ↦
      rw (e, record_observation_locked)
        (elim (Bool-cases (o.session_id == "")) [
          | inl p ↦ rw p refl
          | inr p ↦ rw p (record_session-store id _ o now h)
        ])
]

record_progress-store :
    {S : Type 0} (id : String) (p : Progress) (now : Time) (h : Hub S)
    → (record_progress id p now h).store ≡ h.store
unfolding record_progress
record_progress-store id p now h = elim (Option-cases (lookup id h.sessions)) [
  | inl e ↦ rw (e, record_progress) refl
  | inr (t, e) ↦ rw (e, record_progress) refl
]

module _ {S : Type 0} ⦃db : Store S⦄ {Good : S → Type 0} (reliable : Reliable db Good) where
  locked-Whole :
      (id : String) (o : Observation) (now : Time) (h : Hub S)
      → Whole Good h
      → Whole Good (record_observation_locked id o now h).1
  locked-Whole id o now h (a, g) = (
    record_observation_locked-AllSound id o now h a,
    rw (record_observation_locked-store id o now h) g,
  )

  progressed-Whole :
      (id : String) (p : Progress) (now : Time) (h : Hub S)
      → Whole Good h
      → Whole Good (record_progress id p now h)
  progressed-Whole id p now h (a, g) =
      (record_progress-AllSound id p now h a, rw (record_progress-store id p now h) g)

  record_observation-Whole :
      (id : String) (o : Observation) (now : Time) (h : Hub S)
      → Whole Good h
      → Leaves (Whole Good) (record_observation id o now h)
  unfolding record_observation
  record_observation-Whole id o now h w =
      let k = locked-Whole id o now h w in
      Leaves-after (Whole Good) _ _ _ k (λ _ _. save_recorded-Whole reliable id _ k)

  task-Whole : (id : String) (h : Hub S) → Whole Good h → Whole Good (task id h).1
  unfolding task
  task-Whole id h (a, g) = elim (Option-cases (lookup id h.sessions)) [
    | inl e ↦ rw (e, task) (a, found_good reliable id h.store g)
    | inr (t, e) ↦ rw (e, task) (a, g)
  ]

  task_user_id-Whole : (id : String) (h : Hub S) → Whole Good h → Whole Good (task_user_id id h).1
  unfolding task_user_id
  task_user_id-Whole id h (a, g) = elim (Option-cases (lookup id h.sessions)) [
    | inl e ↦ rw (e, task_user_id) (a, found_good reliable id h.store g)
    | inr (t, e) ↦ rw (e, task_user_id) (a, g)
  ]

  adopt-Whole :
      (id : String) (found : Result (Option TaskSession)) (h : Hub S)
      → ((t : TaskSession) → found ≡ ok (some t) → Sound id t)
      → Whole Good h
      → Whole Good (adopt id found h)
  unfolding adopt
  adopt-Whole id (ok (some t)) h f (a, g) = (Sound-put id t h.sessions (f t refl) a, g)
  adopt-Whole id (ok none) h f w = w
  adopt-Whole id (err x) h f w = w

  load_session-Whole : (id : String) (h : Hub S) → Whole Good h → Whole Good (load_session id h).1
  unfolding load_session
  load_session-Whole id h (a, g) = elim (Option-cases (lookup id h.sessions)) [
    | inl e ↦
        rw (e, load_session)
          (adopt-Whole id _ _ (λ t o. called-Sound reliable id h.store t g o)
            (a, found_good reliable id h.store g))
    | inr (t, e) ↦ rw (e, load_session) (a, g)
  ]

  observe_late-Whole :
      (o : Observation) (now : Time) (h : Hub S)
      → Whole Good h
      → Leaves (Whole Good) (observe_late o now h)
  unfolding observe_late
  observe_late-Whole o now h w = elim (Bool-cases (was_found (task o.task_id h).0)) [
    | inl e ↦
        rw (e, observe_late)
          (Leaves-then (Whole Good) (load_session o.task_id) _ (task o.task_id h).1
            (record { holds = load_session-Whole o.task_id _ (task-Whole o.task_id h w) })
            (λ _ _ k. record_observation-Whole o.task_id _ now _ k))
    | inr e ↦ rw (e, observe_late) (record { holds = task-Whole o.task_id h w })
  ]

  queue_observation-Whole :
      (p : PendingAction) (o : Observation) (h : Hub S)
      → Whole Good h
      → Leaves (Whole Good) (queue_observation p o h)
  unfolding queue_observation
  queue_observation-Whole p o h w = elim (Option-cases p.channel) [
    | inl e ↦ rw (e, queue_observation) (leaves (Whole Good) _ _ w)
    | inr (x, e) ↦ rw (e, queue_observation) (leaves (Whole Good) _ _ w)
  ]

  pub observe-Whole :
      (codec : Codec) (o : Observation) (now : Time) (h : Hub S)
      → Whole Good h
      → Leaves (Whole Good) (observe codec o now h)
  unfolding observe
  observe-Whole codec o now h (a, g) =
      let kept =
        left_good Good (db.save_observation (without_attachment_data o)) h.store
          (reliable.observing (without_attachment_data o)) g in
      Leaves-after (Whole Good) _ _ _ (a, g)
        λ _ _.
          Leaves-after (Whole Good) _ _ _ (a, kept)
            λ _ _.
              Leaves-ok (Whole Good) _ _ _ (elim (Option-cases (lookup o.action_id h.pending)) [
                | inl e ↦ rw e (observe_late-Whole o now _ (a, kept))
                | inr (p, e) ↦ rw e (queue_observation-Whole p o _ (a, kept))
              ])

  late_progress-Whole :
      (p : Progress) (now : Time) (h : Hub S)
      → Whole Good h
      → Leaves (Whole Good) (late_progress p now h)
  unfolding late_progress
  late_progress-Whole p now h w = elim (Bool-cases (was_found (task p.task_id h).0)) [
    | inl e ↦
        rw (e, late_progress)
          (record { holds = progressed-Whole p.task_id p now _ (task-Whole p.task_id h w) })
    | inr e ↦ rw (e, late_progress) (record { holds = task-Whole p.task_id h w })
  ]

  pending_progress-Whole :
      (pending : PendingAction) (p : Progress) (now : Time) (h : Hub S)
      → Whole Good h
      → Leaves (Whole Good) (pending_progress pending p now h)
  unfolding pending_progress
  pending_progress-Whole pending p now h w = Leaves-after (Whole Good) _ _ _ w λ _ _.
      Leaves-ok (Whole Good) _ _ _ (leaves (Whole Good) _ _ (progressed-Whole p.task_id p now h w))

  pub progress-Whole :
      (p : Progress) (now : Time) (h : Hub S)
      → Whole Good h
      → Leaves (Whole Good) (progress p now h)
  unfolding progress
  progress-Whole p now h w = Leaves-after (Whole Good) _ _ _ w λ _ _.
      Leaves-ok (Whole Good) _ _ _ (elim (Option-cases (lookup p.action_id h.pending)) [
        | inl e ↦ rw e (late_progress-Whole p now h w)
        | inr (pending, e) ↦ rw e (pending_progress-Whole pending p now h w)
      ])

  deliver-Whole :
      (conn : ℕ) (a : Action) (h : Hub S) → Whole Good h → Leaves (Whole Good) (deliver conn a h)
  unfolding deliver
  deliver-Whole conn a h w = elim (Bool-cases (h.reachable conn)) [
    | inl e ↦ rw (e, deliver) (leaves (Whole Good) _ _ w)
    | inr e ↦ rw (e, deliver) (leaves (Whole Good) _ _ w)
  ]

  send_action-Whole :
      (d : Device) (device_id : String) (a : Action) (now : Time) (h : Hub S)
      → Whole Good h
      → Leaves (Whole Good) (send_action d device_id a now h)
  unfolding send_action
  send_action-Whole d device_id a now h w =
      let v = task_user_id-Whole a.task_id h w in
      Leaves-after (Whole Good) _ _ _ v λ user_id _. Leaves-after (Whole Good) _ _ _ v λ _ _.
        Leaves-after (Whole Good) _ _ _
          (
            v.0,
            left_good Good (db.save_action device_id user_id a) _
                (reliable.acting device_id user_id a) v.1,
          )
          λ _ _.
            Leaves-then (Whole Good) (record_action device_id a now) _ _
              (record_action-Whole reliable device_id a now _ (
                v.0,
                left_good Good (db.save_action device_id user_id a) _
                    (reliable.acting device_id user_id a) v.1,
              ))
              (λ _ _ k. deliver-Whole d.conn a _ k)

  on_failure-Whole :
      {A : Type 0} (id : String) (r : Result A) (h : Hub S)
      → Whole Good h
      → Leaves (Whole Good) (on_failure id r h)
  unfolding on_failure
  on_failure-Whole id (ok a) h w = record { holds = w }
  on_failure-Whole id (err e) h w = record { holds = w }

  dispatch_to-Whole :
      (d : Device) (device_id : String) (a : Action)
      (on_progress : Option (Progress → Result (Unit {0}))) (now : Time) (h : Hub S)
      → Whole Good h
      → Leaves (Whole Good) (dispatch_to d device_id a on_progress now h)
  unfolding dispatch_to
  dispatch_to-Whole d device_id a on_progress now h w = Leaves-after (Whole Good) _ _ _ w λ _ _.
      Leaves-ok (Whole Good) _ _ _ (
        Leaves-after (Whole Good) _ _ _ w λ _ _.
          Leaves-ok (Whole Good) _ _ _
            (on_failure-Whole a.action_id _ _ (send_action-Whole d device_id a now _ w).holds))

  dispatch_new-Whole :
      (device_id : String) (a : Action) (on_progress : Option (Progress → Result (Unit {0})))
      (now : Time) (h : Hub S)
      → Whole Good h
      → Leaves (Whole Good) (dispatch_new device_id a on_progress now h)
  unfolding dispatch_new
  dispatch_new-Whole device_id a on_progress now h w =
      elim (Option-cases (lookup device_id h.devices)) [
        | inl e ↦ rw (e, dispatch_new) (leaves (Whole Good) _ h w)
        | inr (d, e) ↦ rw (e, dispatch_new) (dispatch_to-Whole d device_id a on_progress now h w)
      ]

  dispatch_unseen-Whole :
      (device_id : String) (a : Action) (on_progress : Option (Progress → Result (Unit {0})))
      (now : Time) (h : Hub S)
      → Whole Good h
      → Leaves (Whole Good) (dispatch_unseen device_id a on_progress now h)
  unfolding dispatch_unseen
  dispatch_unseen-Whole device_id a on_progress now h (s, g) =
      let kept =
        left_good Good (db.find_observation_by_idempotency a.idempotency_key) h.store
          (reliable.looking a.idempotency_key) g in
      Leaves-after (Whole Good) _ _ _ (s, kept)
        λ stored _. elim (Option-cases stored) [
          | inl e ↦ rw e (dispatch_new-Whole device_id a on_progress now _ (s, kept))
          | inr (o, e) ↦ rw e (leaves (Whole Good) _ _ (s, kept))
        ]

  pub dispatch_start-Whole :
      (device_id : String) (a : Action) (on_progress : Option (Progress → Result (Unit {0})))
      (now : Time) (h : Hub S)
      → Whole Good h
      → Leaves (Whole Good) (dispatch_start device_id a on_progress now h)
  unfolding dispatch_start
  dispatch_start-Whole device_id a on_progress now h w = Leaves-after (Whole Good) _ _ _ w λ _ _.
      Leaves-after (Whole Good) _ _ _ w λ _ _.
        Leaves-ok (Whole Good) _ _ _
          (elim (Option-cases (lookup (normalize a).idempotency_key h.completed)) [
            | inl e ↦ rw e (dispatch_unseen-Whole device_id (normalize a) on_progress now h w)
            | inr (o, e) ↦ rw e (leaves (Whole Good) _ h w)
          ])

  pub receive-Whole :
      (a : Action) (o : Observation) (now : Time) (h : Hub S)
      → Whole Good h
      → Leaves (Whole Good) (receive a o now h)
  unfolding receive remember
  receive-Whole a o now h w = record {
    holds =
        (Leaves-after (Whole Good) _ _ h w λ _ _. Leaves-ok (Whole Good) _ _ _ (
          Leaves-after (Whole Good) _ _ _ (locked-Whole a.task_id _ now _ w) λ _ _.
            Leaves-then (Whole Good) (save_recorded a.task_id) _ _
              (save_recorded-Whole reliable a.task_id _ (locked-Whole a.task_id _ now _ w))
              (λ _ _ k. leaves (Whole Good) _ _ k))).holds;
  }

  persist_terminal_observation-Whole :
      (a : Action) (status message : String) (now : Time) (h : Hub S)
      → Whole Good h
      → Leaves (Whole Good) (persist_terminal_observation a status message now h)
  unfolding persist_terminal_observation
  persist_terminal_observation-Whole a status message now h (s, g) = Leaves-ok (Whole Good) _ _ _ (
      Leaves-ok (Whole Good) _ _ _ (
        record_observation-Whole a.task_id _ now _
          (s, left_good Good (db.save_observation _) h.store (reliable.observing _) g)))

  pub cancel_dispatch-Whole :
      (conn : ℕ) (a : Action) (reason : String) (now : Time) (h : Hub S)
      → Whole Good h
      → Leaves (Whole Good) (cancel_dispatch conn a reason now h)
  unfolding cancel_dispatch
  cancel_dispatch-Whole conn a reason now h w = record {
    holds =
        (Leaves-ok (Whole Good) _ _ _ (
          Leaves-then (Whole Good) (persist_terminal_observation a _ reason now) _ _
            (persist_terminal_observation-Whole a _ reason now _ w)
            (λ _ _ k. leaves (Whole Good) _ _ k))).holds;
  }

  pub expire_dispatch-Whole :
      (conn : ℕ) (a : Action) (now : Time) (h : Hub S)
      → Whole Good h
      → Leaves (Whole Good) (expire_dispatch conn a now h)
  unfolding expire_dispatch
  expire_dispatch-Whole conn a now h w = record {
    holds =
        (Leaves-ok (Whole Good) _ _ _ (
          Leaves-then (Whole Good) (persist_terminal_observation a _ _ now) _ _
            (persist_terminal_observation-Whole a _ _ now _ w)
            (λ _ _ k. leaves (Whole Good) _ _ k))).holds;
  }
