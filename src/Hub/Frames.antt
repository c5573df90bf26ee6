-- ===== src/Hub/Frames.antt =====
-- What the methods of application/service/control/hub.go that write to the repository leave alone.
use agent_runtime_client.Base.{
  String, Option-cases, ◌≡◌, refl, ◌∙◌, inl, inr, ◌==◌, Bool-cases, lookup,
}
use agent_runtime_client.Protocol.Message.{Time, Action, Observation, TaskSession}
use agent_runtime_client.Store.{Store}
use agent_runtime_client.Hub.State.{Hub}
use agent_runtime_client.Hub.Tasks.{
  save_task, task_user_id, record_action, save_recorded, record_observation,
}
use agent_runtime_client.Hub.Sessions.{closes, record_session, record_observation_locked}
use agent_runtime_client.Hub.Rules.{Leaves-after}

-- Two hubs that differ in their sessions and their repository at most.
pub record Same {S : Type 0} (h g : Hub S) : Type 0 where
  pub devices : g.devices ≡ h.devices
  pub pending : g.pending ≡ h.pending
  pub completed : g.completed ≡ h.completed
  pub sent : g.sent ≡ h.sent
  pub closed : g.closed ≡ h.closed

Same-refl : {S : Type 0} (h : Hub S) → Same h h
Same-refl h = record {
  devices = refl;
  pending = refl;
  completed = refl;
  sent = refl;
  closed = refl;
}

module _ {S : Type 0} where
  pub Same-trans : (h g k : Hub S) → Same h g → Same g k → Same h k
  Same-trans h g k p q = record {
    devices = q.devices ∙ p.devices;
    pending = q.pending ∙ p.pending;
    completed = q.completed ∙ p.completed;
    sent = q.sent ∙ p.sent;
    closed = q.closed ∙ p.closed;
  }

  record_session-Same :
      (id : String) (t : TaskSession) (o : Observation) (now : Time) (h : Hub S)
      → Same h (record_session id t o now h).1
  unfolding record_session
  record_session-Same id t o now h = elim (Bool-cases (closes t.actions o.status)) [
    | inl e ↦
        rw (e, record_session)
          (record { devices = refl; pending = refl; completed = refl; sent = refl; closed = refl })
    | inr e ↦
        rw (e, record_session)
          (elim (Option-cases t.active_sessions) [
            | inl p ↦ rw p (record {
              devices = refl;
              pending = refl;
              completed = refl;
              sent = refl;
              closed = refl;
            })
            | inr (m, p) ↦ rw p (record {
              devices = refl;
              pending = refl;
              completed = refl;
              sent = refl;
              closed = refl;
            })
          ])
  ]

  pub record_observation_locked-Same :
      (id : String) (o : Observation) (now : Time) (h : Hub S)
      → Same h (record_observation_locked id o now h).1
  unfolding record_observation_locked
  record_observation_locked-Same id o now h = elim (Option-cases (lookup id h.sessions)) [
    | inl e ↦ rw (e, record_observation_locked) (Same-refl h)
    | inr (t, e) ↦
        rw (e, record_observation_locked)
          (elim (Bool-cases (o.session_id == "")) [
            | inl p ↦ rw p (record {
              devices = refl;
              pending = refl;
              completed = refl;
              sent = refl;
              closed = refl;
            })
            | inr p ↦ rw p (record_session-Same id _ o now h)
          ])
  ]

module _ {S : Type 0} ⦃db : Store S⦄ where
  pub save_task-Same : (t : TaskSession) (h : Hub S) → Same h (save_task t h).1
  unfolding save_task
  save_task-Same t h = elim (Bool-cases (t.task_id == "")) [
    | inl e ↦ rw (e, save_task) (Same-refl h)
    | inr e ↦
        rw (e, save_task)
          (record { devices = refl; pending = refl; completed = refl; sent = refl; closed = refl })
  ]

  pub task_user_id-Same : (id : String) (h : Hub S) → Same h (task_user_id id h).1
  unfolding task_user_id
  task_user_id-Same id h = elim (Option-cases (lookup id h.sessions)) [
    | inl e ↦
        rw (e, task_user_id)
          (record { devices = refl; pending = refl; completed = refl; sent = refl; closed = refl })
    | inr (t, e) ↦ rw (e, task_user_id) (Same-refl h)
  ]

  pub record_action-Same :
      (device_id : String) (a : Action) (now : Time) (h : Hub S)
      → Same h (record_action device_id a now h).1
  unfolding record_action
  record_action-Same device_id a now h =
      let s = save_task-Same _ _ in
      record {
        devices = s.devices;
        pending = s.pending;
        completed = s.completed;
        sent = s.sent;
        closed = s.closed;
      }

  pub save_recorded-Same : (id : String) (h : Hub S) → Same h (save_recorded id h).1
  unfolding save_recorded
  save_recorded-Same id h = elim (Option-cases (lookup id h.sessions)) [
    | inl e ↦ rw (e, save_recorded) (Same-refl h)
    | inr (t, e) ↦ rw (e, save_recorded) (save_task-Same _ h)
  ]

  pub record_observation-Same :
      (id : String) (o : Observation) (now : Time) (h : Hub S)
      → Same h (record_observation id o now h).1
  unfolding record_observation
  record_observation-Same id o now h =
      let l = record_observation_locked-Same id o now h in
      (Leaves-after (Same h) _ _ _ l
        (λ _ _. record { holds = Same-trans h _ _ l (save_recorded-Same id _) })).holds
