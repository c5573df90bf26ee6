-- ===== src/Hub/Evolution/Methods.antt =====
-- The methods of application/service/control/hub.go one by one, and the sessions in memory.
use agent_runtime_client.Base.{
  String, true, Option, none, some, Option-cases, [], ◌∷◌, ◌++◌, ◌≡◌, refl, ◌⊎◌, inl, inr, ◌==◌,
  eq_iff, Bool-cases, Map, lookup, lookup-put_self, if◌then◌else◌,
}
use agent_runtime_client.Protocol.Error.{ok}
use agent_runtime_client.Protocol.Message.{Time, Action, Observation, TaskSession}
use agent_runtime_client.Protocol.Status.{can_transition_task_status, valid_task_status}
use agent_runtime_client.Store.{Store}
use agent_runtime_client.Hub.State.{Hub, called}
use agent_runtime_client.Hub.Sessions.{executing_status}
use agent_runtime_client.Hub.Tasks.{
  save_task, begin_existing, begin_new, begin_task, change_status, adopt_status, set_task_status,
  record_action, record_observation, save_recorded,
}
use agent_runtime_client.Hub.Rules.{Leaves, leaves, Leaves-after, Leaves-ok}
use agent_runtime_client.Hub.Evolution.{
  Evolves, stays, Evolves-trans, changed, added, EvolvesIn, executing_status-Moved, same_list,
  Change, Origin, made, found, record_observation_locked-Evolves,
}

pub begun-Change :
    (t : TaskSession) (user_id conversation_id device_id : String) (now : Time)
    → Change t (record t {
      user_id = if t.user_id == "" then user_id else t.user_id;
      device_id = device_id;
      conversation_id = conversation_id;
      updated_at = now;
    })
begun-Change t user_id conversation_id device_id now = record {
  task_id = refl;
  user_id = owner_kept;
  status = inl refl;
  sessions = refl;
  actions = same_list t.actions;
  observations = same_list t.observations;
  created_at = refl;
}
  where
    owner_kept : (t.user_id ≡ "") ⊎ ((if t.user_id == "" then user_id else t.user_id) ≡ t.user_id)
    owner_kept = elim (Bool-cases (t.user_id == "")) [
      | inl e ↦ inl ((eq_iff t.user_id "").0 e)
      | inr e ↦ rw e (inr refl)
    ]

pub moved-Change :
    (t : TaskSession) (status : String) (now : Time)
    → can_transition_task_status t.status status ≡ true
    → Change t (record t { status = status; updated_at = now })
moved-Change t status now e = record {
  task_id = refl;
  user_id = inr refl;
  status = inr e;
  sessions = refl;
  actions = same_list t.actions;
  observations = same_list t.observations;
  created_at = refl;
}

pub acted-Change :
    (device_id : String) (a : Action) (t : TaskSession) (now : Time)
    → Change t (record t {
      device_id = device_id;
      status = executing_status t.status;
      sequence = a.sequence;
      actions = t.actions ++ a ∷ [];
      updated_at = now;
    })
acted-Change device_id a t now = record {
  task_id = refl;
  user_id = inr refl;
  status = executing_status-Moved t.status;
  sessions = refl;
  actions = (a ∷ [], refl);
  observations = same_list t.observations;
  created_at = refl;
}

pub executing_valid : valid_task_status (executing_status "") ≡ true
unfolding executing_status valid_task_status can_transition_task_status
executing_valid = refl

-- What the repository is asked for is found there.
pub called-Origin :
    {S : Type 0} ⦃db : Store S⦄ (id : String) (store : Option S) (t : TaskSession)
    → called (db.find_task id) none store ≡ ok (some t)
    → Origin S id t
called-Origin id none t e = cc
called-Origin id (some st) t e = found st e

module _ {S : Type 0} ⦃db : Store S⦄ where
  pub save_task-sessions : (t : TaskSession) (h : Hub S) → (save_task t h).1.sessions ≡ h.sessions
  unfolding save_task
  save_task-sessions t h = elim (Bool-cases (t.task_id == "")) [
    | inl e ↦ rw (e, save_task)
    | inr e ↦ rw (e, save_task)
  ]

  save_task-Leaves :
      (m : Map TaskSession) (t : TaskSession) (h : Hub S)
      → Evolves S m h.sessions
      → Leaves (EvolvesIn m) (save_task t h)
  save_task-Leaves m t h k = record { holds = rw (save_task-sessions t h) k }

  begin_existing-Leaves :
      (id user_id conversation_id device_id : String) (now : Time) (current : TaskSession)
      (h : Hub S)
      → lookup id h.sessions ≡ some current
      → Leaves
          (EvolvesIn h.sessions)
          (begin_existing id user_id conversation_id device_id now current h)
  unfolding begin_existing
  begin_existing-Leaves id user_id conversation_id device_id now current h e =
      Leaves-after (EvolvesIn h.sessions) _ _ _ (stays) (λ _ _.
        Leaves-ok (EvolvesIn h.sessions) _ _ _ (
          save_task-Leaves _ _ _ (
            changed id _ current h.sessions e
              (begun-Change current user_id conversation_id device_id now))))

  begin_new-Leaves :
      (id user_id conversation_id device_id : String) (now : Time) (h : Hub S)
      → lookup id h.sessions ≡ none
      → Leaves (EvolvesIn h.sessions) (begin_new id user_id conversation_id device_id now h)
  unfolding begin_new valid_task_status
  begin_new-Leaves id user_id conversation_id device_id now h e =
      Leaves-ok (EvolvesIn h.sessions) _ _ _
        (save_task-Leaves _ _ _ (added id _ h.sessions e (made refl refl refl)))

  pub begin_task-Leaves :
      (id user_id conversation_id device_id : String) (now : Time) (h : Hub S)
      → Leaves (EvolvesIn h.sessions) (begin_task id user_id conversation_id device_id now h)
  unfolding begin_task
  begin_task-Leaves id user_id conversation_id device_id now h =
      elim (Option-cases (lookup id h.sessions)) [
        | inl e ↦ rw (e, begin_task) (begin_new-Leaves id _ _ _ now h e)
        | inr (current, e) ↦ rw (e, begin_task) (begin_existing-Leaves id _ _ _ now current h e)
      ]

  change_status-Leaves :
      (id status : String) (now : Time) (current : TaskSession) (m : Map TaskSession) (h : Hub S)
      → Evolves S m h.sessions
      → lookup id h.sessions ≡ some current
      → Leaves (EvolvesIn m) (change_status id status now current h)
  unfolding change_status
  change_status-Leaves id status now current m h k e =
      elim (Bool-cases (can_transition_task_status current.status status)) [
        | inl p ↦
            rw (p, change_status)
              (save_task-Leaves _ _ _ (
                Evolves-trans _ h.sessions _ k
                  (changed id _ current h.sessions e (moved-Change current status now p))))
        | inr p ↦ rw (p, change_status) (leaves (EvolvesIn m) _ h k)
      ]

  adopt_status-Leaves :
      (id status : String) (now : Time) (store : Option S) (given : Option TaskSession) (h : Hub S)
      → called (db.find_task id) none store ≡ ok given
      → lookup id h.sessions ≡ none
      → Leaves (EvolvesIn h.sessions) (adopt_status id status now given h)
  unfolding adopt_status
  adopt_status-Leaves id status now store none h o e = leaves (EvolvesIn h.sessions) _ h stays
  adopt_status-Leaves id status now store (some t) h o e =
      change_status-Leaves id status now t h.sessions _
        (added id t h.sessions e (called-Origin id store t o)) (lookup-put_self id t h.sessions)

  pub set_task_status-Leaves :
      (id status : String) (now : Time) (h : Hub S)
      → Leaves (EvolvesIn h.sessions) (set_task_status id status now h)
  unfolding set_task_status
  set_task_status-Leaves id status now h = Leaves-after (EvolvesIn h.sessions) _ _ _ (stays) λ _ _.
      Leaves-ok (EvolvesIn h.sessions) _ _ _ (elim (Option-cases (lookup id h.sessions)) [
        | inl e ↦ rw e (
            Leaves-after (EvolvesIn h.sessions) _ _ _ (stays)
              (λ given o. adopt_status-Leaves id status now h.store given _ o e))
        | inr (current, e) ↦ rw e (change_status-Leaves id status now current h.sessions h stays e)
      ])

  pub record_action-Leaves :
      (device_id : String) (a : Action) (now : Time) (m : Map TaskSession) (h : Hub S)
      → Evolves S m h.sessions
      → Leaves (EvolvesIn m) (record_action device_id a now h)
  unfolding record_action
  record_action-Leaves device_id a now m h k = record {
    holds =
        (save_task-Leaves m _ _ (
          Evolves-trans _ h.sessions _ k (elim (Option-cases (lookup a.task_id h.sessions)) [
            | inl e ↦ rw e (added a.task_id _ h.sessions e (made refl executing_valid refl))
            | inr (t, e) ↦
                rw e (changed a.task_id _ t h.sessions e (acted-Change device_id a t now))
          ]))).holds;
  }

  pub save_recorded-Leaves :
      (id : String) (m : Map TaskSession) (h : Hub S)
      → Evolves S m h.sessions
      → Leaves (EvolvesIn m) (save_recorded id h)
  unfolding save_recorded
  save_recorded-Leaves id m h k = elim (Option-cases (lookup id h.sessions)) [
    | inl e ↦ rw (e, save_recorded) (leaves (EvolvesIn m) _ h k)
    | inr (t, e) ↦ rw (e, save_recorded) (record { holds = (save_task-Leaves m _ h k).holds })
  ]

  pub record_observation-Leaves :
      (id : String) (o : Observation) (now : Time) (m : Map TaskSession) (h : Hub S)
      → Evolves S m h.sessions
      → Leaves (EvolvesIn m) (record_observation id o now h)
  unfolding record_observation
  record_observation-Leaves id o now m h k =
      let k' = Evolves-trans _ _ _ k (record_observation_locked-Evolves id o now h) in
      Leaves-after (EvolvesIn m) _ _ _ k' (λ _ _. save_recorded-Leaves id m _ k')
