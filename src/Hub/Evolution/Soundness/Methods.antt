-- ===== src/Hub/Evolution/Soundness/Methods.antt =====
-- The task methods of application/service/control/hub.go keep well-formed sessions, in memory and in the
-- repository.
use agent_runtime_client.Base.{
  String, Option, none, some, Option-cases, [], ◌∷◌, ◌++◌, ◌≡◌, refl, inl, inr, ◌==◌, Bool-cases,
  lookup,
}
use agent_runtime_client.Protocol.Error.{ok}
use agent_runtime_client.Protocol.Message.{Time, Action, TaskSession}
use agent_runtime_client.Protocol.Status.{can_transition_task_status, valid_task_status}
use agent_runtime_client.Store.{Store, Call}
use agent_runtime_client.Hub.State.{Hub, called, left_by}
use agent_runtime_client.Hub.Sessions.{clone_task, executing_status}
use agent_runtime_client.Hub.Tasks.{
  action_session, save_task, begin_existing, begin_new, begin_task, change_status, adopt_status,
  set_task_status, record_action, save_recorded,
}
use agent_runtime_client.Hub.Rules.{Leaves, leaves, Leaves-after, Leaves-ok}
use agent_runtime_client.Hub.Evolution.Methods.{
  begun-Change, moved-Change, acted-Change, executing_valid,
}
use agent_runtime_client.Hub.Evolution.Soundness.{
  Sound, Sound-Change, Sound-put, Sound-lookup, Reliable, GoodStore, Whole,
}

-- A call that keeps the good states, of a repository that is there or not.
pub left_good :
    {S A : Type 0} (Good : S → Type 0) (op : Call S A) (o : Option S)
    → ((st : S) → Good st → Good (op st).1)
    → GoodStore Good o
    → GoodStore Good (left_by op o)
left_good Good op none k g = tt
left_good Good op (some st) k g = k st g

Sound-clone :
    (id : String) (t : TaskSession) → Sound id t → Sound (clone_task t).task_id (clone_task t)
Sound-clone id t s = record { task_id = refl; status = s.status; sessions = refl }

acted-Sound :
    (device_id : String) (a : Action) (now : Time) (o : Option TaskSession)
    → ((t : TaskSession) → o ≡ some t → Sound a.task_id t)
    → Sound a.task_id (record (action_session device_id a now o) {
      device_id = device_id;
      status = executing_status (action_session device_id a now o).status;
      sequence = a.sequence;
      actions = (action_session device_id a now o).actions ++ a ∷ [];
      updated_at = now;
    })
unfolding action_session
acted-Sound device_id a now none f = record {
  task_id = refl;
  status = executing_valid;
  sessions = refl;
}
acted-Sound device_id a now (some t) f =
    Sound-Change a.task_id t _ (f t refl) (acted-Change device_id a t now)

module _ {S : Type 0} ⦃db : Store S⦄ {Good : S → Type 0} (reliable : Reliable db Good) where
  pub called-Sound :
      (id : String) (store : Option S) (t : TaskSession)
      → GoodStore Good store
      → called (db.find_task id) none store ≡ ok (some t)
      → Sound id t
  called-Sound id none t g e = cc
  called-Sound id (some st) t g e = reliable.finds id st t g e

  pub found_good :
      (id : String) (store : Option S)
      → GoodStore Good store
      → GoodStore Good (left_by (db.find_task id) store)
  found_good id store g = left_good Good (db.find_task id) store (reliable.finding id) g

  save_task-Whole :
      (t : TaskSession) (h : Hub S)
      → Sound t.task_id t
      → Whole Good h
      → Leaves (Whole Good) (save_task t h)
  unfolding save_task
  save_task-Whole t h s (a, g) = elim (Bool-cases (t.task_id == "")) [
    | inl e ↦ rw (e, save_task) (leaves (Whole Good) _ h (a, g))
    | inr e ↦
        rw (e, save_task)
          (leaves (Whole Good) _ _
            (a, left_good Good (db.save_task t) h.store (λ st k. reliable.saving t st s k) g))
  ]

  begin_existing-Whole :
      (id user_id conversation_id device_id : String) (now : Time) (current : TaskSession)
      (h : Hub S)
      → Sound id current
      → Whole Good h
      → Leaves (Whole Good) (begin_existing id user_id conversation_id device_id now current h)
  unfolding begin_existing
  begin_existing-Whole id user_id conversation_id device_id now current h s (a, g) =
      let after =
        Sound-Change id _ _ s (begun-Change current user_id conversation_id device_id now) in
      Leaves-after (Whole Good) _ _ _ (a, g)
        λ _ _.
          Leaves-ok (Whole Good) _ _ _
            (save_task-Whole _ _ (Sound-clone id _ after) (Sound-put id _ h.sessions after a, g))

  begin_new-Whole :
      (id user_id conversation_id device_id : String) (now : Time) (h : Hub S)
      → Whole Good h
      → Leaves (Whole Good) (begin_new id user_id conversation_id device_id now h)
  unfolding begin_new valid_task_status
  begin_new-Whole id user_id conversation_id device_id now h (a, g) = Leaves-ok (Whole Good) _ _ _ (
      save_task-Whole _ _ (record { task_id = refl; status = refl; sessions = refl })
        (
          Sound-put id _ h.sessions (record { task_id = refl; status = refl; sessions = refl }) a,
          g,
        ))

  pub begin_task-Whole :
      (id user_id conversation_id device_id : String) (now : Time) (h : Hub S)
      → Whole Good h
      → Leaves (Whole Good) (begin_task id user_id conversation_id device_id now h)
  unfolding begin_task
  begin_task-Whole id user_id conversation_id device_id now h w =
      elim (Option-cases (lookup id h.sessions)) [
        | inl e ↦ rw (e, begin_task) (begin_new-Whole id _ _ _ now h w)
        | inr (current, e) ↦
            rw (e, begin_task)
              (begin_existing-Whole id _ _ _ now current h (Sound-lookup id current _ w.0 e) w)
      ]

  change_status-Whole :
      (id status : String) (now : Time) (current : TaskSession) (h : Hub S)
      → Sound id current
      → Whole Good h
      → Leaves (Whole Good) (change_status id status now current h)
  unfolding change_status
  change_status-Whole id status now current h s (a, g) =
      elim (Bool-cases (can_transition_task_status current.status status)) [
        | inl p ↦
            let moved = Sound-Change id _ _ s (moved-Change current status now p) in
            rw (p, change_status)
              (save_task-Whole _ _ (Sound-clone id _ moved) (Sound-put id _ h.sessions moved a, g))
        | inr p ↦ rw (p, change_status) (leaves (Whole Good) _ h (a, g))
      ]

  adopt_status-Whole :
      (id status : String) (now : Time) (given : Option TaskSession) (h : Hub S)
      → ((t : TaskSession) → given ≡ some t → Sound id t)
      → Whole Good h
      → Leaves (Whole Good) (adopt_status id status now given h)
  unfolding adopt_status
  adopt_status-Whole id status now none h f w = leaves (Whole Good) _ h w
  adopt_status-Whole id status now (some t) h f (a, g) =
      change_status-Whole id status now t _ (f t refl) (Sound-put id t h.sessions (f t refl) a, g)

  pub set_task_status-Whole :
      (id status : String) (now : Time) (h : Hub S)
      → Whole Good h
      → Leaves (Whole Good) (set_task_status id status now h)
  unfolding set_task_status
  set_task_status-Whole id status now h (a, g) =
      Leaves-after (Whole Good) _ _ _ (a, g)
        λ _ _. Leaves-ok (Whole Good) _ _ _ (elim (Option-cases (lookup id h.sessions)) [
          | inl e ↦ rw e (
              Leaves-after (Whole Good) _ _ _ (a, found_good id h.store g)
                λ given o.
                  adopt_status-Whole id status now given _
                    (λ t same. called-Sound id h.store t g (rw same at o))
                    (a, found_good id h.store g))
          | inr (current, e) ↦
              rw e
                (change_status-Whole id status now current h (Sound-lookup id current _ a e) (a, g))
        ])

  pub record_action-Whole :
      (device_id : String) (action : Action) (now : Time) (h : Hub S)
      → Whole Good h
      → Leaves (Whole Good) (record_action device_id action now h)
  unfolding record_action
  record_action-Whole device_id action now h (a, g) =
      let s =
        acted-Sound device_id action now (lookup action.task_id h.sessions)
          (λ t e. Sound-lookup action.task_id t _ a e) in
      record {
        holds =
            (save_task-Whole _ _ (Sound-clone action.task_id _ s)
              (Sound-put action.task_id _ h.sessions s a, g)).holds;
      }

  pub save_recorded-Whole :
      (id : String) (h : Hub S) → Whole Good h → Leaves (Whole Good) (save_recorded id h)
  unfolding save_recorded
  save_recorded-Whole id h w = elim (Option-cases (lookup id h.sessions)) [
    | inl e ↦ rw (e, save_recorded) (leaves (Whole Good) _ h w)
    | inr (t, e) ↦
        rw (e, save_recorded)
          (record {
            holds = (save_task-Whole _ h (Sound-clone id t (Sound-lookup id t _ w.0 e)) w).holds;
          })
  ]
