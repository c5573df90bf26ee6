-- ===== src/Hub/Settling.antt =====
-- `SetTaskStatus` of application/service/control/hub.go with a terminal status.
use agent_runtime_client.Base.{
  String, true, false, Option, none, some, Option-cases, some-injective, ◌≡◌, sym, ap, ◌∙◌, inl,
  inr, Map, Bool-cases, lookup, lookup-put_self,
}
use agent_runtime_client.Protocol.Message.{Time, TaskSession}
use agent_runtime_client.Protocol.Status.{
  terminal_task_status, can_transition_task_status, terminal→valid, transition_from_live,
}
use agent_runtime_client.Store.{Store}
use agent_runtime_client.Hub.State.{Hub, called, left_by}
use agent_runtime_client.Hub.Sessions.{put_task, clone_task}
use agent_runtime_client.Hub.Tasks.{change_status, adopt_status, set_task_status, save_task}
use agent_runtime_client.Hub.Rules.{Leaves, leaves, Leaves-after, Leaves-ok}
use agent_runtime_client.Hub.Evolution.Methods.{save_task-sessions}

-- If the task's session is in memory, then its status is terminal.
abbrev pub Settled : {S : Type 0} → String → Hub S → Type 0
Settled id h =
    (t : TaskSession) → lookup id h.sessions ≡ some t → terminal_task_status t.status ≡ true

found_terminal :
    (id : String) (t : TaskSession) (m : Map TaskSession)
    → lookup id m ≡ some t
    → terminal_task_status t.status ≡ true
    → (u : TaskSession) → lookup id m ≡ some u
    → terminal_task_status u.status ≡ true
found_terminal id t m e k u f = rw (← some-injective t u (sym e ∙ f)) k

module _ {S : Type 0} ⦃db : Store S⦄ where
  change_status-Settled :
      (id status : String) (now : Time) (current : TaskSession) (h : Hub S)
      → terminal_task_status status ≡ true
      → lookup id h.sessions ≡ some current
      → Leaves (Settled id) (change_status id status now current h)
  unfolding change_status
  change_status-Settled id status now current h k e =
      elim (Bool-cases (can_transition_task_status current.status status)) [
        | inl p ↦
            let t : TaskSession = record current { status = status; updated_at = now } in
            rw (p, change_status)
              (record {
                holds =
                    found_terminal id t (save_task (clone_task t) (put_task id t h)).1.sessions
                      (ap (lookup id) (save_task-sessions (clone_task t) (put_task id t h))
                        ∙ lookup-put_self id t h.sessions)
                      k;
              })
        | inr p ↦
            rw (p, change_status)
              (leaves (Settled id) _ h
                (found_terminal id current h.sessions e (stuck_terminal current.status status k p)))
      ]
    where
      stuck_terminal :
          (current status : String)
          → terminal_task_status status ≡ true
          → can_transition_task_status current status ≡ false
          → terminal_task_status current ≡ true
      stuck_terminal current status k p = elim (Bool-cases (terminal_task_status current)) [
        | inl t ↦ t
        | inr l ↦
            let v : true ≡ false =
              sym (terminal→valid status k) ∙ sym (transition_from_live current status l) ∙ p in
            cc
      ]

  adopt_status-Settled :
      (id status : String) (now : Time) (given : Option TaskSession) (h : Hub S)
      → terminal_task_status status ≡ true
      → lookup id h.sessions ≡ none
      → Leaves (Settled id) (adopt_status id status now given h)
  unfolding adopt_status
  adopt_status-Settled id status now none h k e =
      leaves (Settled id) _ h (λ t f. let g : none ≡ some t = sym e ∙ f in cc)
  adopt_status-Settled id status now (some t) h k e =
      change_status-Settled id status now t (put_task id t h) k (lookup-put_self id t h.sessions)

  -- Whatever the session was, and also where the repository has it, the status is terminal afterwards.
  pub set_task_status-Settled :
      (id status : String) (now : Time) (h : Hub S)
      → terminal_task_status status ≡ true
      → Settled id (set_task_status id status now h).1
  unfolding set_task_status
  set_task_status-Settled id status now h k =
      rw (terminal→valid status k, set_task_status)
        (Leaves-ok (Settled id) _ _ _ (
          Leaves-ok (Settled id) _ _ _ (elim (Option-cases (lookup id h.sessions)) [
            | inl e ↦ rw e (
                Leaves-after (Settled id) (called (db.find_task id) none h.store)
                  (adopt_status id status now)
                  (record h { store = left_by (db.find_task id) h.store })
                  (λ t f. let g : none ≡ some t = sym e ∙ f in cc)
                  (λ found _.
                    adopt_status-Settled id status now found
                      (record h { store = left_by (db.find_task id) h.store }) k e))
            | inr (current, e) ↦ rw e (change_status-Settled id status now current h k e)
          ]))).holds
