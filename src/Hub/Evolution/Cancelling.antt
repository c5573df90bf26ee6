-- ===== src/Hub/Evolution/Cancelling.antt =====
-- `CancelByConversation` of application/service/control/hub.go and the sessions in memory.
use agent_runtime_client.Base.{
  ℕ, String, Option-cases, List, [], ◌∷◌, ◌≡◌, refl, ◌∙◌, inl, inr, ◌==◌, ◌||◌, Bool-cases, Map,
  lookup, any,
}
use agent_runtime_client.Protocol.Message.{Time, TaskSession}
use agent_runtime_client.Protocol.Status
use agent_runtime_client.Store.{Store}
use agent_runtime_client.Hub.State.{PendingAction, Hub}
use agent_runtime_client.Hub.Tasks.{tasks}
use agent_runtime_client.Hub.Dispatch.{
  send_cancel, cancel_task, cancel_tasks, send_cancels, cancel_by_conversation,
}
use agent_runtime_client.Hub.Rules.{Leaves, leaves, Leaves-ok, Leaves-then}
use agent_runtime_client.Hub.Evolution.{Evolves, EvolvesIn, stays, Evolves-trans}
use agent_runtime_client.Hub.Evolution.Methods.{set_task_status-Leaves}

module _ {S : Type 0} ⦃db : Store S⦄ where
  cancel_task-Evolves :
      (t : TaskSession) (now : Time) (h : Hub S)
      → Evolves S h.sessions (cancel_task t now h).sessions
  unfolding cancel_task
  cancel_task-Evolves t now h =
      elim (Bool-cases (
        t.status == Status.completed
        || t.status == Status.failed
        || t.status == Status.cancelled)) [
          | inl e ↦ rw (e, cancel_task) (stays)
          | inr e ↦
              rw (e, cancel_task) (set_task_status-Leaves t.task_id Status.cancelled now h).holds
        ]

  cancel_tasks-Evolves :
      (ts : List TaskSession) (now : Time) (h : Hub S)
      → Evolves S h.sessions (cancel_tasks ts now h).sessions
  unfolding cancel_tasks
  cancel_tasks-Evolves [] now h = stays
  cancel_tasks-Evolves (t ∷ rest) now h =
      Evolves-trans _ _ _ (cancel_task-Evolves t now h)
        (cancel_tasks-Evolves rest now (cancel_task t now h))

  send_cancel-sessions :
      (ids : List String) (reason : String) (p : PendingAction) (h : Hub S)
      → (send_cancel ids reason p h).sessions ≡ h.sessions
  unfolding send_cancel
  send_cancel-sessions ids reason p h = elim (Bool-cases (any (λ t. t == p.action.task_id) ids)) [
    | inl e ↦
        rw (e, send_cancel)
          (elim (Option-cases (lookup p.device_id h.devices)) [ inl f ↦ rw f | inr (d, f) ↦ rw f ])
    | inr e ↦ rw (e, send_cancel)
  ]

  send_cancels-sessions :
      (ids : List String) (reason : String) (ps : Map PendingAction) (h : Hub S)
      → (send_cancels ids reason ps h).sessions ≡ h.sessions
  unfolding send_cancels
  send_cancels-sessions ids reason [] h = refl
  send_cancels-sessions ids reason ((id, p) ∷ rest) h =
      send_cancels-sessions ids reason rest (send_cancel ids reason p h)
      ∙ send_cancel-sessions ids reason p h

  tasks-sessions :
      (user_id conversation_id : String) (limit : ℕ) (h : Hub S)
      → (tasks user_id conversation_id limit h).1.sessions ≡ h.sessions
  unfolding tasks
  tasks-sessions user_id conversation_id limit h = elim (Option-cases h.store) [
    | inl e ↦ rw (e, tasks)
    | inr (st, e) ↦ rw (e, tasks)
  ]

  pub cancel_by_conversation-Leaves :
      (user_id conversation_id reason : String) (now : Time) (h : Hub S)
      → Leaves (EvolvesIn h.sessions) (cancel_by_conversation user_id conversation_id reason now h)
  unfolding cancel_by_conversation
  cancel_by_conversation-Leaves user_id conversation_id reason now h =
      elim (Bool-cases (user_id == "" || conversation_id == "")) [
        | inl e ↦ rw (e, cancel_by_conversation) (leaves (EvolvesIn h.sessions) _ h stays)
        | inr e ↦
            rw (e, cancel_by_conversation)
              (Leaves-then (EvolvesIn h.sessions) (tasks user_id conversation_id 100) _ h
                (record { holds = rw (tasks-sessions user_id conversation_id 100 h) stays })
                λ ts _ k. Leaves-ok (EvolvesIn h.sessions) _ _ _ (record {
                  holds =
                      rw (send_cancels-sessions _ reason _ _)
                        (Evolves-trans _ _ _ k (cancel_tasks-Evolves ts now _));
                }))
      ]
