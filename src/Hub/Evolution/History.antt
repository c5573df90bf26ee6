-- ===== src/Hub/Evolution/History.antt =====
-- The sessions over whole histories of calls of application/service/control/hub.go.
use agent_runtime_client.Base.{
  ℕ, String, Option, none, some, Option-cases, List, [], ◌∷◌, inl, inr, eqb, Bool-cases, lookup,
}
use agent_runtime_client.Protocol.Message.{Time, DeviceMessage}
use agent_runtime_client.Protocol.Validate.{Codec}
use agent_runtime_client.Store.{Store}
use agent_runtime_client.Hub.State.{Hub}
use agent_runtime_client.Hub.Devices.{register, unregister, touch, bind_commit, install_device}
use agent_runtime_client.Hub.Steps.{
  Event, registers, unregisters, touches, claims, binds, begins, sets_status, observes, progresses,
  dispatches, receives, cancels, expires, cancels_conversation, step, run,
}
use agent_runtime_client.Hub.Rules.{Leaves, leaves, Leaves-after, Leaves-ok}
use agent_runtime_client.Hub.Evolution.{Evolves, EvolvesIn, stays, Evolves-trans}
use agent_runtime_client.Hub.Evolution.Methods.{begin_task-Leaves, set_task_status-Leaves}
use agent_runtime_client.Hub.Evolution.Dispatching.{
  observe-Leaves, progress-Leaves, dispatch_start-Leaves, receive-Leaves, cancel_dispatch-Leaves,
  expire_dispatch-Leaves,
}
use agent_runtime_client.Hub.Evolution.Cancelling.{cancel_by_conversation-Leaves}

module _ {S : Type 0} ⦃db : Store S⦄ where
  register-Leaves :
      (message : DeviceMessage) (conn : Option ℕ) (now : Time) (h : Hub S)
      → Leaves (EvolvesIn h.sessions) (register message conn now h)
  unfolding register install_device
  register-Leaves message none now h = leaves (EvolvesIn h.sessions) _ h stays
  register-Leaves message (some conn) now h = Leaves-after (EvolvesIn h.sessions) _ _ _ stays λ _ _.
      Leaves-after (EvolvesIn h.sessions) _ _ _ stays λ _ _.
        Leaves-after (EvolvesIn h.sessions) _ _ _ stays
          (λ _ _. leaves (EvolvesIn h.sessions) _ _ stays)

  unregister-Leaves :
      (id : String) (conn : ℕ) (now : Time) (h : Hub S)
      → Leaves (EvolvesIn h.sessions) (unregister id conn now h)
  unfolding unregister
  unregister-Leaves id conn now h = elim (Option-cases (lookup id h.devices)) [
    | inl e ↦ rw (e, unregister) (leaves (EvolvesIn h.sessions) _ h stays)
    | inr (d, e) ↦
        rw (e, unregister)
          (elim (Bool-cases (eqb d.conn conn)) [
            | inl f ↦ rw f (leaves (EvolvesIn h.sessions) _ _ stays)
            | inr f ↦ rw f (leaves (EvolvesIn h.sessions) _ h stays)
          ])
  ]

  touch-Leaves :
      (id : String) (now : Time) (h : Hub S) → Leaves (EvolvesIn h.sessions) (touch id now h)
  unfolding touch
  touch-Leaves id now h =
      Leaves-ok (EvolvesIn h.sessions) _ _ _ (leaves (EvolvesIn h.sessions) _ _ stays)

  bind_commit-Leaves :
      (id user_id : String) (h : Hub S) → Leaves (EvolvesIn h.sessions) (bind_commit id user_id h)
  unfolding bind_commit
  bind_commit-Leaves id user_id h = Leaves-ok (EvolvesIn h.sessions) _ _ _ (
      Leaves-after (EvolvesIn h.sessions) _ _ _ stays
        (λ _ _. leaves (EvolvesIn h.sessions) _ _ stays))

module _ {S : Type 0} ⦃db : Store S⦄ (codec : Codec) where
  step-Evolves : (e : Event) (h : Hub S) → Evolves S h.sessions (step codec e h).sessions
  unfolding step
  step-Evolves (registers message conn now) h = (register-Leaves message conn now h).holds
  step-Evolves (unregisters id conn now) h = (unregister-Leaves id conn now h).holds
  step-Evolves (touches id now) h = (touch-Leaves id now h).holds
  step-Evolves (claims id user_id) h = stays
  step-Evolves (binds id user_id) h = (bind_commit-Leaves id user_id h).holds
  step-Evolves (begins id user_id conversation_id device_id now) h =
      (begin_task-Leaves id user_id conversation_id device_id now h).holds
  step-Evolves (sets_status id status now) h = (set_task_status-Leaves id status now h).holds
  step-Evolves (observes o now) h = (observe-Leaves codec o now h).holds
  step-Evolves (progresses p now) h = (progress-Leaves p now h).holds
  step-Evolves (dispatches id a on_progress now) h =
      (dispatch_start-Leaves id a on_progress now h).holds
  step-Evolves (receives a o now) h = (receive-Leaves a o now h).holds
  step-Evolves (cancels conn a reason now) h = (cancel_dispatch-Leaves conn a reason now h).holds
  step-Evolves (expires conn a now) h = (expire_dispatch-Leaves conn a now h).holds
  step-Evolves (cancels_conversation user_id conversation_id reason now) h =
      (cancel_by_conversation-Leaves user_id conversation_id reason now h).holds

  pub run-Evolves : (h : Hub S) (es : List Event) → Evolves S h.sessions (run codec h es).sessions
  unfolding run
  run-Evolves h [] = stays
  run-Evolves h (e ∷ es) = Evolves-trans _ _ _ (step-Evolves e h) (run-Evolves (step codec e h) es)
