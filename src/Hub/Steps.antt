-- ===== src/Hub/Steps.antt =====
-- The steps of the hub of application/service/control/hub.go: every method, at any arguments, in any
-- order. A dispatch is the step that starts it and one of the three that end it.
use agent_runtime_client.Base.{ℕ, String, Option, List, [], ◌∷◌}
use agent_runtime_client.Protocol.Error.{Result}
use agent_runtime_client.Protocol.Message.{Time, DeviceMessage, Action, Observation, Progress}
use agent_runtime_client.Protocol.Validate.{Codec}
use agent_runtime_client.Store.{Store}
use agent_runtime_client.Hub.State.{Hub, call}
use agent_runtime_client.Hub.Devices.{register, unregister, touch, bind_commit}
use agent_runtime_client.Hub.Tasks.{begin_task, set_task_status}
use agent_runtime_client.Hub.Messages.{observe, progress}
use agent_runtime_client.Hub.Dispatch.{
  dispatch_start, receive, cancel_dispatch, expire_dispatch, cancel_by_conversation,
}

-- A call of a method that changes the hub.
pub data Event : Type 0 where
  registers : DeviceMessage → Option ℕ → Time → Event
  unregisters : String → ℕ → Time → Event
  touches : String → Time → Event
  claims : String → String → Event
  binds : String → String → Event
  begins : String → String → String → String → Time → Event
  sets_status : String → String → Time → Event
  observes : Observation → Time → Event
  progresses : Progress → Time → Event
  dispatches : String → Action → Option (Progress → Result (Unit {0})) → Time → Event
  receives : Action → Observation → Time → Event
  cancels : ℕ → Action → String → Time → Event
  expires : ℕ → Action → Time → Event
  cancels_conversation : String → String → String → Time → Event

module _ {S : Type 0} ⦃db : Store S⦄ (codec : Codec) where
  -- The hub that a call leaves. `bindDevice` is two steps, as it gives up the lock in between: its call
  -- of the repository, and its second critical section, the only one that writes.
  unfoldable pub step : Event → Hub S → Hub S
  step (registers message conn now) h = (register message conn now h).1
  step (unregisters id conn now) h = (unregister id conn now h).1
  step (touches id now) h = (touch id now h).1
  step (claims id user_id) h = (call (db.bind_device id user_id) tt h).1
  step (binds id user_id) h = (bind_commit id user_id h).1
  step (begins id user_id conversation_id device_id now) h =
      (begin_task id user_id conversation_id device_id now h).1
  step (sets_status id status now) h = (set_task_status id status now h).1
  step (observes o now) h = (observe codec o now h).1
  step (progresses p now) h = (progress p now h).1
  step (dispatches id a on_progress now) h = (dispatch_start id a on_progress now h).1
  step (receives a o now) h = (receive a o now h).1
  step (cancels conn a reason now) h = (cancel_dispatch conn a reason now h).1
  step (expires conn a now) h = (expire_dispatch conn a now h).1
  step (cancels_conversation user_id conversation_id reason now) h =
      (cancel_by_conversation user_id conversation_id reason now h).1

  -- What is left of the hub after a history of calls.
  unfoldable pub run : Hub S → List Event → Hub S
  run h [] = h
  run h (e ∷ es) = run (step e h) es
