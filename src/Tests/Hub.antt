-- ===== src/Tests/Hub.antt =====
-- The hub of application/service/control/hub.go on small inputs.
use agent_runtime_client.Base.{
  String, true, none, some, List, [], ◌∷◌, ◌≡◌, ◌≢◌, refl, lookup, put, arith,
}
use agent_runtime_client.Protocol.Error.{ok}
use agent_runtime_client.Protocol.Message.{Action, normalize}
use agent_runtime_client.Protocol.Validate.{
  validate_action, without_attachment_data, obs_cancelled, expired,
}
use agent_runtime_client.Protocol.Accepted.{ActionAccepted, validate_action_iff}
use agent_runtime_client.Hub.State.{Hub, new_hub, after}
use agent_runtime_client.Hub.State.Frame.{action}
use agent_runtime_client.Hub.Devices.{
  register, unregister, bind_device, may_bind, bind_commit, choose_device, supports_capability,
}
use agent_runtime_client.Hub.Sessions.{closes, record_observation_locked}
use agent_runtime_client.Hub.Tasks.{save_recorded, save_task, record_action, task_user_id}
use agent_runtime_client.Hub.Dispatch.{
  remember, dispatch_unseen, dispatch_new, dispatch_to, send_action, deliver, on_failure, finished,
  waiting, dispatch_start, receive, cancel_dispatch, expire_dispatch, terminal_observation,
}
use agent_runtime_client.Hub.Steps.{Event, registers, begins, dispatches, receives, run}
use agent_runtime_client.Hub.Registration.{Registered, register-Registered, unregister-register}
use agent_runtime_client.Hub.Binding.{
  Owned, Bound, meantime, bind_device-Bound, bind_device-Owned, Owned-refl,
}
use agent_runtime_client.Hub.Choosing.{candidates, unavailable, choice, choose_device-choice}
use agent_runtime_client.Hub.Launch.Admission.{Admission, dispatch_start-Admission}
use agent_runtime_client.Hub.Ending.{Received}
use agent_runtime_client.Hub.Ending.Outcome.{receive-Received}
use agent_runtime_client.Hub.Ending.Replay.{
  receive-dispatch_start, cancel_dispatch-dispatch_start, expire_dispatch-dispatch_start,
}
use agent_runtime_client.Hub.Evolution.Invariants.{Remains, run-Remains}
use agent_runtime_client.Tests.Data.{
  idle_store, one_digest, click, clicked, hello, running, small_hub,
}

-- A task is begun, its action dispatched, and the observation received.
abbrev story : List Event
story =
    registers hello (some 1) 5
    ∷ begins "t1" "u1" "c1" "d1" 6
    ∷ dispatches "d1" click none 7
    ∷ receives click clicked 20
    ∷ []

abbrev quiet_hub : Hub (Unit {0})
quiet_hub = new_hub (some tt) (λ conn. true)

click_accepted : ActionAccepted (normalize click)
unfolding normalize validate_action
click_accepted = (validate_action_iff (normalize click)).0 refl

-- The action is sent, and the dispatch waits.
dispatch_start-waits :
    ((dispatch_start "d1" click none 7 small_hub).0 ≡ ok (waiting 1 click))
    × ((dispatch_start "d1" click none 7 small_hub).1.sent ≡ (1, action click) ∷ [])
unfolding dispatch_start after normalize validate_action lookup dispatch_unseen dispatch_new
    dispatch_to supports_capability send_action task_user_id record_action save_task deliver
    on_failure put
dispatch_start-waits = (refl, refl)

dispatch_start-Admission_example :
    Admission "d1"
      (normalize click)
      none
      7
      small_hub
      (dispatch_start "d1" click none 7 small_hub).0
      (dispatch_start "d1" click none 7 small_hub).1
dispatch_start-Admission_example = dispatch_start-Admission "d1" click none 7 small_hub

run-Remains_example : Remains "t1" running (run one_digest small_hub story).sessions
unfolding lookup
run-Remains_example = run-Remains one_digest small_hub story "t1" running refl

receive-Received_example :
    Received click clicked small_hub
      (receive click clicked 20 small_hub).0
      (receive click clicked 20 small_hub).1
receive-Received_example = receive-Received click clicked 20 small_hub

click_received : (receive click clicked 20 small_hub).0 ≡ ok clicked
unfolding receive after record_observation_locked lookup remember without_attachment_data closes
    save_recorded put
click_received = refl

receive-dispatch_start_example :
    dispatch_start "d1" click none 30 (receive click clicked 20 small_hub).1
    ≡ (ok (finished (without_attachment_data clicked)), (receive click clicked 20 small_hub).1)
unfolding normalize
receive-dispatch_start_example =
    receive-dispatch_start "d1" click none 30 click_accepted (omega arith) click clicked clicked 20
      small_hub refl click_received

cancel_dispatch-dispatch_start_example :
    dispatch_start "d1" click none 40 (cancel_dispatch 1 click "gone" 30 small_hub).1 ≡ (
      ok (finished (terminal_observation click obs_cancelled "gone" 30)),
      (cancel_dispatch 1 click "gone" 30 small_hub).1,
    )
unfolding normalize
cancel_dispatch-dispatch_start_example =
    cancel_dispatch-dispatch_start "d1" click none 40 click_accepted (omega arith) 1 click "gone" 30
      small_hub refl

-- The caller has extended the deadline.
abbrev later_click : Action
later_click = record click { deadline = 200 }

later_accepted : ActionAccepted (normalize later_click)
unfolding normalize validate_action
later_accepted = (validate_action_iff (normalize later_click)).0 refl

expire_dispatch-dispatch_start_example :
    dispatch_start "d1" later_click none 120 (expire_dispatch 1 click 100 small_hub).1 ≡ (
      ok (finished (terminal_observation click expired "action deadline exceeded" 100)),
      (expire_dispatch 1 click 100 small_hub).1,
    )
unfolding normalize
expire_dispatch-dispatch_start_example =
    expire_dispatch-dispatch_start "d1" later_click none 120 later_accepted (omega arith) 1 click
      100 small_hub refl

hello_registered : (register hello (some 2) 9 small_hub).0 ≡ ok tt
unfolding register after
hello_registered = refl

register-Registered_example : Registered hello 2 9 small_hub (register hello (some 2) 9 small_hub).1
register-Registered_example = register-Registered hello 2 9 small_hub hello_registered

unregister-register_example :
    unregister "d1" 1 12 (register hello (some 2) 9 small_hub).1
    ≡ (ok tt, (register hello (some 2) 9 small_hub).1)
unregister-register_example =
    unregister-register hello 1 2 9 12 small_hub hello_registered (omega arith)

laptop_bound : (bind_device (λ g. g) "d1" "u1" small_hub).0 ≡ ok tt
unfolding bind_device after may_bind bind_commit lookup
laptop_bound = refl

bind_device-Bound_example :
    (◌≢◌ {A = String} "u1" "")
    × Bound "d1" "u1"
        (meantime (λ g. g) "d1" "u1" small_hub)
        (bind_device (λ g. g) "d1" "u1" small_hub).1
bind_device-Bound_example = bind_device-Bound (λ g. g) "d1" "u1" small_hub laptop_bound

bind_device-Owned_example :
    Owned small_hub.devices (bind_device (λ g. g) "d1" "u1" small_hub).1.devices
bind_device-Owned_example =
    bind_device-Owned (λ g. g) "d1" "u1" small_hub (λ g. Owned-refl g.devices)

choose_device-choice_example :
    choose_device "u1" "" "browser.click" small_hub
    ≡ choice
        (candidates "u1" "browser.click" small_hub.devices)
        (unavailable "u1" small_hub.devices)
choose_device-choice_example = choose_device-choice "u1" "browser.click" small_hub ((λ e. cc), tt)
