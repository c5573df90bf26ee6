-- ===== src/Runtime/Dispatching.antt =====
-- One device action of a run: `dispatchControlAction` of application/service/runtime/service.go, on the hub.
use Prim.Native.String.{◌++◌}
use agent_runtime_client.Base.{
  ℕ, ℤ, String, Bool, true, false, Option, none, some, List, [], ◌∷◌, not, Map, ◌==◌, if◌then◌else◌,
  trim_space,
}
use agent_runtime_client.Protocol.Error.{
  Error, ok, err, api, runtime_unavailable, device_offline, device_bound, capability_unsupported,
}
use agent_runtime_client.Protocol.Message.{
  Time, Object, protocol, type_observation, Action, Observation, Progress,
}
use agent_runtime_client.Protocol.Validate.{obs_failed, without_attachment_data}
use agent_runtime_client.Store.{Store, ◌>>=◌, pure}
use agent_runtime_client.Hub.State.{Hub}
use agent_runtime_client.Hub.Devices.{diagnostics, resolve_device}
use agent_runtime_client.Hub.Tasks.{begin_task}
use agent_runtime_client.Hub.Dispatch.{
  Started, finished, waiting, dispatch_start, receive, cancel_dispatch, expire_dispatch,
}
use agent_runtime_client.Runtime.Events.{
  Outcome, if_set, observed, abandoned, expired, World, Surroundings, progress, observation,
  Service, emit, hub_call,
}

-- A text with a blank before it, or "" for a blank one.
prefixed : String → String → String
prefixed before text = if trim_space text == "" then "" else before ++ trim_space text

named_capability : String → String
named_capability capability =
    if trim_space capability == ""
    then "the requested desktop capability"
    else trim_space capability

-- `desktopOfflineMessage`
unfoldable pub desktop_offline_message : String → String → String
unfolding prefixed named_capability
desktop_offline_message capability requested_device =
    "Athena Desktop is not connected"
    ++ prefixed " for device " requested_device
    ++ ", so "
    ++ named_capability capability
    ++ " cannot run yet. Open Athena Desktop, wait until services are ready, and make sure agent-runtime-client control.device_token matches the launcher internal service token."

-- `desktopBoundToAnotherUserMessage`
unfoldable pub desktop_bound_to_another_user_message : String → String → String
unfolding prefixed named_capability
desktop_bound_to_another_user_message capability requested_device =
    "Athena Desktop"
    ++ prefixed " " requested_device
    ++ " is connected, but it is bound to another user, so "
    ++ named_capability capability
    ++ " cannot run for the current account. Open the device list and bind this desktop to the current user, or clear the old device binding if this is your local development machine."

-- `desktopCapabilityUnsupportedMessage`
unfoldable pub desktop_capability_unsupported_message : String → String → String
unfolding prefixed named_capability
desktop_capability_unsupported_message capability requested_device =
    "Athena Desktop"
    ++ prefixed " " requested_device
    ++ " is connected, but it does not advertise "
    ++ named_capability capability
    ++ ". Restart Athena Desktop after updating the launcher, or select a device that supports this capability."

-- `failedControlObservation` for an action.
unfoldable pub failed_control_observation : Action → String → Object → Time → Observation
failed_control_observation a message state now = record {
  protocol = protocol;
  type = type_observation;
  task_id = a.task_id;
  action_id = a.action_id;
  session_id = a.session_id;
  sequence = a.sequence;
  status = obs_failed;
  observed_at = now;
  state = state;
  attachments = [];
  error = message;
}

-- What `dispatchControlAction` returns: the observation and the error, each of which may be nil.
pub record Dispatched : Type 0 where
  pub observation : Option Observation
  pub error : Option Error

module _ {S : Type 0} (env : Surroundings S) (trace_id : String) where
  -- `emitControlObservation`
  unfoldable pub emit_control_observation : Observation → Time → Service S (Unit {0})
  emit_control_observation o now = emit env (record {
    seq = ℤ.pos 0;
    emitted_at = now;
    trace_id = trace_id;
    payload = observation (without_attachment_data o);
  })

  -- `emitControlProgress`
  unfoldable pub emit_control_progress : Progress → Time → Service S (Unit {0})
  emit_control_progress p now =
      emit env
        (record { seq = ℤ.pos 0; emitted_at = now; trace_id = trace_id; payload = progress p })

  -- The reports of progress go to the client while the dispatch waits. An error is the device's to know.
  unfoldable pub emit_heard : List Progress → Time → World S → World S
  emit_heard [] now w = w
  emit_heard (p ∷ rest) now w = emit_heard rest now (emit_control_progress p now w).1

  -- The message for an error of `ResolveDevice`.
  unfoldable pub resolution_message : String → String → Error → String
  resolution_message capability requested device_offline =
      desktop_offline_message capability requested
  resolution_message capability requested device_bound =
      desktop_bound_to_another_user_message capability requested
  resolution_message capability requested capability_unsupported =
      desktop_capability_unsupported_message capability requested
  resolution_message capability requested e = env.error_text e

  unfoldable pub resolution_error : String → Error → Error
  resolution_error message device_offline = api runtime_unavailable message
  resolution_error message e = e

  unfoldable pub is_offline : Error → Bool
  is_offline device_offline = true
  is_offline e = false

  -- A failed observation goes to the client, and back with the error, or the error of the client.
  unfoldable pub report_failure : Observation → Error → Time → World S → Dispatched × World S
  report_failure o e now w =
      let sent = emit_control_observation o now w in
      elim sent.0 [
        | ok _ ↦ (record { observation = some o; error = some e }, sent.1)
        | err x ↦ (record { observation = some o; error = some x }, sent.1)
      ]

  unfoldable pub report_success : Observation → Time → World S → Dispatched × World S
  report_success o now w =
      let sent = emit_control_observation o now w in
      elim sent.0 [
        | ok _ ↦ (record { observation = some o; error = none }, sent.1)
        | err x ↦ (record { observation = none; error = some x }, sent.1)
      ]

  diagnosed : String → String → Option (Hub S) → Map String
  diagnosed user_id capability none = []
  diagnosed user_id capability (some h) =
      ("device_diagnostics", env.json_diagnostics (diagnostics user_id capability h)) ∷ []

  -- `dispatchControlAction` where no device is found.
  unfoldable pub report_unresolved :
      ℕ → String → String → Action → Error → World S → Dispatched × World S
  unfolding diagnosed
  report_unresolved n user_id requested a e w =
      let message = resolution_message a.capability requested e in
      let state : Object = some (
        ("capability", env.json_text a.capability)
        ∷ ("requested_device", env.json_text (trim_space requested))
        ∷ ("connected", env.json_flag (not (is_offline e)))
        ∷ diagnosed user_id a.capability w.hub) in
      report_failure (failed_control_observation a message state (env.now n 1))
        (resolution_error message e) (env.now n 2) w

  module _ ⦃db : Store S⦄ where
    -- The end of the wait of a dispatch.
    unfoldable pub end_wait : ℕ → ℕ → Action → Outcome → Service S Observation
    end_wait n conn a (observed o) = hub_call (receive a o (env.now n 6))
    end_wait n conn a (abandoned reason) = hub_call (cancel_dispatch conn a reason (env.now n 6))
    end_wait n conn a expired = hub_call (expire_dispatch conn a (env.now n 6))

    -- What happens from the point where the dispatch waits.
    unfoldable pub wait_for : ℕ → ℕ → Action → Service S Observation
    wait_for n conn a w =
        let wait = env.wait n a in
        end_wait n conn a wait.outcome
          (emit_heard wait.heard (env.now n 5) (record w { hub = if_set w.hub wait.others }))

    unfoldable pub wait_if_started : ℕ → Started → Service S Observation
    wait_if_started n (finished o) = pure o
    wait_if_started n (waiting conn a) = wait_for n conn a

    -- `Dispatch` from its start to its end.
    unfoldable pub run_dispatch : ℕ → String → Action → Service S Observation
    run_dispatch n device_id a w =
        let on_progress = λ (p : Progress). (emit_control_progress p (env.now n 5) w).0 in
        (do
          started ← hub_call (dispatch_start device_id a (some on_progress) (env.now n 4))
          wait_if_started n started)
          w

    unfoldable pub dispatch_on : ℕ → String → Action → World S → Dispatched × World S
    dispatch_on n device_id a w =
        let ended = run_dispatch n device_id a w in
        elim ended.0 [
          | err e ↦
              let state : Object = some (
                ("capability", env.json_text a.capability)
                ∷ ("device_id", env.json_text device_id)
                ∷ []) in
              report_failure
                (failed_control_observation a ("Athena Desktop action failed: " ++ env.error_text e)
                  state (env.now n 7))
                e (env.now n 8) ended.1
          | ok o ↦ report_success o (env.now n 8) ended.1
        ]

    -- `dispatchControlAction` once a device is resolved.
    unfoldable pub begin_and_dispatch :
        ℕ → String → String → String → Action → String → World S → Dispatched × World S
    begin_and_dispatch n user_id task_id conversation_id a device_id w =
        let begun =
          hub_call (begin_task task_id user_id conversation_id device_id (env.now n 3)) w in
        elim begun.0 [
          | err e ↦ (record { observation = none; error = some e }, begun.1)
          | ok _ ↦ dispatch_on n device_id a begun.1
        ]

    unfoldable pub dispatch_with_hub :
        ℕ → String → String → String → String → Action → World S → Dispatched × World S
    dispatch_with_hub n user_id requested task_id conversation_id a w =
        let resolved =
          hub_call (resolve_device (env.before n) (env.between n) user_id requested a.capability)
            w in
        elim resolved.0 [
          | err e ↦ report_unresolved n user_id requested a e resolved.1
          | ok device_id ↦
              begin_and_dispatch n user_id task_id conversation_id a device_id resolved.1
        ]

    -- `dispatchControlAction`
    unfoldable pub dispatch_control_action :
        ℕ → String → String → String → String → Action → World S → Dispatched × World S
    dispatch_control_action n user_id requested task_id conversation_id a w = elim w.hub [
      | none ↦ (
        record {
          observation = none;
          error = some (api runtime_unavailable "desktop control plane is unavailable");
        },
        w,
      )
      | some _ ↦ dispatch_with_hub n user_id requested task_id conversation_id a w
    ]
