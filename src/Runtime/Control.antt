-- ===== src/Runtime/Control.antt =====
-- The control loop of a streamed run in application/service/runtime/service.go: the runtime is asked, a
-- device action that it asks for goes through the hub, and what the device has observed goes into the next
-- step. `runControlLoop` and `runAgentControlLoop` differ in their input, which is a parameter here.
-- `prepareRun` and `prepareAgent` are those of domain/srv/runtime/service.go.
pub mod Following
pub mod Runs
pub mod Ending
use Prim.Native.String.{◌++◌}
use agent_runtime_client.Base.{
  ℕ, zero, suc, ◌+◌, pos, String, Bool, true, false, not, ◌&&◌, Option, none, some, List, [], ◌∷◌,
  Map, lookup, put, ◌==◌, if◌then◌else◌, trim_space,
}
use agent_runtime_client.Protocol.Error.{
  Error, Result, ok, err, api, bad_request, internal, nil_pointer, cancelled,
}
use agent_runtime_client.Protocol.Message.{Time, Action, Observation}
use agent_runtime_client.Protocol.Status
use agent_runtime_client.Protocol.Validate.{obs_waiting_approval, obs_waiting_user, obs_cancelled}
use agent_runtime_client.Store.{Store, ◌>>=◌, ◌>>◌, pure, lift}
use agent_runtime_client.Hub.State.{Hub, attempt}
use agent_runtime_client.Hub.Tasks.{set_task_status, active_sessions}
use agent_runtime_client.Runtime.Values.{
  Value, text, runtime_context_string, ModelConfig, RunInput, AgentInput,
}
use agent_runtime_client.Runtime.Events.{
  World, if_set, Surroundings, StreamEvent, Payload, meta, delta, tool_call, tool_result,
  interrupted, error, done, action, progress, observation, Service, emit, action_from_payload,
  hub_call,
}
use agent_runtime_client.Runtime.Context.{
  apply_device_observation, next_device_observation_prompt, visual_inputs_from_observation,
}
use agent_runtime_client.Runtime.Dispatching.{dispatch_control_action}

abbrev pub max_device_action_iterations : ℕ
max_device_action_iterations = 8

-- `applyDefaultModel`
unfoldable pub apply_default_model : Option ModelConfig → Map ModelConfig → Result (Map ModelConfig)
apply_default_model default_model models =
    let configured : Bool = elim (lookup "default" models) [
      | none ↦ false
      | some m ↦ not (trim_space m.name == "")
    ] in
    if configured then ok models else elim default_model [
      | none ↦ err (
          api bad_request
            "model not configured: provide models.default or set a default model in config")
      | some m ↦
          if trim_space m.name == ""
          then err (
              api bad_request
                "model not configured: provide models.default or set a default model in config")
          else ok (put "default" m models)
    ]

with_models : {I : Type 0} → (Map ModelConfig → I) → Result (Map ModelConfig) → Result I
with_models set (ok models) = ok (set models)
with_models set (err e) = err e

no_messages : {A : Type 0} → List A → Bool
no_messages [] = true
no_messages (x ∷ xs) = false

-- `prepareRun`
unfoldable pub prepare_run : Option ModelConfig → RunInput → Result RunInput
unfolding with_models no_messages
prepare_run default_model input =
    if trim_space input.prompt == "" && no_messages input.messages
    then err (api bad_request "prompt or messages is required")
    else with_models (λ models. record input { models = models })
        (apply_default_model default_model input.models)

-- `prepareAgent`
unfoldable pub prepare_agent : Option ModelConfig → AgentInput → Result AgentInput
unfolding with_models
prepare_agent default_model input =
    if trim_space input.task == ""
    then err (api bad_request "task is required")
    else with_models (λ models. record input { models = models })
        (apply_default_model default_model input.models)

-- What a loop does with its input.
pub record Loop (S I : Type 0) : Type 0 where
  pub prepare : I → Result I
  pub stream : ℕ → I → List StreamEvent × Result (Unit {0})
  pub advance : Action → Observation → I → I

is_done : Payload → Bool
is_done (done d) = true
is_done (meta m) = false
is_done (delta d) = false
is_done (tool_call t) = false
is_done (tool_result r) = false
is_done (interrupted id approvals) = false
is_done (error e) = false
is_done (action a) = false
is_done (progress p) = false
is_done (observation o) = false

-- The action of a step, as it is sent to the device.
unfoldable pub step_action : String → ℕ → Action → Action
step_action task_id sequence a = record a {
  task_id = task_id;
  sequence = pos sequence;
  idempotency_key = task_id ++ ":" ++ a.action_id;
}

module _ {S : Type 0} (env : Surroundings S) (trace_id task_id : String) where
  -- An event that is no action: the end of the stream is held back once an action is pending.
  unfoldable pub forward : StreamEvent → Option Action → Service S (Option Action)
  unfolding is_done
  forward event none w = (do emit env event; pure none) w
  forward event (some a) w =
      if is_done event.payload then (ok (some a), w) else (do emit env event; pure (some a)) w

  -- The function `wrapped` of `runControlStep`, on what `actionFromStreamEvent` returns.
  unfoldable pub take_event :
      ℕ → StreamEvent → Option Action → Result (Option Action) → Service S (Option Action)
  take_event sequence event pending (err e) = lift (err e)
  take_event sequence event pending (ok none) = forward event pending
  take_event sequence event pending (ok (some a)) = do
    emit env (record event { payload = action (step_action task_id sequence a) })
    pure (some (step_action task_id sequence a))

  unfoldable pub take_events : ℕ → List StreamEvent → Option Action → Service S (Option Action)
  take_events sequence [] pending = pure pending
  take_events sequence (event ∷ rest) pending = do
    held ← take_event sequence event pending (action_from_payload env event.payload)
    take_events sequence rest held

  abbrev pub waiting_done : String → Time → StreamEvent
  waiting_done reason now = record {
    seq = pos 0;
    emitted_at = now;
    trace_id = trace_id;
    payload = done (record {
      content = "";
      finish_reason = reason;
      finished_at = now;
      prompt_tokens = pos 0;
      completion_tokens = pos 0;
      total_tokens = pos 0;
      metadata = none;
      memories = [];
      checkpoint_id = "";
    });
  }

  module _ {I : Type 0} (loop : Loop S I) where
    -- The stream of one step.
    unfoldable pub ask : ℕ → I → Service S (Option Action)
    ask sequence input w =
        let answer = loop.stream w.asked input in
        (do pending ← take_events sequence answer.0 none; lift answer.1; pure pending)
          (record w { asked = w.asked + 1 })

    -- `runControlStep`, with the preparation of the input.
    unfoldable pub run_control_step : ℕ → I → Service S (I × Option Action)
    run_control_step sequence input = do
      prepared ← lift (loop.prepare input)
      pending ← ask sequence prepared
      pure (prepared, pending)

    module _ ⦃db : Store S⦄ (user_id requested conversation_id : String) where
      unfoldable pub settle : ℕ → String → World S → World S
      settle n status w = record w {
        hub = if_set w.hub (λ h. (set_task_status task_id status (env.now n 9) h).1);
      }

      -- The same through the pointer, which panics where it is nil.
      unfoldable pub settle_on : ℕ → String → Service S (Unit {0})
      settle_on n status = hub_call (attempt (set_task_status task_id status (env.now n 9)))

      -- The rest of a turn with the observation of the device.
      unfoldable pub after_observation :
          ℕ → (I → Service S (Unit {0})) → I → Action → Observation → Service S (Unit {0})
      after_observation n continue input a o w =
          if o.status == obs_waiting_approval
          then emit env (waiting_done "waiting_approval" (env.now n 10)) w
          else if o.status == obs_waiting_user
          then emit env (waiting_done "waiting_user" (env.now n 10)) w
          else if o.status == obs_cancelled
          then (do settle_on n Status.cancelled; lift (err cancelled)) w
          else continue (loop.advance a o input) w

      unfoldable pub after_dispatch :
          ℕ
          → (I → Service S (Unit {0}))
          → I
          → Action
          → Option Observation
          → Option Error
          → Service S (Unit {0})
      after_dispatch n continue input a (some o) e = after_observation n continue input a o
      after_dispatch n continue input a none (some e) = do settle_on n Status.failed; lift (err e)
      after_dispatch n continue input a none none = lift (err nil_pointer)

      unfoldable pub after_step :
          ℕ → (I → Service S (Unit {0})) → Result (I × Option Action) → Service S (Unit {0})
      after_step n continue (err e) w = (err e, settle n Status.failed w)
      after_step n continue (ok (input, none)) w = (ok tt, settle n Status.completed w)
      after_step n continue (ok (input, some a)) w =
          let d =
            dispatch_control_action env trace_id n user_id requested task_id conversation_id a w in
          after_dispatch n continue input a d.0.observation d.0.error d.1

      -- The turns that are left, from the iteration `n` on.
      unfoldable pub run_turns : ℕ → ℕ → I → Service S (Unit {0})
      run_turns zero n input w =
          (err (api internal "device action iteration limit reached"), settle n Status.failed w)
      run_turns (suc left) n input w =
          let stepped = run_control_step n input w in
          after_step n (run_turns left (n + 1)) stepped.0 stepped.1

      -- `runControlLoop` and `runAgentControlLoop` from their loop on.
      unfoldable pub run_control_loop : I → Service S (Unit {0})
      run_control_loop input = run_turns max_device_action_iterations 1 input

module _ {S : Type 0} (env : Surroundings S) (default_model : Option ModelConfig) where
  -- A run, in `runControlLoop`; `prompt` is the one that it started with.
  abbrev pub run_loop : String → Loop S RunInput
  run_loop prompt = record {
    prepare = prepare_run default_model;
    stream = env.runtime;
    advance = λ a o input. record input {
      context = apply_device_observation prompt a o input.context;
      visual_inputs = visual_inputs_from_observation input.models o;
      prompt = next_device_observation_prompt env prompt a o;
    };
  }

  -- An agent run, in `runAgentControlLoop`.
  abbrev pub agent_loop : String → Loop S AgentInput
  agent_loop task = record {
    prepare = prepare_agent default_model;
    stream = env.agent_runtime;
    advance = λ a o input. record input {
      context = apply_device_observation task a o input.context;
      visual_inputs = visual_inputs_from_observation input.models o;
      task = next_device_observation_prompt env task a o;
    };
  }

-- The loop of `hydrateActiveDeviceSessions`.
active_values : Map String → Map Value → Map Value
active_values [] values = values
active_values ((family, session_id) ∷ rest) values = active_values rest (
    if family == "athena"
    then put "active_browser_session" (text session_id) values
    else if family == "desktop"
    then put "active_desktop_session" (text session_id) values
    else values)

listed_values : Result (Map String) → Map Value → Map Value
unfolding active_values
listed_values (ok sessions) values = active_values sessions values
listed_values (err e) values = values

-- The identifier of a run's task: that of the request, or else the trace.
unfoldable pub run_task_id : String → String → String
run_task_id request_id trace_id =
    if trim_space request_id == "" then trace_id else trim_space request_id

module _ {S : Type 0} ⦃db : Store S⦄ where
  hydrate_from : String → String → Map Value → Hub S → Map Value × Option (Hub S)
  unfolding listed_values
  hydrate_from user_id conversation_id values h =
      let listing = active_sessions user_id conversation_id h in
      (listed_values listing.0 values, some listing.1)

  -- `hydrateActiveDeviceSessions`
  unfoldable pub hydrate_active_device_sessions :
      String → String → Map Value → World S → Map Value × World S
  unfolding hydrate_from
  hydrate_active_device_sessions user_id conversation_id values w = elim w.hub [
    | none ↦ (values, w)
    | some h ↦
        if conversation_id == ""
        then (values, w)
        else let r = hydrate_from user_id conversation_id values h in (r.0, record w { hub = r.1 })
  ]

  module _ (env : Surroundings S) (default_model : Option ModelConfig)
      (user_id requested : String) where
    -- `runControlLoop`
    unfoldable pub stream_run : RunInput → Service S (Unit {0})
    stream_run input w =
        let conversation_id = runtime_context_string input.context "session_id" in
        let hydrated = hydrate_active_device_sessions user_id conversation_id input.context w in
        run_control_loop env input.trace_id (run_task_id input.request_id input.trace_id)
          (run_loop env default_model input.prompt) user_id requested conversation_id
          (record input { context = hydrated.0 }) hydrated.1

    -- `runAgentControlLoop`
    unfoldable pub stream_agent : AgentInput → Service S (Unit {0})
    stream_agent input w =
        let conversation_id = runtime_context_string input.context "session_id" in
        let hydrated = hydrate_active_device_sessions user_id conversation_id input.context w in
        run_control_loop env input.trace_id (run_task_id input.request_id input.trace_id)
          (agent_loop env default_model input.task) user_id requested conversation_id
          (record input { context = hydrated.0 }) hydrated.1
