-- ===== src/Runtime/Events.antt =====
-- The streamed events of domain/entity/runtime/stream.go, and the surroundings of a run in
-- application/service/runtime/service.go: the client that the events go to, the runtime behind the
-- gateway, and what goes on in the hub while an action is on a device.
use agent_runtime_client.Base.{
  ℕ, ℤ, String, Bool, Option, none, some, List, [], ◌∷◌, ◌++◌, ◌==◌, if◌then◌else◌,
}
use agent_runtime_client.Protocol.Error
use agent_runtime_client.Protocol.Error.{Error, Result, ok, err, nil_pointer}
use agent_runtime_client.Protocol.Message.{Time, Object, Action, Observation, Progress}
use agent_runtime_client.Protocol.Validate.{action_from_map}
use agent_runtime_client.Store.{Call}
use agent_runtime_client.Hub.State.{Hub, M}
use agent_runtime_client.Hub.Devices.{DeviceDiagnostics}
use agent_runtime_client.Runtime.Values.{
  Opaque, ActionContext, ObservationContext, RunInput, AgentInput,
}

pub record DeltaEvent : Type 0 where
  pub text : String
  pub role : String
  pub reasoning : Bool

pub record ToolResultEvent : Type 0 where
  pub id : String
  pub tool : String
  pub output : Object
  pub success : Bool
  pub error : String
  pub latency_ms : ℤ

pub record ErrorEvent : Type 0 where
  pub code : String
  pub message : String
  pub retryable : Bool

pub record ModelUsage : Type 0 where
  pub model_id : String
  pub provider : String
  pub model : String
  pub prompt_tokens : ℤ
  pub completion_tokens : ℤ
  pub total_tokens : ℤ
  pub request_count : ℤ

pub record ResponseMetadata : Type 0 where
  pub model : String
  pub latency_ms : ℤ
  pub tokens_used : ℤ
  pub prompt_tokens : ℤ
  pub completion_tokens : ℤ
  pub tool_calls_count : ℤ
  pub a2a_calls_count : ℤ
  pub skill_calls_count : ℤ
  pub iterations : ℤ
  pub tool_calls_detail : List Opaque
  pub model_usage : List ModelUsage
  pub error : String

pub record PendingApproval : Type 0 where
  pub interrupt_id : String
  pub tool_name : String
  pub tool_type : String
  pub arguments_json : String
  pub risk_level : String
  pub description : String

pub record DoneEvent : Type 0 where
  pub content : String
  pub finish_reason : String
  pub finished_at : Time
  pub prompt_tokens : ℤ
  pub completion_tokens : ℤ
  pub total_tokens : ℤ
  pub metadata : Option ResponseMetadata
  pub memories : List Opaque
  pub checkpoint_id : String

-- The payload of an event, by its type.
pub data Payload : Type 0 where
  meta : Opaque → Payload
  delta : DeltaEvent → Payload
  tool_call : Opaque → Payload
  tool_result : ToolResultEvent → Payload
  interrupted : String → List PendingApproval → Payload
  error : ErrorEvent → Payload
  done : DoneEvent → Payload
  action : Action → Payload
  progress : Progress → Payload
  observation : Observation → Payload

pub record StreamEvent : Type 0 where
  pub seq : ℤ
  pub emitted_at : Time
  pub trace_id : String
  pub payload : Payload

-- How the wait of a dispatch ends.
pub data Outcome : Type 0 where
  observed : Observation → Outcome
  abandoned : String → Outcome
  expired : Outcome

-- What happens while a dispatch waits: what others do to the hub, the progress that the device reports
-- to the run, and how the wait ends.
pub record Wait (S : Type 0) : Type 0 where
  pub others : Hub S → Hub S
  pub heard : List Progress
  pub outcome : Outcome

-- The hub of the service, the events that the client has taken, and how often the runtime has been asked.
pub record World (S : Type 0) : Type 0 where
  pub hub : Option (Hub S)
  pub emitted : List StreamEvent
  pub asked : ℕ

-- What the surroundings do. `runtime` and `agent_runtime` are the stream of the runtime for an input, and how
-- it ends if every event is taken; `client` takes an event after those before, or fails; `before` and `between` fill the gaps
-- of `ResolveDevice`. The first number is that of the step, and the second one of `now` counts the readings
-- of the clock in it.
pub record Surroundings (S : Type 0) : Type 0 where
  pub runtime : ℕ → RunInput → List StreamEvent × Result (Unit {0})
  pub agent_runtime : ℕ → AgentInput → List StreamEvent × Result (Unit {0})
  pub client : List StreamEvent → StreamEvent → Result (Unit {0})
  pub before : ℕ → Hub S → Hub S
  pub between : ℕ → Hub S → Hub S
  pub wait : ℕ → Action → Wait S
  pub now : ℕ → ℕ → Time
  pub recode : Object → Result Action
  pub error_text : Error → String
  pub json_text : String → String
  pub json_flag : Bool → String
  pub json_diagnostics : DeviceDiagnostics → String
  pub is_true : String → Bool
  pub challenge_kind : String → Option String
  pub encode_payload : String → ActionContext → ObservationContext → Option String
  pub quoted : String → String

-- A method of the service in these surroundings.
abbrev pub Service : Type 0 → Type 0 → Type 0
Service S A = Call (World S) A

module _ {S : Type 0} (env : Surroundings S) where
  -- `emit`
  unfoldable pub emit : StreamEvent → Service S (Unit {0})
  emit event w = elim (env.client w.emitted event) [
    | ok _ ↦ (ok tt, record w { emitted = w.emitted ++ event ∷ [] })
    | err e ↦ (err e, w)
  ]

  -- `actionFromStreamEvent`
  unfoldable pub action_from_payload : Payload → Result (Option Action)
  action_from_payload (tool_result r) =
      if r.tool == "client.action"
      then (Error.◌>>=◌ (action_from_map env.recode r.output) λ a. ok (some a))
      else ok none
  action_from_payload (meta m) = ok none
  action_from_payload (delta d) = ok none
  action_from_payload (tool_call t) = ok none
  action_from_payload (interrupted id approvals) = ok none
  action_from_payload (error e) = ok none
  action_from_payload (done d) = ok none
  action_from_payload (action a) = ok none
  action_from_payload (progress p) = ok none
  action_from_payload (observation o) = ok none

module _ {S : Type 0} where
  unfoldable pub on_hub : {A : Type 0} → M S A → Option (Hub S) → Result A × Option (Hub S)
  on_hub m none = (err nil_pointer, none)
  on_hub m (some h) = ((m h).0, some (m h).1)

  -- A call of the hub's method through the service's pointer, which panics where it is nil.
  unfoldable pub hub_call : {A : Type 0} → M S A → Service S A
  unfolding on_hub
  hub_call m w = ((on_hub m w.hub).0, record w { hub = (on_hub m w.hub).1 })

-- A change of the hub where the pointer is not nil.
unfoldable pub if_set : {A : Type 0} → Option A → (A → A) → Option A
if_set none f = none
if_set (some a) f = some (f a)
