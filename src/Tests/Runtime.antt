-- ===== src/Tests/Runtime.antt =====
-- The run service of application/service/runtime/service.go on small inputs.
use agent_runtime_client.Base.{
  ◌+◌, ◌≤◌, pos, String, true, false, Option, none, some, [], ◌∷◌, Map, lookup, ◌≡◌, ◌⊎◌, eqb,
  if◌then◌else◌, refl, trim_space, equal_fold, to_lower,
}
use agent_runtime_client.Protocol.Error.{ok, err, api, forbidden, cancelled}
use agent_runtime_client.Store.{next}
use agent_runtime_client.Runtime.Values.{
  text, ModelConfig, SysModel, SysModelKey, SysAgent, RunInput, AgentInput, StoredAgentConfig,
  ModelEntity, text_value, first_non_empty,
}
use agent_runtime_client.Runtime.Models.{
  ModelService, Net, resolve_model, model_id, resolve_found, resolve_own, resolve_chosen,
  validate_runtime_model_type, resolve_stored_model, normalize_runtime_mode, resolve_credential,
  resolve_keyed, requires_api_key, endpoint_host,
}
use agent_runtime_client.Runtime.Hydration.{named_model, with_model}
use agent_runtime_client.Runtime.Agents.{AgentService}
use agent_runtime_client.Runtime.Agents.Entitled.{Entitled}
use agent_runtime_client.Runtime.Events.{World, Surroundings, tool_result, observed}
use agent_runtime_client.Runtime.Control.{run_task_id, stream_run, stream_agent}
use agent_runtime_client.Runtime.Control.Ending.{Over, Waits}
use agent_runtime_client.Runtime.Control.Runs.{stream-Over, stream-asked}
use agent_runtime_client.Tests.Data.{idle_store, click, clicked, small_hub}

abbrev own_model : SysModel
own_model = record {
  ulid = "m1";
  created_at = pos 1;
  updated_at = pos 1;
  deleted_at = pos 0;
  created_by = "u1";
  updated_by = "u1";
  name = "gpt";
  provider = "openai";
  base_url = "https://api.openai.com/v1";
  key_id = "k1";
  model_type = "llm";
  category = "default";
  status = "";
  latency = "";
  context_window = "";
  capabilities = "vision";
  usage = pos 0;
  enabled = true;
  runtime_mode = "";
}

abbrev own_key : SysModelKey
own_key = record {
  ulid = "k1";
  created_at = pos 1;
  updated_at = pos 1;
  deleted_at = pos 0;
  user_id = "u1";
  name = "key";
  provider = "openai";
  api_key = "secret";
  base_url = "";
  enabled = true;
}

-- A model service with one model and its key, whose listings are empty.
abbrev one_model : ModelService (Unit {0})
one_model = record {
  find_by_id = λ id st. (ok (some own_model), st);
  find_all = λ qs st. (ok [], st);
  find_key_by_id = λ id st. (ok (some own_key), st);
}

abbrev remote : Net
remote = record { hostname = λ raw. "api.openai.com"; local_address = λ host. false }

abbrev own_entity : ModelEntity
own_entity = record {
  id = "m1";
  provider = "openai";
  name = "gpt";
  base_url = "https://api.openai.com/v1";
  api_key = "secret";
  runtime_mode = "on_demand";
  capabilities = "vision";
}

-- Another user may not use the model.
resolve_model-foreign :
    (resolve_model one_model remote "u2" (named_model "m1") "llm" tt).0
    ≡ err (api forbidden "只能使用自己绑定的模型")
unfolding resolve_model model_id text_value lookup trim_space next resolve_found resolve_own
    resolve_chosen validate_runtime_model_type equal_fold to_lower resolve_stored_model
    normalize_runtime_mode resolve_credential resolve_keyed first_non_empty requires_api_key
    endpoint_host
resolve_model-foreign = refl

abbrev hydrated_models : Map ModelConfig
hydrated_models = ("default", with_model (named_model "m1") own_entity) ∷ []

abbrev own_agent : SysAgent
own_agent = record {
  ulid = "a1";
  created_at = pos 1;
  updated_at = pos 1;
  deleted_at = pos 0;
  created_by = "u1";
  updated_by = "u1";
  name = "helper";
  description = "";
  icon = "";
  model = "m1";
  embedding_model = "";
  image_model = "";
  video_model = "";
  config = "";
  config_json = "";
  is_system = false;
  enabled = true;
  channels = "";
  is_periodic = false;
  cron_rule = "";
}

abbrev one_agent : AgentService (Unit {0})
one_agent = record {
  find_by_id = λ id st. (ok (some own_agent), st);
  find_user_model = λ user id st. (ok none, st);
}

abbrev asked_run : RunInput
asked_run = record {
  prompt = "open the page";
  models = [];
  messages = [];
  context = ("agent_id", text "a1") ∷ ("system_prompt", text "obey me") ∷ [];
  knowledge_bases = [];
  skills = [];
  mcps = [];
  clis = [];
  a2a = [];
  capabilities = [];
  internal_agents = [];
  sub_agents = [];
  options = none;
  sandbox = none;
  files = [];
  visual_inputs = [];
  request_id = "t1";
  trace_id = "trace";
}

-- The prompt that came with the request is gone, and the model is the agent's.
abbrev prepared_run : RunInput
prepared_run = record asked_run {
  models = ("default", named_model "m1") ∷ [];
  context = ("agent_id", text "a1") ∷ [];
}

abbrev no_config : String → Option StoredAgentConfig
no_config raw = none

-- Surroundings in which the runtime asks for one click, and the device reports that it is done.
abbrev clicking : Surroundings (Unit {0})
clicking = record {
  runtime = λ n input. (
    (if eqb n 0
        then record {
          seq = pos 1;
          emitted_at = 1;
          trace_id = "trace";
          payload = tool_result (record {
            id = "call";
            tool = "client.action";
            output = some [];
            success = true;
            error = "";
            latency_ms = pos 1;
          });
        }
          ∷ []
        else []),
    ok tt,
  );
  agent_runtime = λ n input. ([], err cancelled);
  client = λ before event. ok tt;
  before = λ n h. h;
  between = λ n h. h;
  wait = λ n a. record { others = λ h. h; heard = []; outcome = observed clicked };
  now = λ n k. 10;
  recode = λ o. ok click;
  error_text = λ e. "failed";
  json_text = λ s. s;
  json_flag = λ b. "flag";
  json_diagnostics = λ d. "diagnostics";
  is_true = λ s. false;
  challenge_kind = λ s. none;
  encode_payload = λ task a o. some "payload";
  quoted = λ s. s;
}

abbrev asked_agent : AgentInput
asked_agent = record {
  task = "open the page";
  context = [];
  models = [];
  capabilities = [];
  visual_inputs = [];
  stream = true;
  request_id = "";
  trace_id = "trace";
}

abbrev small_world : World (Unit {0})
small_world = record { hub = some small_hub; emitted = []; asked = 0 }

stream-Over_example :
    (Over
        (run_task_id "t1" "trace")
        (stream_run clicking (some (named_model "m1")) "u1" "" asked_run small_world).1
      ⊎ Waits clicking "trace"
          (run_task_id "t1" "trace")
          (stream_run clicking (some (named_model "m1")) "u1" "" asked_run small_world))
    × (Over
          (run_task_id "" "trace")
          (stream_agent clicking (some (named_model "m1")) "u1" "" asked_agent small_world).1
        ⊎ Waits clicking "trace"
            (run_task_id "" "trace")
            (stream_agent clicking (some (named_model "m1")) "u1" "" asked_agent small_world))
stream-Over_example =
    stream-Over clicking (some (named_model "m1")) "u1" "" small_world asked_run asked_agent
      (small_hub, refl)

stream-asked_example :
    ((stream_run clicking (some (named_model "m1")) "u1" "" asked_run small_world).1.asked ≤ 0 + 8)
    × ((stream_agent clicking (some (named_model "m1")) "u1" "" asked_agent small_world).1.asked
        ≤ 0 + 8)
stream-asked_example =
    stream-asked clicking (some (named_model "m1")) "u1" "" small_world asked_run asked_agent
