-- ===== src/Runtime/Agents.antt =====
-- The stored agent of a run in application/service/runtime/service.go: `hydrateAgentConfig` for a run,
-- `hydrateAgentModels` for an agent run. `json.Unmarshal` of a stored configuration is a parameter.
pub mod Entitled
use agent_runtime_client.Base.{
  pos, int_eq, String, Bool, true, false, not, ◌&&◌, ◌||◌, Option, none, some, List, [], ◌∷◌, Map,
  lookup, put, delete, ◌==◌, if◌then◌else◌, trim_space,
}
use agent_runtime_client.Protocol.Error.{Error, Result, ok, err, reject, api, not_found, forbidden}
use agent_runtime_client.Store.{Call, next, ◌>>=◌, ◌>>◌, pure, lift}
use agent_runtime_client.Runtime.Values.{
  Value, text, text_value, Opaque, ModelConfig, SysAgent, SysAgentUserModel, SubAgentConfig,
  RunInput, StoredAgentConfig, first_non_empty,
}
use agent_runtime_client.Runtime.Hydration.{named_model}

pub record AgentService (S : Type 0) : Type 0 where
  pub find_by_id : String → Call S (Option SysAgent)
  pub find_user_model : String → String → Call S (Option SysAgentUserModel)

-- `agentIDFromContext`
unfoldable pub agent_id_from_context : Map Value → String
agent_id_from_context context =
    let first = text_value (lookup "agent_id" context) in
    if not (first == "") then first else text_value (lookup "agentId" context)

-- `stripPromptContext`
abbrev pub prompt_keys : List String
prompt_keys =
    "system_prompt" ∷ "systemPrompt" ∷ "rewrite_prompt" ∷ "rewritePrompt" ∷ "summarize_prompt"
    ∷ "summarizePrompt" ∷ "prompt" ∷ "instruction" ∷ []

unfoldable pub delete_all : List String → Map Value → Map Value
delete_all [] context = context
delete_all (key ∷ keys) context = delete_all keys (delete key context)

unfoldable pub strip_prompt_context : Map Value → Map Value
unfolding delete_all
strip_prompt_context context = delete_all prompt_keys context

-- A copy of the entries whose key is not there yet.
unfoldable pub add_missing : Map Value → Map Value → Map Value
add_missing [] context = context
add_missing ((key, value) ∷ rest) context =
    add_missing rest (elim (lookup key context) [ none ↦ put key value context | some v ↦ context ])

-- A list, map or pointer of the request, or where it is empty, that of the stored configuration.
abbrev pub or_list {ℓ} : {A : Type ℓ} → List A → List A → List A
or_list [] stored = stored
or_list (x ∷ xs) stored = x ∷ xs

abbrev pub or_option {ℓ} : {A : Type ℓ} → Option A → Option A → Option A
or_option none stored = stored
or_option (some x) stored = some x

-- `mergeStoredAgentConfig`
unfoldable pub merge_stored_agent_config : RunInput → StoredAgentConfig → RunInput
merge_stored_agent_config input cfg =
    let context = add_missing cfg.context input.context in
    let system_prompt = first_non_empty cfg.system_prompt cfg.system_prompt_ui in
    record input {
      context =
          if system_prompt == "" then context else put "system_prompt" (text system_prompt) context;
      models = or_list input.models cfg.models;
      knowledge_bases = or_list input.knowledge_bases (or_list cfg.knowledge_bases cfg.knowledge);
      skills = or_list input.skills cfg.skills;
      mcps = or_list input.mcps cfg.mcps;
      clis = or_list input.clis cfg.clis;
      a2a = or_list input.a2a cfg.a2a;
      capabilities = or_list input.capabilities cfg.capabilities;
      internal_agents = or_list input.internal_agents cfg.internal_agents;
      sub_agents = or_list input.sub_agents cfg.sub_agents;
      options = or_option input.options cfg.options;
      sandbox = or_option input.sandbox cfg.sandbox;
    }

-- A role that the agent binds a model to, or leaves unbound.
abbrev bind_role : String → String → Map ModelConfig → Map ModelConfig
bind_role role id bound = if id == "" then delete role bound else put role (named_model id) bound

-- `bindStoredAgentModels`, the models that a run of the agent gets.
unfoldable pub bind_stored_agent_models : SysAgent → Map ModelConfig → Map ModelConfig
bind_stored_agent_models agent configured =
    let id = trim_space agent.model in
    if id == ""
    then delete "default" configured
    else bind_role "video" (trim_space agent.video_model) (
        bind_role "image" (trim_space agent.image_model) (
          bind_role "embedding" (trim_space agent.embedding_model)
            (put "default" (named_model id) configured)))

-- The models of the user's own binding for a public agent.
unfoldable pub with_user_model : SysAgent → Option SysAgentUserModel → SysAgent
with_user_model agent none = agent
with_user_model agent (some binding) = record agent {
  model = binding.model;
  embedding_model = binding.embedding_model;
  image_model = binding.image_model;
  video_model = binding.video_model;
}

module _ (decode : String → Option StoredAgentConfig) where
  -- `parseStoredAgentConfig`
  unfoldable pub parse_stored_agent_config : String → Option StoredAgentConfig
  parse_stored_agent_config raw = if trim_space raw == "" then none else decode raw

  -- The configuration in the one column, or else in the other.
  unfoldable pub stored_config : SysAgent → Option StoredAgentConfig
  unfolding parse_stored_agent_config
  stored_config agent =
      or_option (parse_stored_agent_config agent.config_json)
        (parse_stored_agent_config agent.config)

-- `modelsFromConfig`
abbrev pub models_from_config : Option StoredAgentConfig → Map ModelConfig
models_from_config none = []
models_from_config (some cfg) = cfg.models

abbrev pub merged : Option StoredAgentConfig → RunInput → RunInput
merged none input = input
merged (some cfg) input = merge_stored_agent_config input cfg

module _ {S : Type 0} (svc : AgentService S) (user_id : String) where
  unfoldable pub bound_models : SysAgent → Call S SysAgent
  bound_models agent = do
    binding ← svc.find_user_model user_id agent.ulid
    pure (with_user_model agent binding)

  -- The models of a public agent are those of the user's binding.
  unfoldable pub user_models : SysAgent → Call S SysAgent
  user_models agent st = if agent.is_system then bound_models agent st else pure agent st

  -- The agent that was found, or not, if the user may run it.
  unfoldable pub usable_agent : Option SysAgent → Call S SysAgent
  usable_agent none = lift (err (api not_found "agent not found or disabled"))
  usable_agent (some agent) = do
    lift (
        reject (agent.ulid == "" || not (int_eq agent.deleted_at (pos 0)) || not agent.enabled)
          (api not_found "agent not found or disabled"))
    lift (
        reject (not agent.is_system && not (agent.created_by == user_id))
          (api forbidden "只能使用自己的 Agent"))
    user_models agent

  unfoldable pub load_agent : String → Call S SysAgent
  load_agent id = do found ← svc.find_by_id id; usable_agent found

  -- `hydrateAgentConfig` for a run that names an agent.
  unfoldable pub apply_agent :
      (String → Option StoredAgentConfig) → String → RunInput → Call S RunInput
  apply_agent decode id stripped = do
    agent ← load_agent id
    pure (record (merged (stored_config decode agent) stripped) {
      models = bind_stored_agent_models agent (models_from_config (stored_config decode agent));
    })

  -- `hydrateAgentConfig` with an agent service.
  unfoldable pub hydrate_agent_config :
      (String → Option StoredAgentConfig) → RunInput → Call S RunInput
  hydrate_agent_config decode input st =
      let stripped = record input { context = strip_prompt_context input.context } in
      let id = agent_id_from_context stripped.context in
      if id == "" then pure stripped st else apply_agent decode id stripped st

  -- `hydrateAgentModels` with an agent service.
  unfoldable pub hydrate_agent_models :
      (String → Option StoredAgentConfig) → Map Value → Map ModelConfig → Call S (Map ModelConfig)
  hydrate_agent_models decode context models st =
      let id = agent_id_from_context context in
      if id == ""
      then (ok models, st)
      else (do
        agent ← load_agent id
        pure (bind_stored_agent_models agent (models_from_config (stored_config decode agent))))
          st
