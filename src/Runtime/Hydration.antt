-- ===== src/Runtime/Hydration.antt =====
-- The models of a run in application/service/runtime/service.go: `ensureUserModel`, `hydrateModels` and
-- `hydrateSubAgentModels`, in the order in which `Run` and `RunStream` call them.
pub mod Keys
use agent_runtime_client.Base.{
  pos, String, Bool, true, false, not, ◌&&◌, ◌||◌, Option, none, some, List, [], ◌∷◌, ◌++◌, Map,
  lookup, put, ◌==◌, if◌then◌else◌, trim_space,
}
use agent_runtime_client.Protocol.Error.{Error, Result, ok, err, api, model_binding_required}
use agent_runtime_client.Store.{Call, next, ◌>>=◌, ◌>>◌, pure, lift}
use agent_runtime_client.Catalogue.Query.{number, word, truth, one, op_eq, op_ne1, Query}
use agent_runtime_client.Runtime.Values.{
  Value, text, ModelConfig, SysModel, ModelEntity, SubAgentConfig, first_non_empty,
}
use agent_runtime_client.Runtime.Models.{
  ModelService, Net, off, model_id, model_type_for_role, resolve_model,
}

-- `hasConfiguredDefaultModel`
unfoldable pub has_configured_default_model : Map ModelConfig → Bool
has_configured_default_model models = elim (lookup "default" models) [
  | none ↦ false
  | some cfg ↦ not (model_id cfg == "") || not (trim_space cfg.name == "")
]

-- `entity.ModelConfig{ExtraFields: map[string]any{"model_id": id}}`
abbrev pub named_model : String → ModelConfig
named_model id = record {
  provider = "";
  name = "";
  api_key = "";
  api_base = "";
  temperature = "0";
  max_tokens = pos 0;
  top_p = "0";
  extra_fields = some (("model_id", text id) ∷ []);
}

-- The filters of `ensureUserModel`.
abbrev pub available_queries : String → List Query
available_queries user_id =
    record { key = "deleted_at"; operator = op_eq; value = one (number (pos 0)) }
    ∷ record { key = "created_by"; operator = op_eq; value = one (word user_id) }
    ∷ record { key = "model_type"; operator = op_eq; value = one (word "llm") }
    ∷ record { key = "enabled"; operator = op_eq; value = one (truth true) }
    ∷ record { key = "runtime_mode"; operator = op_ne1; value = one (word off) }
    ∷ []

abbrev pub default_query : Query
default_query = record { key = "category"; operator = op_eq; value = one (word "default") }

-- A nil map of extra fields is made before it is written to.
abbrev made : Option (Map Value) → Map Value
made none = []
made (some fields) = fields

-- What `hydrateModels` writes into a configuration; `bare` has no key of the caller's.
unfoldable pub with_model : ModelConfig → ModelEntity → ModelConfig
with_model bare m = record bare {
  provider = first_non_empty bare.provider m.provider;
  name = first_non_empty bare.name m.name;
  api_base = first_non_empty bare.api_base m.base_url;
  api_key = m.api_key;
  extra_fields = some (
      put "model_id" (text m.id) (
        put "capabilities" (text m.capabilities)
          (put "runtime_mode" (text m.runtime_mode) (made bare.extra_fields))));
}

-- The same in `hydrateSubAgentModels`, which leaves the capabilities out.
unfoldable pub with_sub_agent_model : ModelConfig → ModelEntity → ModelConfig
with_sub_agent_model bare m = record bare {
  provider = first_non_empty bare.provider m.provider;
  name = first_non_empty bare.name m.name;
  api_base = first_non_empty bare.api_base m.base_url;
  api_key = m.api_key;
  extra_fields = some (
      put "model_id" (text m.id)
        (put "runtime_mode" (text m.runtime_mode) (made bare.extra_fields)));
}

-- `if model == nil { return err }`
abbrev pub required : String → Option ModelEntity → Result ModelEntity
required message none = err (api model_binding_required message)
required message (some m) = ok m

abbrev pub binding_message : String
binding_message = "请先绑定模型后再使用 Agent"

-- `ensureUserModel` with the models that the second listing returned.
unfoldable pub choose_available : Map ModelConfig → List SysModel → Result (Map ModelConfig)
choose_available models [] = err (api model_binding_required binding_message)
choose_available models (m ∷ rest) = ok (put "default" (named_model m.ulid) models)

module _ {S : Type 0} (svc : ModelService S) (net : Net) (user_id : String) where
  -- The loop of `hydrateModels`.
  unfoldable pub hydrate_each : Map ModelConfig → Call S (Map ModelConfig)
  hydrate_each [] = pure []
  hydrate_each ((role, cfg) ∷ rest) = do
    found ← resolve_model svc net user_id (record cfg { api_key = "" }) (model_type_for_role role)
    m ← lift (required binding_message found)
    others ← hydrate_each rest
    pure ((role, with_model (record cfg { api_key = "" }) m) ∷ others)

  -- One turn of the loop of `hydrateSubAgentModels`.
  unfoldable pub hydrate_sub_agent : SubAgentConfig → Option ModelConfig → Call S SubAgentConfig
  hydrate_sub_agent sub none = pure sub
  hydrate_sub_agent sub (some cfg) = do
    found ← resolve_model svc net user_id (record cfg { api_key = "" }) "llm"
    m ← lift (required "子 Agent 绑定的模型不存在" found)
    pure (record sub { model = some (with_sub_agent_model (record cfg { api_key = "" }) m) })

  -- The loop of `hydrateSubAgentModels`.
  unfoldable pub hydrate_sub_agents : List SubAgentConfig → Call S (List SubAgentConfig)
  hydrate_sub_agents [] = pure []
  hydrate_sub_agents (sub ∷ rest) = do
    first ← hydrate_sub_agent sub sub.model
    others ← hydrate_sub_agents rest
    pure (first ∷ others)

  -- `ensureUserModel` with the models that the first listing returned.
  unfoldable pub choose_default : Map ModelConfig → List SysModel → Call S (Map ModelConfig)
  choose_default models (m ∷ rest) = lift (choose_available models (m ∷ rest))
  choose_default models [] = do
    available ← svc.find_all (available_queries user_id)
    lift (choose_available models available)

  unfoldable pub ensure_model : Map ModelConfig → Call S (Map ModelConfig)
  ensure_model models st =
      if has_configured_default_model models
      then (ok models, st)
      else (do
        defaults ← svc.find_all (available_queries user_id ++ default_query ∷ [])
        choose_default models defaults)
          st

module _ {S : Type 0} (net : Net) (user_id : String) where
  -- `ensureUserModel`; `none` is a nil model service.
  unfoldable pub ensure_user_model :
      Option (ModelService S) → Map ModelConfig → Call S (Map ModelConfig)
  ensure_user_model none models = lift (err (api model_binding_required binding_message))
  ensure_user_model (some svc) models = ensure_model svc net user_id models

  -- `hydrateModels`
  unfoldable pub hydrate_models :
      Option (ModelService S) → Map ModelConfig → Call S (Map ModelConfig)
  hydrate_models none models = pure models
  hydrate_models (some svc) models = hydrate_each svc net user_id models

  -- The two calls one after the other, as in `Run`, `RunStream`, `RunAgent` and `RunAgentStream`.
  unfoldable pub run_models : Option (ModelService S) → Map ModelConfig → Call S (Map ModelConfig)
  run_models svc models = do chosen ← ensure_user_model svc models; hydrate_models svc chosen
