-- ===== src/Runtime/Models/Ownership.antt =====
-- Whose models and keys the run service of application/service/runtime/service.go resolves.
use agent_runtime_client.Base.{
  pos, int_eq, String, true, false, ◌&&◌, some, List, ◌∷◌, ◌≡◌, ◌==◌, trim_space,
}
use agent_runtime_client.Protocol.Error.{ok}
use agent_runtime_client.Catalogue.Query.{Query}
use agent_runtime_client.Runtime.Values.{SysModel, SysModelKey, ModelEntity}
use agent_runtime_client.Runtime.Models.{
  ModelService, Net, off, requires_api_key, normalize_runtime_mode, validate_runtime_model_type,
}

module _ {S : Type 0} (svc : ModelService S) (net : Net) (user_id : String) where
  -- Where the key of a resolved model comes from: there is none and the endpoint needs none, or it is a
  -- stored key of the user's that is enabled and not deleted.
  pub data Credential (model : SysModel) (m : ModelEntity) : Type 0 where
    keyless :
        model.key_id ≡ ""
        → requires_api_key net model.provider model.base_url ≡ false
        → m.api_key ≡ ""
        → Credential model m
    keyed :
        (key : SysModelKey) (st : S)
        → (svc.find_key_by_id model.key_id st).0 ≡ ok (some key)
        → key.user_id ≡ user_id
        → int_eq key.deleted_at (pos 0) ≡ true
        → key.enabled ≡ true
        → m.api_key ≡ key.api_key
        → (trim_space m.api_key == "" && requires_api_key net m.provider m.base_url) ≡ false
        → Credential model m

  -- The model service has returned this model.
  pub data Stored (model : SysModel) : Type 0 where
    by_id : (id : String) (st : S) → (svc.find_by_id id st).0 ≡ ok (some model) → Stored model
    by_name :
        (qs : List Query) (st : S) (rest : List SysModel)
        → (svc.find_all qs st).0 ≡ ok (model ∷ rest)
        → Stored model

  pub record Resolved (expected : String) (m : ModelEntity) : Type 0 where
    pub model : SysModel
    pub stored : Stored model
    pub id : m.id ≡ model.ulid
    pub owner : model.created_by ≡ user_id
    pub live : int_eq model.deleted_at (pos 0) ≡ true
    pub enabled : model.enabled ≡ true
    pub fits : validate_runtime_model_type model.model_type expected model.capabilities ≡ ok tt
    pub running : (normalize_runtime_mode model.runtime_mode == off) ≡ false
    pub credential : Credential model m

  -- What `resolveStoredModel` ensures of the model that it is given.
  record Usable (model : SysModel) (m : ModelEntity) : Type 0 where
    same : m.id ≡ model.ulid
    on : (normalize_runtime_mode model.runtime_mode == off) ≡ false
    key : Credential model m
