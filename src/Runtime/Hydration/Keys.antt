-- ===== src/Runtime/Hydration/Keys.antt =====
-- The keys of the models that application/service/runtime/service.go sends to the runtime.
use agent_runtime_client.Base.{String, ◌≡◌}
use agent_runtime_client.Runtime.Values.{ModelConfig, ModelEntity}
use agent_runtime_client.Runtime.Models.{ModelService, Net, model_type_for_role}
use agent_runtime_client.Runtime.Models.Ownership.{Resolved}

module _ {S : Type 0} (svc : ModelService S) (net : Net) (user_id : String) where
  -- A configuration whose key is that of a model which the user may use for the role.
  abbrev pub Keyed : String → ModelConfig → Type 0
  Keyed expected cfg =
      (m : ModelEntity) × (Resolved svc net user_id expected m × (cfg.api_key ≡ m.api_key))

  abbrev pub RoleKeyed : String × ModelConfig → Type 0
  RoleKeyed e = Keyed (model_type_for_role e.0) e.1
