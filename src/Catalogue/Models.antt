-- ===== src/Catalogue/Models.antt =====
-- The reads of infra/repository/repo/model/sys_model_impl.go that domain/srv/model/sys_model_svc.go passes on.
-- The conversion of a row copies its fields, so that a row is an entity here.
use agent_runtime_client.Base.{pos, String, false, Option, some, List, [], ◌∷◌, map}
use agent_runtime_client.Store.{Call, ◌>>=◌, pure, lift}
use agent_runtime_client.Runtime.Values.{SysModel, SysModelKey}
use agent_runtime_client.Runtime.Models.{ModelService}
use agent_runtime_client.Catalogue.Query.{Operand, Query, build_where}

-- The statements: `select_models where values order` is a `SELECT` with the text of a WHERE, for the empty text
-- without one; the other two take one row of an identifier at most.
pub record ModelDatabase (D : Type 0) : Type 0 where
  pub select_models : String → List Operand → String → Call D (List SysModel)
  pub models_by_ulid : String → Call D (List SysModel)
  pub keys_by_ulid : String → Call D (List SysModelKey)

-- What `Find` leaves in a row when nothing is found.
abbrev pub no_model : SysModel
no_model = record {
  ulid = "";
  created_at = pos 0;
  updated_at = pos 0;
  deleted_at = pos 0;
  created_by = "";
  updated_by = "";
  name = "";
  provider = "";
  base_url = "";
  key_id = "";
  model_type = "";
  category = "";
  status = "";
  latency = "";
  context_window = "";
  capabilities = "";
  usage = pos 0;
  enabled = false;
  runtime_mode = "";
}

abbrev pub no_key : SysModelKey
no_key = record {
  ulid = "";
  created_at = pos 0;
  updated_at = pos 0;
  deleted_at = pos 0;
  user_id = "";
  name = "";
  provider = "";
  api_key = "";
  base_url = "";
  enabled = false;
}

abbrev pub first_or {ℓ} : {A : Type ℓ} → A → List A → A
first_or zero_value [] = zero_value
first_or zero_value (x ∷ xs) = x

module _ {D : Type 0} (db : ModelDatabase D) where
  -- `FindById`, which never returns nil.
  unfoldable pub find_by_id : String → Call D (Option SysModel)
  find_by_id id = do rows ← db.models_by_ulid id; pure (some (first_or no_model rows))

  -- `FindKeyByID`
  unfoldable pub find_key_by_id : String → Call D (Option SysModelKey)
  find_key_by_id id = do rows ← db.keys_by_ulid id; pure (some (first_or no_key rows))

  module _ (shown : Operand → String) where
    -- `FindAll`
    unfoldable pub find_all : List Query → Call D (List SysModel)
    find_all queries = do
      where_values ← lift (build_where shown (map (λ q. some q) queries))
      db.select_models where_values.0 where_values.1 "ulid desc"

    -- The service that a run resolves its models with.
    abbrev pub model_service : ModelService D
    model_service = record {
      find_by_id = find_by_id;
      find_all = find_all;
      find_key_by_id = find_key_by_id;
    }
