-- ===== src/Runtime/Models.antt =====
-- Which model a run may use: `resolveModel`, `resolveStoredModel` and their callers in
-- application/service/runtime/service.go, with `RequiresAPIKey` of domain/entity/model/auth.go.
-- The model service is a parameter, as are `url.Parse` and `net.ParseIP`.
pub mod Ownership
use Prim.Native.Char.{code}
use Prim.Native.String
use Prim.Native.String.{◌++◌}
use agent_runtime_client.Base.{
  ℤ, pos, int_eq, String, Bool, true, false, not, ◌&&◌, ◌||◌, Option, none, some, List, [], ◌∷◌,
  Map, lookup, put, ◌==◌, eqb, any, if◌then◌else◌, split, trim_space, to_lower, equal_fold,
  has_suffix, mentions,
}
use agent_runtime_client.Protocol.Error.{
  Error, Result, ok, err, reject, api, bad_request, forbidden, model_binding_required,
}
use agent_runtime_client.Store.{Call, next, ◌>>=◌, ◌>>◌, pure, lift}
use agent_runtime_client.Catalogue.Query.{number, word, truth, one, op_eq, Query}
use agent_runtime_client.Runtime.Values.{
  Value, text, text_value, ModelConfig, SysModel, SysModelKey, ModelEntity, first_non_empty,
}

pub record ModelService (S : Type 0) : Type 0 where
  pub find_by_id : String → Call S (Option SysModel)
  pub find_all : List Query → Call S (List SysModel)
  pub find_key_by_id : String → Call S (Option SysModelKey)

-- What `net.ParseIP` tells of an address: whether it is loopback, private, link-local or unspecified.
-- `hostname` is `url.Parse(raw).Hostname()`, or "" for a text that is no URL.
pub record Net : Type 0 where
  pub hostname : String → String
  pub local_address : String → Bool

-- Text without spaces, dashes, underscores and dots.
squeezed : String → String
squeezed String.[] = ""
squeezed (String.◌∷◌ c s) =
    let rest = squeezed s in
    if eqb (code c) b' ' || eqb (code c) b'-' || eqb (code c) b'_' || eqb (code c) b'.'
    then rest
    else String.◌∷◌ c rest

-- The providers of the `switch` of `RequiresAPIKey`.
abbrev local_providers : List String
local_providers =
    "ollama" ∷ "lmstudio" ∷ "localai" ∷ "vllm" ∷ "llamacpp" ∷ "xinference" ∷ "tgi"
    ∷ "textgenerationinference" ∷ "llamafile" ∷ "textgenerationwebui" ∷ "diffusers" ∷ "comfyui" ∷ []

-- `endpointHost`
unfoldable pub endpoint_host : Net → String → String
endpoint_host net raw =
    let trimmed = trim_space raw in
    if trimmed == ""
    then ""
    else net.hostname (if mentions "://" trimmed then trimmed else "http://" ++ trimmed)

-- `RequiresAPIKey`
unfoldable pub requires_api_key : Net → String → String → Bool
unfolding squeezed endpoint_host
requires_api_key net provider base_url =
    let host = endpoint_host net base_url in
    let lower_host = to_lower host in
    if any (λ p. to_lower (squeezed provider) == p) local_providers
    then false
    else if host == ""
    then true
    else if lower_host == "localhost"
        || lower_host == "host.docker.internal"
        || has_suffix lower_host ".localhost"
        || has_suffix lower_host ".local"
    then false
    else if not (mentions "." lower_host) && not (mentions ":" lower_host)
    then false
    else not (net.local_address host)

abbrev pub on_demand : String
on_demand = "on_demand"

abbrev pub off : String
off = "off"

-- `NormalizeRuntimeMode`
unfoldable pub normalize_runtime_mode : String → String
normalize_runtime_mode value =
    let mode = to_lower (trim_space value) in if mode == "" then on_demand else mode

-- `supportsMediaCapability`
unfoldable pub supports_media_capability : String → String → Bool → Bool
supports_media_capability capabilities media_type has_source =
    let wanted = if has_source then "image-to-" ++ media_type else "text-to-" ++ media_type in
    if trim_space capabilities == ""
    then not has_source && (media_type == "image" || media_type == "video")
    else any
        (λ capability.
          equal_fold (trim_space capability) wanted
          || (media_type == "image"
              && has_source
              && equal_fold (trim_space capability) "image-edit"))
        (split (λ c. eqb c b',') capabilities)

wrong_type : String → String
wrong_type expected =
    if equal_fold expected "embedding"
    then "Agent 的 Embedding 角色只能使用 Embedding 模型"
    else if equal_fold expected "image"
    then "Agent 的图片生成角色只能使用 Image 模型"
    else if equal_fold expected "video"
    then "Agent 的视频生成角色只能使用 Video 模型"
    else "Agent 只能使用 LLM 模型"

-- `validateRuntimeModelType`
unfoldable pub validate_runtime_model_type : String → String → String → Result (Unit {0})
unfolding wrong_type
validate_runtime_model_type actual expected capabilities =
    if equal_fold actual expected
    then ok tt
    else if (equal_fold expected "image" || equal_fold expected "video")
        && supports_media_capability capabilities expected false
    then ok tt
    else err (api bad_request (wrong_type expected))

-- `modelTypeForRole`
unfoldable pub model_type_for_role : String → String
model_type_for_role role =
    if equal_fold (trim_space role) "embedding"
    then "embedding"
    else if equal_fold (trim_space role) "image"
    then "image"
    else if equal_fold (trim_space role) "video"
    then "video"
    else "llm"

-- `modelID`
unfoldable pub model_id : ModelConfig → String
model_id cfg = elim cfg.extra_fields [
  | none ↦ ""
  | some fields ↦
      let first = text_value (lookup "model_id" fields) in
      let second = text_value (lookup "ulid" fields) in
      if not (first == "")
      then first
      else if not (second == "")
      then second
      else text_value (lookup "id" fields)
]

module _ {S : Type 0} (svc : ModelService S) (net : Net) where
  -- `resolveStoredModel` for a model without a key.
  unfoldable pub resolve_keyless : SysModel → Result ModelEntity
  resolve_keyless model =
      if requires_api_key net model.provider model.base_url
      then err (api model_binding_required "远程模型尚未绑定 Key")
      else ok (record {
        id = model.ulid;
        provider = model.provider;
        name = model.name;
        base_url = model.base_url;
        api_key = "";
        runtime_mode = normalize_runtime_mode model.runtime_mode;
        capabilities = model.capabilities;
      })

  -- `resolveStoredModel` with the key that the model service found, or not.
  unfoldable pub resolve_keyed : String → SysModel → Option SysModelKey → Result ModelEntity
  resolve_keyed user_id model none = err (api model_binding_required "模型绑定的 Key 不存在或已停用")
  resolve_keyed user_id model (some key) =
      let base_url = first_non_empty model.base_url key.base_url in
      if key.ulid == "" || not (int_eq key.deleted_at (pos 0)) || not key.enabled
      then err (api model_binding_required "模型绑定的 Key 不存在或已停用")
      else if not (key.user_id == user_id)
      then err (api forbidden "只能使用自己的模型 Key")
      else if trim_space key.api_key == "" && requires_api_key net model.provider base_url
      then err (api model_binding_required "模型 Key 尚未设置")
      else ok (record {
        id = model.ulid;
        provider = model.provider;
        name = model.name;
        base_url = base_url;
        api_key = key.api_key;
        runtime_mode = normalize_runtime_mode model.runtime_mode;
        capabilities = model.capabilities;
      })

  -- `resolveStoredModel` once the mode is known to be on.
  unfoldable pub resolve_credential : SysModel → String → Call S ModelEntity
  resolve_credential model user_id st =
      if model.key_id == ""
      then (resolve_keyless model, st)
      else (do key ← svc.find_key_by_id model.key_id; lift (resolve_keyed user_id model key)) st

  -- `resolveStoredModel`
  unfoldable pub resolve_stored_model : SysModel → String → Call S ModelEntity
  resolve_stored_model model user_id st =
      if normalize_runtime_mode model.runtime_mode == off
      then (err (api forbidden "当前本地模型已被管理员关闭"), st)
      else resolve_credential model user_id st

  -- `resolveModel` once a model is chosen.
  unfoldable pub resolve_chosen : String → String → SysModel → Call S (Option ModelEntity)
  resolve_chosen user_id expected m = do
    lift (validate_runtime_model_type m.model_type expected m.capabilities)
    e ← resolve_stored_model m user_id
    pure (some e)

  -- `resolveModel` with a model of the user's.
  unfoldable pub resolve_own : String → String → SysModel → Call S (Option ModelEntity)
  resolve_own user_id expected m st =
      if not m.enabled
      then (err (api forbidden "当前模型已被管理员停用"), st)
      else resolve_chosen user_id expected m st

  -- `resolveModel` with the model that the identifier names, or nil.
  unfoldable pub resolve_found : String → String → Option SysModel → Call S (Option ModelEntity)
  resolve_found user_id expected none st = (err (api forbidden "只能使用自己绑定的模型"), st)
  resolve_found user_id expected (some m) st =
      if not (int_eq m.deleted_at (pos 0)) || not (m.created_by == user_id)
      then (err (api forbidden "只能使用自己绑定的模型"), st)
      else resolve_own user_id expected m st

  -- The filters of `resolveModel` by name.
  abbrev pub name_queries : String → String → String → List Query
  name_queries user_id name provider =
      record { key = "deleted_at"; operator = op_eq; value = one (number (pos 0)) }
      ∷ record { key = "name"; operator = op_eq; value = one (word name) }
      ∷ record { key = "created_by"; operator = op_eq; value = one (word user_id) }
      ∷ record { key = "enabled"; operator = op_eq; value = one (truth true) }
      ∷ (if provider == ""
          then []
          else record { key = "provider"; operator = op_eq; value = one (word provider) } ∷ [])

  -- The first of the models that the filters let through.
  unfoldable pub resolve_listed : String → String → List SysModel → Call S (Option ModelEntity)
  resolve_listed user_id expected [] = pure none
  resolve_listed user_id expected (m ∷ rest) = resolve_chosen user_id expected m

  -- `resolveModel`
  unfoldable pub resolve_model : String → ModelConfig → String → Call S (Option ModelEntity)
  resolve_model user_id cfg expected =
      let id = model_id cfg in
      let name = trim_space cfg.name in
      if not (id == "")
      then (do m ← svc.find_by_id id; resolve_found user_id expected m)
      else if name == ""
      then pure none
      else (do
        ms ← svc.find_all (name_queries user_id name (trim_space cfg.provider))
        resolve_listed user_id expected ms)
