-- ===== src/Runtime/Values.antt =====
-- The records of domain/entity/runtime, domain/entity/model and domain/entity/agent that the run service
-- works with. A float64 is opaque, and so is a JSON value that the service never looks into.
use agent_runtime_client.Base.{
  ℕ, ℤ, String, Bool, Option, none, some, List, Map, lookup, trim_space, ◌==◌, if◌then◌else◌,
}
use agent_runtime_client.Protocol.Message.{Time, Object}

abbrev pub Float : Type 0
Float = String

-- What `observationContext` tells of an attachment: everything but the payload, and whether there is one.
pub record AttachmentContext : Type 0 where
  pub id : String
  pub kind : String
  pub mime_type : String
  pub size : ℤ
  pub sha256 : String
  pub purpose : String
  pub detail : String
  pub model_input : Bool

pub record ObservationContext : Type 0 where
  pub protocol : String
  pub type : String
  pub task_id : String
  pub action_id : String
  pub session_id : String
  pub sequence : ℤ
  pub status : String
  pub observed_at : Time
  pub state : Object
  pub attachments : List AttachmentContext
  pub error : String

pub record ActionContext : Type 0 where
  pub protocol : String
  pub type : String
  pub task_id : String
  pub action_id : String
  pub session_id : String
  pub sequence : ℤ
  pub capability : String
  pub arguments : Object
  pub deadline : Time
  pub risk : String
  pub decision : String

-- An entry of a `[]any`: one that the service added, or one that came with the request.
pub data Entry : Type 0 where
  added : ObservationContext → Entry
  given : String → Entry

-- A value of a `map[string]any`, by the types that the service tells apart.
pub data Value : Type 0 where
  text : String → Value
  flag : Bool → Value
  entries : List Entry → Value
  action : ActionContext → Value
  observation : ObservationContext → Value
  other : String → Value

-- `value, _ := values[key].(string)`, trimmed. A nil map has no keys.
unfoldable pub text_value : Option Value → String
text_value none = ""
text_value (some (text s)) = trim_space s
text_value (some (flag b)) = ""
text_value (some (entries es)) = ""
text_value (some (action a)) = ""
text_value (some (observation o)) = ""
text_value (some (other s)) = ""

-- `runtimeContextString`, and `contextString` of the chat recorder.
unfoldable pub runtime_context_string : Map Value → String → String
runtime_context_string values key = text_value (lookup key values)

pub record ModelConfig : Type 0 where
  pub provider : String
  pub name : String
  pub api_key : String
  pub api_base : String
  pub temperature : Float
  pub max_tokens : ℤ
  pub top_p : Float
  pub extra_fields : Option (Map Value)

pub record SysModel : Type 0 where
  pub ulid : String
  pub created_at : ℤ
  pub updated_at : ℤ
  pub deleted_at : ℤ
  pub created_by : String
  pub updated_by : String
  pub name : String
  pub provider : String
  pub base_url : String
  pub key_id : String
  pub model_type : String
  pub category : String
  pub status : String
  pub latency : String
  pub context_window : String
  pub capabilities : String
  pub usage : ℤ
  pub enabled : Bool
  pub runtime_mode : String

pub record SysModelKey : Type 0 where
  pub ulid : String
  pub created_at : ℤ
  pub updated_at : ℤ
  pub deleted_at : ℤ
  pub user_id : String
  pub name : String
  pub provider : String
  pub api_key : String
  pub base_url : String
  pub enabled : Bool

-- `modelEntity`
pub record ModelEntity : Type 0 where
  pub id : String
  pub provider : String
  pub name : String
  pub base_url : String
  pub api_key : String
  pub runtime_mode : String
  pub capabilities : String

pub record SysAgent : Type 0 where
  pub ulid : String
  pub created_at : ℤ
  pub updated_at : ℤ
  pub deleted_at : ℤ
  pub created_by : String
  pub updated_by : String
  pub name : String
  pub description : String
  pub icon : String
  pub model : String
  pub embedding_model : String
  pub image_model : String
  pub video_model : String
  pub config : String
  pub config_json : String
  pub is_system : Bool
  pub enabled : Bool
  pub channels : String
  pub is_periodic : Bool
  pub cron_rule : String

pub record SysAgentUserModel : Type 0 where
  pub ulid : String
  pub created_at : ℤ
  pub updated_at : ℤ
  pub user_id : String
  pub agent_id : String
  pub model : String
  pub embedding_model : String
  pub image_model : String
  pub video_model : String

-- `firstNonEmpty`
unfoldable pub first_non_empty : String → String → String
first_non_empty current fallback = if trim_space current == "" then fallback else current

-- A record that the service only passes on.
abbrev pub Opaque : Type 0
Opaque = String

pub record SubAgentConfig : Type 0 where
  pub id : String
  pub name : String
  pub description : String
  pub prompt : String
  pub model : Option ModelConfig
  pub capabilities : List Opaque
  pub skills : List Opaque
  pub max_iterations : ℤ
  pub timeout_ms : ℤ
  pub extra : Option (Map Value)

pub record RunOptions : Type 0 where
  pub temperature : Float
  pub max_tokens : ℤ
  pub stream : Bool
  pub top_p : Float
  pub stop : List String
  pub timeout_ms : ℤ
  pub max_iterations : ℤ
  pub max_tool_calls : ℤ
  pub max_a2a_calls : ℤ
  pub max_total_tokens : ℤ
  pub retry : Option Opaque
  pub response_schema : Option Opaque
  pub routing : Option Opaque
  pub approval_policy : Option Opaque
  pub checkpoint_id : String

pub record VisualInput : Type 0 where
  pub id : String
  pub mime_type : String
  pub bytes : List ℕ
  pub sha256 : String
  pub purpose : String
  pub detail : String

pub record RunInput : Type 0 where
  pub prompt : String
  pub models : Map ModelConfig
  pub messages : List Opaque
  pub context : Map Value
  pub knowledge_bases : List Opaque
  pub skills : List Opaque
  pub mcps : List Opaque
  pub clis : List Opaque
  pub a2a : List Opaque
  pub capabilities : List Opaque
  pub internal_agents : List Opaque
  pub sub_agents : List SubAgentConfig
  pub options : Option RunOptions
  pub sandbox : Option Opaque
  pub files : List Opaque
  pub visual_inputs : List VisualInput
  pub request_id : String
  pub trace_id : String

-- `storedAgentConfig`
pub record StoredAgentConfig : Type 0 where
  pub system_prompt : String
  pub system_prompt_ui : String
  pub models : Map ModelConfig
  pub context : Map Value
  pub knowledge_bases : List Opaque
  pub knowledge : List Opaque
  pub skills : List Opaque
  pub mcps : List Opaque
  pub clis : List Opaque
  pub a2a : List Opaque
  pub capabilities : List Opaque
  pub internal_agents : List Opaque
  pub sub_agents : List SubAgentConfig
  pub options : Option RunOptions
  pub sandbox : Option Opaque

pub record AgentInput : Type 0 where
  pub task : String
  pub context : Map Value
  pub models : Map ModelConfig
  pub capabilities : List Opaque
  pub visual_inputs : List VisualInput
  pub stream : Bool
  pub request_id : String
  pub trace_id : String
