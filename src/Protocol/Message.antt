-- ===== src/Protocol/Message.antt =====
-- The constants and message types of domain/entity/control/protocol.go.
-- A time is the number of nanoseconds since Go's zero time, which `zero_time` stands for.
-- The value of a JSON member is opaque text; a `map[string]any` that may be nil is an option.
use agent_runtime_client.Base.{ℕ, ℤ, String, Bool, Option, none, some, List, [], Map}

abbrev pub Time : Type 0
Time = ℕ

abbrev pub zero_time : Time
zero_time = 0

abbrev pub Object : Type 0
Object = Option (Map String)

abbrev pub protocol : String
protocol = "athena.agent.v3"

abbrev pub attachment_encoding_base64 : String
attachment_encoding_base64 = "base64"

-- `4 << 20`
abbrev pub max_attachment_bytes : ℕ
max_attachment_bytes = 4194304

abbrev pub max_observation_attachments : ℕ
max_observation_attachments = 2

abbrev pub type_action : String
type_action = "ACTION"

abbrev pub type_observation : String
type_observation = "OBSERVATION"

abbrev pub type_progress : String
type_progress = "PROGRESS"

abbrev pub type_cancel : String
type_cancel = "CANCEL"

abbrev pub risk_low : String
risk_low = "LOW"

abbrev pub risk_medium : String
risk_medium = "MEDIUM"

abbrev pub risk_high : String
risk_high = "HIGH"

abbrev pub allow : String
allow = "ALLOW"

abbrev pub ask_user : String
ask_user = "ASK_USER"

abbrev pub block : String
block = "BLOCK"

pub record Policy : Type 0 where
  pub risk : String
  pub decision : String

pub record Attachment : Type 0 where
  pub id : String
  pub kind : String
  pub mime_type : String
  pub size : ℤ
  pub sha256 : String
  pub encoding : String
  pub payload : String
  pub purpose : String
  pub detail : String

pub record Action : Type 0 where
  pub protocol : String
  pub type : String
  pub task_id : String
  pub action_id : String
  pub session_id : String
  pub sequence : ℤ
  pub idempotency_key : String
  pub deadline : Time
  pub capability : String
  pub arguments : Object
  pub policy : Policy

pub record Observation : Type 0 where
  pub protocol : String
  pub type : String
  pub task_id : String
  pub action_id : String
  pub session_id : String
  pub sequence : ℤ
  pub status : String
  pub observed_at : Time
  pub state : Object
  pub attachments : List Attachment
  pub error : String

pub record Progress : Type 0 where
  pub protocol : String
  pub type : String
  pub task_id : String
  pub action_id : String
  pub session_id : String
  pub sequence : ℤ
  pub capability : String
  pub stage : String
  pub message : String
  pub progress : ℤ
  pub bytes : ℤ
  pub total : ℤ
  pub state : Object
  pub sent_at : Time

pub record Cancel : Type 0 where
  pub protocol : String
  pub type : String
  pub task_id : String
  pub action_id : String
  pub sequence : ℤ
  pub reason : String

pub record DeviceMessage : Type 0 where
  pub protocol : String
  pub type : String
  pub device_id : String
  pub name : String
  pub platform : String
  pub architecture : String
  pub capabilities : List String
  pub sent_at : Time

pub record RegisteredDevice : Type 0 where
  pub device_id : String
  pub user_id : String
  pub name : String
  pub platform : String
  pub architecture : String
  pub capabilities : List String
  pub online : Bool
  pub connected_at : Time
  pub last_seen_at : Time

-- What a task's metadata holds: text read from the store, or the latest progress message.
pub data Metadatum : Type 0 where
  text : String → Metadatum
  latest : Progress → Metadatum

pub record TaskSession : Type 0 where
  pub task_id : String
  pub conversation_id : String
  pub user_id : String
  pub device_id : String
  pub status : String
  pub sequence : ℤ
  pub active_sessions : Option (Map String)
  pub actions : List Action
  pub observations : List Observation
  pub created_at : Time
  pub updated_at : Time
  pub metadata : Option (Map Metadatum)

-- `Action.Normalize`
unfoldable pub normalize : Action → Action
normalize a = elim a.arguments [ none ↦ record a { arguments = some [] } | some _ ↦ a ]

-- `NewCancel`
unfoldable pub new_cancel : Action → String → Cancel
new_cancel a reason = record {
  protocol = protocol;
  type = type_cancel;
  task_id = a.task_id;
  action_id = a.action_id;
  sequence = a.sequence;
  reason = reason;
}
