-- ===== src/Tests/Data.antt =====
-- Small inputs for the control plane, and parameters that are concrete functions.
use agent_runtime_client.Base.{true, none, some, [], ◌∷◌, pos}
use agent_runtime_client.Protocol.Error.{ok}
use agent_runtime_client.Protocol.Message.{
  Attachment, Action, Observation, Progress, DeviceMessage, TaskSession,
}
use agent_runtime_client.Protocol.Validate.{Codec}
use agent_runtime_client.Protocol.Status
use agent_runtime_client.Store.{Store}
use agent_runtime_client.Hub.State.{Device, Hub}

-- A repository that finds nothing and accepts everything.
instance abbrev pub idle_store : Store (Unit {0})
idle_store = record {
  upsert_device = λ d s. (ok tt, s);
  bind_device = λ d u s. (ok tt, s);
  set_device_online = λ d o t s. (ok tt, s);
  mark_all_devices_offline = λ t s. (ok tt, s);
  find_device = λ d s. (ok none, s);
  list_devices = λ u s. (ok [], s);
  save_task = λ t s. (ok tt, s);
  find_task = λ t s. (ok none, s);
  list_tasks = λ u c l s. (ok [], s);
  save_action = λ d u a s. (ok tt, s);
  save_observation = λ o s. (ok tt, s);
  find_observation_by_idempotency = λ k s. (ok none, s);
}

-- Every payload has the same digest.
abbrev pub one_digest : Codec
one_digest = record { sha256_hex = λ bytes. "ab" }

abbrev pub click : Action
click = record {
  protocol = "athena.agent.v3";
  type = "ACTION";
  task_id = "t1";
  action_id = "a1";
  session_id = "";
  sequence = pos 1;
  idempotency_key = "k1";
  deadline = 100;
  capability = "browser.click";
  arguments = some [];
  policy = record { risk = "LOW"; decision = "ALLOW" };
}

abbrev pub clicked : Observation
clicked = record {
  protocol = "athena.agent.v3";
  type = "OBSERVATION";
  task_id = "t1";
  action_id = "a1";
  session_id = "browser-1";
  sequence = pos 1;
  status = "SUCCEEDED";
  observed_at = 20;
  state = none;
  attachments = [];
  error = "";
}

abbrev pub half_way : Progress
half_way = record {
  protocol = "athena.agent.v3";
  type = "PROGRESS";
  task_id = "t1";
  action_id = "a1";
  session_id = "";
  sequence = pos 1;
  capability = "browser.click";
  stage = "";
  message = "";
  progress = pos 50;
  bytes = pos 0;
  total = pos 0;
  state = none;
  sent_at = 15;
}

abbrev pub screenshot : Attachment
screenshot = record {
  id = "s1";
  kind = "image";
  mime_type = "image/png";
  size = pos 1;
  sha256 = "AB";
  encoding = "base64";
  payload = "Bw==";
  purpose = "";
  detail = "";
}

abbrev pub hello : DeviceMessage
hello = record {
  protocol = "athena.agent.v3";
  type = "HELLO";
  device_id = "d1";
  name = "laptop";
  platform = "linux";
  architecture = "amd64";
  capabilities = "browser.click" ∷ [];
  sent_at = 5;
}

abbrev pub laptop : Device
laptop = record {
  id = "d1";
  user_id = "";
  name = "laptop";
  platform = "linux";
  architecture = "amd64";
  capabilities = "browser.click" ∷ [];
  connected_at = 5;
  last_seen_at = 5;
  online = true;
  conn = 1;
}

abbrev pub running : TaskSession
running = record {
  task_id = "t1";
  conversation_id = "c1";
  user_id = "u1";
  device_id = "d1";
  status = Status.executing;
  sequence = pos 1;
  active_sessions = some [];
  actions = [];
  observations = [];
  created_at = 5;
  updated_at = 5;
  metadata = none;
}

-- A hub with one device and one task.
abbrev pub small_hub : Hub (Unit {0})
small_hub = record {
  devices = ("d1", laptop) ∷ [];
  pending = [];
  completed = [];
  sessions = ("t1", running) ∷ [];
  active = [];
  store = some tt;
  sent = [];
  closed = [];
  reachable = λ conn. true;
}
