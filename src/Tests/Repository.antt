-- ===== src/Tests/Repository.antt =====
-- The repository of infra/repository/repo/control/store.go over a database of lists.
use agent_runtime_client.Base.{
  ◌+◌, ◌-◌, ◌%◌, ◌^◌, pos, true, ◌&&◌, none, some, List, [], ◌∷◌, ◌≡◌, refl, any, ◌==◌,
  if◌then◌else◌, arith,
}
use agent_runtime_client.Protocol.Error.{ok}
use agent_runtime_client.Repository.{
  DeviceRow, TaskRow, ActionRow, ObservationRow, Database, Json, unix_epoch, millis, from_millis,
  next,
}
use agent_runtime_client.Repository.Queries.{bind_device}
use agent_runtime_client.Repository.Claiming.{claimable, claimed, device_at, bind_device-claimed}
use agent_runtime_client.Repository.Times.{from_millis-millis}
use agent_runtime_client.Tests.Tables.{table, lawful}

pub record Memory : Type 0 where
  pub devices : List DeviceRow
  pub tasks : List TaskRow
  pub actions : List ActionRow
  pub observations : List ObservationRow

abbrev pub memory : Database Memory
memory = record {
  devices = table (λ d. d.devices) (λ rows d. record d { devices = rows });
  tasks = table (λ d. d.tasks) (λ rows d. record d { tasks = rows });
  actions = table (λ d. d.actions) (λ rows d. record d { actions = rows });
  observations = table (λ d. d.observations) (λ rows d. record d { observations = rows });
  transaction = λ m d. m d;
  unix_now = λ d. pos 62;
}

-- Every text is its own encoding.
abbrev pub plain : Json
plain = record {
  encode_texts = λ ts. ok "[]";
  decode_texts = λ s. [];
  encode_sessions = λ m. ok "{}";
  decode_sessions = λ s. some [];
  encode_metadata = λ m. ok "{}";
  decode_metadata = λ s. some [];
  encode_object = λ o. ok "{}";
  decode_object = λ s. none;
}

abbrev pub done_row : TaskRow
done_row = record {
  task_id = "t1";
  conversation_id = "c1";
  user_id = "u1";
  device_id = "d1";
  status = "COMPLETED";
  sequence = pos 1;
  active_sessions = "{}";
  metadata = "{}";
  created_at = pos 0;
  updated_at = pos 0;
}

abbrev free_row : DeviceRow
free_row = record {
  device_id = "d1";
  user_id = "";
  name = "laptop";
  platform = "linux";
  architecture = "amd64";
  capabilities = "[]";
  online = true;
  connected_at = pos 5;
  last_seen_at = pos 5;
}

abbrev filled : Memory
filled = record { devices = free_row ∷ []; tasks = done_row ∷ []; actions = []; observations = [] }

bind_device-binds : (bind_device memory plain "d1" "u1" filled).0 ≡ ok tt
unfolding bind_device next
bind_device-binds = refl

bind_device-claimed_example :
    (any (λ r. r.device_id == "d1" && claimable "u1" r) (memory.devices.rows filled) ≡ true)
    × (device_at "d1" (memory.devices.rows (bind_device memory plain "d1" "u1" filled).1) ≡ (
        if "d1" == "d1"
        then claimed "u1" (device_at "d1" (memory.devices.rows filled))
        else device_at "d1" (memory.devices.rows filled)))
bind_device-claimed_example =
    bind_device-claimed memory plain "d1" "u1" "d1" filled
      (lawful (λ d. d.devices) (λ rows d. record d { devices = rows }) (λ rows d. refl))
      bind_device-binds

from_millis-millis_example :
    from_millis (millis (unix_epoch + 1234567))
    ≡ unix_epoch + 1234567 - (unix_epoch + 1234567 - unix_epoch) % 10 ^ 6
from_millis-millis_example = from_millis-millis (unix_epoch + 1234567) (omega arith)
