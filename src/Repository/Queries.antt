-- ===== src/Repository/Queries.antt =====
-- The methods of infra/repository/repo/control/store.go.
use agent_runtime_client.Base.{
  ℕ, ℤ, pos, negsuc, String, Bool, true, false, not, ◌&&◌, ◌||◌, Option, none, some, List, [], ◌∷◌,
  map, eqb, ltb, leb, ◌==◌, if◌then◌else◌,
}
use agent_runtime_client.Protocol.Error.{Error, err, external, reject}
use agent_runtime_client.Protocol.Message.{
  Time, protocol, type_action, type_observation, Action, Observation, RegisteredDevice, TaskSession,
}
use agent_runtime_client.Protocol.Status
use agent_runtime_client.Store.{Store, Call}
use agent_runtime_client.Repository.{
  DeviceRow, TaskRow, ActionRow, ObservationRow, Database, Json, ◌>>=◌, ◌>>◌, pure, lift, millis,
  from_millis,
}

abbrev pub int_le : ℤ → ℤ → Bool
int_le (pos m) (pos n) = leb m n
int_le (pos m) (negsuc n) = false
int_le (negsuc m) (pos n) = true
int_le (negsuc m) (negsuc n) = leb n m

abbrev first {ℓ} : {A : Type ℓ} → List A → Option A
first [] = none
first (x ∷ xs) = some x

abbrev unordered {ℓ} : {A : Type ℓ} → A → A → Bool
unordered a b = false

abbrev pub already_bound : Error
already_bound = external "device is already bound to another user"

-- Whether the status is one of those that the `CASE` of `SaveTask` keeps.
unfoldable pub settled : String → Bool
settled s = s == Status.completed || s == Status.failed || s == Status.cancelled

module _ (json : Json) where
  -- `deviceToEntity`
  unfoldable pub device_to_entity : DeviceRow → RegisteredDevice
  device_to_entity v = record {
    device_id = v.device_id;
    user_id = v.user_id;
    name = v.name;
    platform = v.platform;
    architecture = v.architecture;
    capabilities = json.decode_texts v.capabilities;
    online = v.online;
    connected_at = from_millis v.connected_at;
    last_seen_at = from_millis v.last_seen_at;
  }

  -- `actionToEntity`
  unfoldable pub action_to_entity : ActionRow → Action
  action_to_entity v = record {
    protocol = protocol;
    type = type_action;
    task_id = v.task_id;
    action_id = v.action_id;
    session_id = v.session_id;
    sequence = v.sequence;
    idempotency_key = v.idempotency_key;
    deadline = from_millis v.deadline;
    capability = v.capability;
    arguments = json.decode_object v.arguments;
    policy = record { risk = v.risk; decision = v.decision };
  }

  -- `observationToEntity`
  unfoldable pub observation_to_entity : ObservationRow → Observation
  observation_to_entity v = record {
    protocol = protocol;
    type = type_observation;
    task_id = v.task_id;
    action_id = v.action_id;
    session_id = v.session_id;
    sequence = v.sequence;
    status = v.status;
    observed_at = from_millis v.observed_at;
    state = json.decode_object v.state;
    attachments = [];
    error = v.error;
  }

module _ {D : Type 0} (db : Database D) (json : Json) where
  -- `UpsertDevice`: the user of a device that is there is not among the columns assigned.
  unfoldable pub upsert_device : RegisteredDevice → Call D (Unit {0})
  upsert_device device = do
    capabilities ← lift (json.encode_texts device.capabilities)
    let value : DeviceRow = record {
      device_id = device.device_id;
      user_id = device.user_id;
      name = device.name;
      platform = device.platform;
      architecture = device.architecture;
      capabilities = capabilities;
      online = device.online;
      connected_at = millis device.connected_at;
      last_seen_at = millis device.last_seen_at;
    }
    db.devices.create_or_assign (λ r. r.device_id == value.device_id)
        (λ r. record value { device_id = r.device_id; user_id = r.user_id }) value
    pure tt

  -- `BindDevice`
  unfoldable pub bind_device : String → String → Call D (Unit {0})
  bind_device device_id user_id = do
    affected ←
        db.devices.update
          (λ r. r.device_id == device_id && (r.user_id == "" || r.user_id == user_id))
          (λ r. record r { user_id = user_id })
    lift (reject (eqb affected 0) already_bound)

  -- `SetDeviceOnline`
  unfoldable pub set_device_online : String → Bool → Time → Call D (Unit {0})
  set_device_online device_id online seen_at = do
    db.devices.update (λ r. r.device_id == device_id)
        (λ r. record r { online = online; last_seen_at = millis seen_at })
    pure tt

  -- `MarkAllDevicesOffline`
  unfoldable pub mark_all_devices_offline : Time → Call D (Unit {0})
  mark_all_devices_offline seen_at = do
    db.devices.update (λ r. r.online)
        (λ r. record r { online = false; last_seen_at = millis seen_at })
    pure tt

  found_device : List DeviceRow → Option RegisteredDevice
  found_device [] = none
  found_device (v ∷ vs) = some (device_to_entity json v)

  -- `FindDevice`
  unfoldable pub find_device : String → Call D (Option RegisteredDevice)
  unfolding found_device
  find_device device_id = do
    values ← db.devices.find (λ r. r.device_id == device_id) unordered 1
    pure (found_device values)

  -- The order `online DESC, last_seen_at DESC`.
  abbrev more_recent : DeviceRow → DeviceRow → Bool
  more_recent a b =
      (a.online && not b.online)
      || ((a.online && b.online || not a.online && not b.online)
          && not (int_le a.last_seen_at b.last_seen_at))

  -- `ListDevices`
  unfoldable pub list_devices : String → Call D (List RegisteredDevice)
  list_devices user_id = do
    values ←
        db.devices.find (λ r. user_id == "" || (r.user_id == user_id || r.user_id == ""))
          more_recent 0
    pure (map (device_to_entity json) values)

  abbrev pub read_clock : Call D ℤ
  read_clock d = pure (db.unix_now d) d

  -- The transaction of `SaveTask`. gorm adds `updated_at` to an update that does not name it, for a
  -- field `UpdatedAt` without a tag in seconds.
  unfoldable pub update_task : TaskRow → Call D (Unit {0})
  unfolding settled
  update_task value = do
    db.tasks.update (λ r. r.task_id == value.task_id && int_le r.updated_at value.updated_at)
        (λ r. record r {
          conversation_id = value.conversation_id;
          user_id = value.user_id;
          device_id = value.device_id;
          sequence = value.sequence;
          active_sessions = value.active_sessions;
          metadata = value.metadata;
          updated_at = value.updated_at;
        })
    seconds ← read_clock
    db.tasks.update (λ r. r.task_id == value.task_id)
        (λ r. record r {
          status = if settled r.status then r.status else value.status;
          updated_at = seconds;
        })
    pure tt

  abbrev pub task_row : TaskSession → String → String → TaskRow
  task_row task active metadata = record {
    task_id = task.task_id;
    conversation_id = task.conversation_id;
    user_id = task.user_id;
    device_id = task.device_id;
    status = task.status;
    sequence = task.sequence;
    active_sessions = active;
    metadata = metadata;
    created_at = millis task.created_at;
    updated_at = millis task.updated_at;
  }

  -- `SaveTask` once the columns are encoded.
  unfoldable pub save_row : TaskRow → Call D (Unit {0})
  save_row value = do
    created ← db.tasks.create_or_ignore (λ r. r.task_id == value.task_id) value
    (if ltb 0 created then pure tt else db.transaction (update_task value))

  -- `SaveTask`
  unfoldable pub save_task : TaskSession → Call D (Unit {0})
  save_task task = do
    active ← lift (json.encode_sessions task.active_sessions)
    metadata ← lift (json.encode_metadata task.metadata)
    save_row (task_row task active metadata)

  -- `FindTask` once the row is there.
  unfoldable pub load_task : String → TaskRow → Call D (Option TaskSession)
  load_task task_id v = do
    actions ←
        db.actions.find (λ r. r.task_id == task_id) (λ a b. not (int_le b.sequence a.sequence)) 0
    observations ←
        db.observations.find (λ r. r.task_id == task_id) (λ a b. not (int_le b.sequence a.sequence))
          0
    pure (
        some (record {
          task_id = v.task_id;
          conversation_id = v.conversation_id;
          user_id = v.user_id;
          device_id = v.device_id;
          status = v.status;
          sequence = v.sequence;
          active_sessions = json.decode_sessions v.active_sessions;
          actions = map (action_to_entity json) actions;
          observations = map (observation_to_entity json) observations;
          created_at = from_millis v.created_at;
          updated_at = from_millis v.updated_at;
          metadata = json.decode_metadata v.metadata;
        }))

  -- `FindTask`
  unfoldable pub find_task : String → Call D (Option TaskSession)
  find_task task_id = do
    values ← db.tasks.find (λ r. r.task_id == task_id) unordered 1
    elim (first values) [ none ↦ pure none | some v ↦ load_task task_id v ]

  -- The loop of `ListTasks` over the rows.
  unfoldable pub find_tasks : List TaskRow → Call D (List TaskSession)
  find_tasks [] = pure []
  find_tasks (v ∷ vs) = do
    task ← find_task v.task_id
    rest ← find_tasks vs
    pure (elim task [ none ↦ rest | some t ↦ t ∷ rest ])

  -- The limit of `ListTasks`; 0 stands for every limit that is not positive.
  abbrev pub page : ℕ → ℕ
  page limit = if eqb limit 0 || ltb 200 limit then 50 else limit

  -- `ListTasks`
  unfoldable pub list_tasks : String → String → ℕ → Call D (List TaskSession)
  list_tasks user_id conversation_id limit = do
    values ←
        db.tasks.find
          (λ r.
            r.user_id == user_id && (conversation_id == "" || r.conversation_id == conversation_id))
          (λ a b. not (int_le a.updated_at b.updated_at)) (page limit)
    find_tasks values

  -- `SaveAction`
  unfoldable pub save_action : String → String → Action → Call D (Unit {0})
  save_action device_id user_id action = do
    arguments ← lift (json.encode_object action.arguments)
    let value : ActionRow = record {
      action_id = action.action_id;
      task_id = action.task_id;
      device_id = device_id;
      user_id = user_id;
      session_id = action.session_id;
      sequence = action.sequence;
      idempotency_key = action.idempotency_key;
      deadline = millis action.deadline;
      capability = action.capability;
      arguments = arguments;
      risk = action.policy.risk;
      decision = action.policy.decision;
    }
    db.actions.create_or_ignore
        (λ r. r.action_id == value.action_id || r.idempotency_key == value.idempotency_key) value
    pure tt

  -- `SaveObservation` once the action is there.
  unfoldable pub save_for : Observation → String → ActionRow → Call D (Unit {0})
  save_for o state action = do
    let value : ObservationRow = record {
      action_id = o.action_id;
      task_id = o.task_id;
      idempotency_key = action.idempotency_key;
      session_id = o.session_id;
      sequence = o.sequence;
      status = o.status;
      observed_at = millis o.observed_at;
      state = state;
      error = o.error;
    }
    db.observations.create_or_assign (λ r. r.action_id == value.action_id)
        (λ r. record r {
          status = value.status;
          observed_at = value.observed_at;
          state = value.state;
          error = value.error;
        })
        value
    pure tt

  -- `SaveObservation`
  unfoldable pub save_observation : Observation → Call D (Unit {0})
  save_observation o = do
    state ← lift (json.encode_object o.state)
    actions ← db.actions.find (λ r. r.action_id == o.action_id) unordered 1
    elim (first actions) [
      | none ↦ lift (err (external "action is not registered"))
      | some action ↦ save_for o state action
    ]

  -- `FindObservationByIdempotency`
  unfoldable pub find_observation_by_idempotency : String → Call D (Option Observation)
  find_observation_by_idempotency key = do
    values ← db.observations.find (λ r. r.idempotency_key == key) unordered 1
    pure (elim (first values) [ none ↦ none | some v ↦ some (observation_to_entity json v) ])

  -- The repository of the hub.
  unfoldable pub control_store : Store D
  control_store = record {
    upsert_device = upsert_device;
    bind_device = bind_device;
    set_device_online = set_device_online;
    mark_all_devices_offline = mark_all_devices_offline;
    find_device = find_device;
    list_devices = list_devices;
    save_task = save_task;
    find_task = find_task;
    list_tasks = list_tasks;
    save_action = save_action;
    save_observation = save_observation;
    find_observation_by_idempotency = find_observation_by_idempotency;
  }
