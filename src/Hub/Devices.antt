-- ===== src/Hub/Devices.antt =====
-- The device methods of application/service/control/hub.go.
use Prim.Native.String
use Prim.Native.String.{len, slice}
use agent_runtime_client.Base.{
  ℕ, ◌+◌, ◌-◌, String, Bool, true, false, not, ◌&&◌, ◌||◌, Option, none, some, List, [], ◌∷◌, ◌++◌,
  Map, lookup, put, delete, ◌==◌, eqb, ltb, leb, if◌then◌else◌, is_blank, any,
}
use agent_runtime_client.Protocol.Error.{
  Error, Result, ok, err, device_fields, device_offline, device_bound, capability_unsupported,
  device_ambiguous, unauthenticated, device_of_another,
}
use agent_runtime_client.Protocol.Error
use agent_runtime_client.Protocol.Message.{Time, DeviceMessage, RegisteredDevice}
use agent_runtime_client.Store.{Store}
use agent_runtime_client.Hub.State.{
  Device, Hub, M, ◌>>=◌, ◌>>◌, pure, fail, lift, get, modify, attempt, call, adjust,
}

-- `device.UserID != "" && device.UserID != userID`
abbrev pub owned_by_other : String → Device → Bool
owned_by_other user_id d = not (d.user_id == "") && not (d.user_id == user_id)

-- `supportsCapability`
unfoldable pub supports_capability : List String → String → Bool
supports_capability capabilities capability = any (λ c. c == capability) capabilities

-- `shortDeviceID`, for an identifier in ASCII, where a byte is a character.
unfoldable pub short_device_id : String → String
short_device_id value =
    if leb (len value) 12
    then value
    else String.◌++◌ (slice value 0 6) (String.◌++◌ "..." (slice value (len value - 6) (len value)))

pub record DeviceDiagnostic : Type 0 where
  pub id : String
  pub bound : Bool
  pub current_user : Bool
  pub supports_action : Bool
  pub capabilities : List String

pub record DeviceDiagnostics : Type 0 where
  pub user_authenticated : Bool
  pub capability : String
  pub connected_devices : ℕ
  pub current_user_devices : ℕ
  pub matching_devices : ℕ
  pub other_user_devices : ℕ
  pub unsupported_devices : ℕ
  pub devices : List DeviceDiagnostic

abbrev pub count_if : Bool → ℕ → ℕ
count_if true n = n + 1
count_if false n = n

-- One round of the loop of `Diagnostics`.
diagnose : String → String → Device → DeviceDiagnostics → DeviceDiagnostics
diagnose user_id capability d r =
    let supports : Bool = supports_capability d.capabilities capability in
    let current : Bool = d.user_id == "" || d.user_id == user_id in
    record r {
      connected_devices = r.connected_devices + 1;
      other_user_devices = count_if (owned_by_other user_id d) r.other_user_devices;
      current_user_devices = count_if current r.current_user_devices;
      unsupported_devices = count_if (not supports) r.unsupported_devices;
      matching_devices = count_if (current && supports) r.matching_devices;
      devices =
          r.devices
          ++ record {
            id = short_device_id d.id;
            bound = not (d.user_id == "");
            current_user = current;
            supports_action = supports;
            capabilities = d.capabilities;
          }
            ∷ [];
    }

diagnose_all : String → String → Map Device → DeviceDiagnostics → DeviceDiagnostics
diagnose_all user_id capability [] r = r
diagnose_all user_id capability ((id, d) ∷ rest) r =
    diagnose_all user_id capability rest (diagnose user_id capability d r)

-- One round of the loop of `ResolveDevice` over the connected devices, and what it counts.
pub record Tally : Type 0 where
  pub selected : String
  pub connected : ℕ
  pub owned_by_others : ℕ
  pub unsupported : ℕ

-- Whether the loop stops with "multiple devices", or what it has counted at the end.
unfoldable pub select_device : String → String → Map Device → Tally → Result Tally
select_device user_id capability [] t = ok t
select_device user_id capability ((id, d) ∷ rest) t =
    let other =
      select_device user_id capability rest
        (record t { connected = t.connected + 1; owned_by_others = t.owned_by_others + 1 }) in
    let lacking =
      select_device user_id capability rest
        (record t { connected = t.connected + 1; unsupported = t.unsupported + 1 }) in
    let chosen =
      select_device user_id capability rest
        (record t { connected = t.connected + 1; selected = id }) in
    if owned_by_other user_id d
    then other
    else if not (supports_capability d.capabilities capability)
    then lacking
    else if not (t.selected == "")
    then err device_ambiguous
    else chosen

-- What `ResolveDevice` reports when the loop selected no device.
unfoldable pub none_selected : Tally → Error
none_selected t =
    if ltb 0 t.connected && eqb t.owned_by_others t.connected
    then device_bound
    else if ltb 0 t.connected && leb t.connected (t.unsupported + t.owned_by_others)
    then capability_unsupported
    else device_offline

abbrev pub no_tally : Tally
no_tally = record { selected = ""; connected = 0; owned_by_others = 0; unsupported = 0 }

-- The loop of `Devices` over the connected devices.
visible : String → Map Device → List RegisteredDevice
visible user_id [] = []
visible user_id ((id, d) ∷ rest) =
    let others = visible user_id rest in
    if not (user_id == "") && owned_by_other user_id d
    then others
    else record {
      device_id = d.id;
      user_id = d.user_id;
      name = d.name;
      platform = d.platform;
      architecture = d.architecture;
      capabilities = d.capabilities;
      online = d.online;
      connected_at = d.connected_at;
      last_seen_at = d.last_seen_at;
    }
      ∷ others

-- The loop of `HasAvailableCapability` over the requested capabilities.
abbrev pub supports_some : List String → List String → Bool
supports_some capabilities wanted = any (λ c. supports_capability capabilities c) wanted

abbrev pub stored_user : Option RegisteredDevice → String
stored_user none = ""
stored_user (some d) = d.user_id

abbrev pub named_device : String → String → Option Device → Result (Unit {0})
named_device user_id capability none = err device_offline
named_device user_id capability (some d) =
    if owned_by_other user_id d
    then err device_bound
    else if supports_capability d.capabilities capability
    then ok tt
    else err capability_unsupported

abbrev pub selection : Result Tally → Result String
selection (err e) = err e
selection (ok t) = if t.selected == "" then err (none_selected t) else ok t.selected

module _ {S : Type 0} where
  -- `Diagnostics`
  unfoldable pub diagnostics : String → String → Hub S → DeviceDiagnostics
  unfolding diagnose_all diagnose
  diagnostics user_id capability h = diagnose_all user_id capability h.devices (record {
    user_authenticated = not (is_blank user_id);
    capability = capability;
    connected_devices = 0;
    current_user_devices = 0;
    matching_devices = 0;
    other_user_devices = 0;
    unsupported_devices = 0;
    devices = [];
  })

  -- `HasAvailableCapability`
  unfoldable pub has_available_capability : String → List String → Hub S → Bool
  has_available_capability user_id capabilities h =
      any (λ e. not (owned_by_other user_id e.1) && supports_some e.1.capabilities capabilities)
        h.devices

  -- The critical section of `Register`, and the closing of the connection that it replaces.
  unfoldable pub install_device : Device → Hub S → Hub S
  install_device device h = record h {
    devices = put device.id device h.devices;
    closed = elim (lookup device.id h.devices) [
      | none ↦ h.closed
      | some old ↦ if eqb old.conn device.conn then h.closed else h.closed ++ old.conn ∷ []
    ];
  }

  -- The part of `ResolveDevice` under the lock: the device that the method goes on to bind.
  unfoldable pub choose_device : String → String → String → Hub S → Result String
  choose_device user_id requested capability h =
      if not (requested == "")
      then Error.◌>>◌ (named_device user_id capability (lookup requested h.devices)) (ok requested)
      else selection (select_device user_id capability h.devices no_tally)

  -- What other goroutines do to the hub between two critical sections of a method.
  abbrev pub interfere : (Hub S → Hub S) → M S (Unit {0})
  interfere others = modify others

  -- The checks that `bindDevice` makes twice.
  unfoldable pub may_bind : String → String → Hub S → Result Device
  may_bind device_id user_id h = elim (lookup device_id h.devices) [
    | none ↦ err device_offline
    | some d ↦ if owned_by_other user_id d then err device_of_another else ok d
  ]

  -- The second critical section of `bindDevice`.
  unfoldable pub bind_commit : String → String → M S (Unit {0})
  bind_commit device_id user_id = do
    h ← get
    d ← lift (may_bind device_id user_id h)
    modify (λ h. record h { devices = put device_id (record d { user_id = user_id }) h.devices })

module _ {S : Type 0} ⦃db : Store S⦄ where
  -- `Register`; a nil connection is `none`.
  unfoldable pub register : DeviceMessage → Option ℕ → Time → M S (Unit {0})
  register message none now = fail device_fields
  register message (some conn) now = do
    lift (Error.reject (message.device_id == "") device_fields)
    stored ← call (db.find_device message.device_id) none
    call
        (db.upsert_device (record {
          device_id = message.device_id;
          user_id = stored_user stored;
          name = message.name;
          platform = message.platform;
          architecture = message.architecture;
          capabilities = message.capabilities;
          online = true;
          connected_at = now;
          last_seen_at = now;
        }))
        tt
    modify (
        install_device (record {
          id = message.device_id;
          user_id = stored_user stored;
          name = message.name;
          platform = message.platform;
          architecture = message.architecture;
          capabilities = message.capabilities;
          connected_at = now;
          last_seen_at = now;
          online = true;
          conn = conn;
        }))

  -- `Unregister`
  unfoldable pub unregister : String → ℕ → Time → M S (Unit {0})
  unregister device_id conn now h = elim (lookup device_id h.devices) [
    | none ↦ (ok tt, h)
    | some d ↦
        if eqb d.conn conn
        then attempt (call (db.set_device_online device_id false now) tt)
            (record h { devices = delete device_id h.devices })
        else (ok tt, h)
  ]

  -- `Touch`
  unfoldable pub touch : String → Time → M S (Unit {0})
  touch device_id now = do
    modify (λ h. record h {
      devices = adjust device_id (λ d. record d { last_seen_at = now }) h.devices;
    })
    attempt (call (db.set_device_online device_id true now) tt)

  -- `bindDevice`; the repository is called between its two critical sections.
  unfoldable pub bind_device : (Hub S → Hub S) → String → String → M S (Unit {0})
  bind_device others device_id user_id = do
    lift (Error.reject (user_id == "") unauthenticated)
    h ← get
    _ ← lift (may_bind device_id user_id h)
    call (db.bind_device device_id user_id) tt
    interfere others
    bind_commit device_id user_id

  -- `ResolveDevice`; `before` and `between` are what others do at its two gaps.
  unfoldable pub resolve_device :
      (Hub S → Hub S) → (Hub S → Hub S) → String → String → String → M S String
  resolve_device before between user_id requested capability = do
    h ← get
    chosen ← lift (choose_device user_id requested capability h)
    interfere before
    bind_device between chosen user_id
    pure chosen

  -- `Devices`. A `Device` whose connection is cleared has the fields of a `RegisteredDevice`, which
  -- stands for it here.
  unfoldable pub list_devices : String → M S (List RegisteredDevice)
  unfolding visible
  list_devices user_id h = elim h.store [
    | some _ ↦ call (db.list_devices user_id) [] h
    | none ↦ (ok (visible user_id h.devices), h)
  ]
