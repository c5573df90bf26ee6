-- ===== src/Hub/Registration.antt =====
-- Connecting and disconnecting devices in application/service/control/hub.go.
use agent_runtime_client.Base.{
  ℕ, String, true, Option, none, some, List, [], ◌∷◌, ◌++◌, ◌≡◌, ◌≢◌, refl, sym, ◌∙◌, eqb,
  eqb-false, eqb_iff, ◌==◌, lookup, lookup-put, lookup-put_self, lookup-delete, if◌then◌else◌,
}
use agent_runtime_client.Protocol.Error.{ok}
use agent_runtime_client.Protocol.Message.{Time, DeviceMessage}
use agent_runtime_client.Store.{Store}
use agent_runtime_client.Hub.State.{Device, Hub}
use agent_runtime_client.Hub.Devices.{register, unregister, install_device}
use agent_runtime_client.Hub.Rules.{ensures, Ensures-after}

-- What a successful registration has put in place of the hub's device.
-- The connections closed once `conn` has taken the place of the device that was there.
abbrev pub closed_by : ℕ → List ℕ → Option Device → List ℕ
closed_by conn closed none = closed
closed_by conn closed (some old) = if eqb old.conn conn then closed else closed ++ old.conn ∷ []

pub record Registered {S : Type 0} (message : DeviceMessage) (conn : ℕ) (now : Time)
    (before h : Hub S) : Type 0 where
  pub device : Device
  pub stored : lookup message.device_id h.devices ≡ some device
  pub conn_new : device.conn ≡ conn
  pub capabilities : device.capabilities ≡ message.capabilities
  pub online : device.online ≡ true
  pub seen : device.last_seen_at ≡ now
  pub others :
      (id : String)
      → lookup id h.devices
        ≡ (if message.device_id == id then some device else lookup id before.devices)
  pub closed : h.closed ≡ closed_by conn before.closed (lookup message.device_id before.devices)

module _ {S : Type 0} where
  install-Registered :
      (message : DeviceMessage) (conn : ℕ) (now : Time) (d : Device) (before h : Hub S)
      → d.id ≡ message.device_id
      → d.conn ≡ conn
      → d.capabilities ≡ message.capabilities
      → d.online ≡ true
      → d.last_seen_at ≡ now
      → h.devices ≡ before.devices
      → h.closed ≡ before.closed
      → Registered message conn now before (install_device d h)
  unfolding install_device
  install-Registered message conn now d before h id c caps on seen devices closed = record {
    device = d;
    stored = rw (← id) (lookup-put_self d.id d h.devices);
    conn_new = c;
    capabilities = caps;
    online = on;
    seen = seen;
    others = λ j. rw (lookup-put d.id j d h.devices, devices, id) refl;
    closed = rw (devices, closed, id) (same_closed (lookup message.device_id before.devices));
  }
    where
      same_closed :
          (old : Option Device)
          → elim old as (λ _. List ℕ) [
            | none ↦ before.closed
            | some old ↦
                if eqb old.conn d.conn then before.closed else before.closed ++ old.conn ∷ []
          ]
            ≡ closed_by conn before.closed old
      same_closed none = refl
      same_closed (some old) = rw c refl

module _ {S : Type 0} ⦃db : Store S⦄ where
  -- A registration that succeeds stores the device with the new connection, the message's
  -- capabilities and the time, leaves every other device as it was, and closes the connection that it
  -- replaces, if there was another one, and no other.
  pub register-Registered :
      (message : DeviceMessage) (conn : ℕ) (now : Time) (h : Hub S)
      → (register message (some conn) now h).0 ≡ ok tt
      → Registered message conn now h (register message (some conn) now h).1
  unfolding register
  register-Registered message conn now h e =
      (Ensures-after (λ _ g. Registered message conn now h g) _ _ _
          λ _ _.
            Ensures-after (λ _ g. Registered message conn now h g) _ _ _
              λ stored _.
                Ensures-after (λ _ g. Registered message conn now h g) _ _ _
                  λ _ _.
                    ensures (λ _ g. Registered message conn now h g) _ _
                      (install-Registered message conn now _ h _ refl refl refl refl refl refl
                        refl)).holds
        tt e

  -- `Unregister` by a connection that is no longer the device's changes nothing at all.
  unregister_stale :
      (id : String) (conn : ℕ) (now : Time) (h : Hub S) (d : Device)
      → lookup id h.devices ≡ some d
      → d.conn ≢ conn
      → unregister id conn now h ≡ (ok tt, h)
  unfolding unregister
  unregister_stale id conn now h d e ne = rw (e, unregister, eqb-false d.conn conn ne)

  -- A device that reconnects stays connected: when the handler of the old connection ends, and calls
  -- `Unregister` with that connection, the hub stays exactly as the new registration left it.
  pub unregister-register :
      (message : DeviceMessage) (old new : ℕ) (now later : Time) (h : Hub S)
      → (register message (some new) now h).0 ≡ ok tt
      → old ≢ new
      → unregister message.device_id old later (register message (some new) now h).1
        ≡ (ok tt, (register message (some new) now h).1)
  unregister-register message old new now later h e ne =
      let r = register-Registered message new now h e in
      unregister_stale message.device_id old later _ r.device r.stored
        (λ p. ne (sym p ∙ r.conn_new))

  -- `Unregister` by the device's own connection removes it, and no other device, and never fails.
  unregister_own :
      (id : String) (conn : ℕ) (now : Time) (h : Hub S) (d : Device)
      → lookup id h.devices ≡ some d
      → d.conn ≡ conn
      → ((unregister id conn now h).0 ≡ ok tt)
        × ((j : String)
            → lookup j (unregister id conn now h).1.devices
              ≡ (if id == j then none else lookup j h.devices))
  unfolding unregister
  unregister_own id conn now h d e eq = (
    rw (e, unregister, (eqb_iff d.conn conn).1 eq),
    λ j. rw (e, unregister, (eqb_iff d.conn conn).1 eq) (lookup-delete id j h.devices),
  )
