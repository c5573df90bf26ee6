-- ===== src/Hub/Ending/Replay.antt =====
-- A repeated dispatch in application/service/control/hub.go, and the cache of observations.
use agent_runtime_client.Base.{ℕ, ◌<◌, String, Option, some, ◌≡◌, refl, lookup, lt→ltb}
use agent_runtime_client.Protocol.Error.{Result, ok, err}
use agent_runtime_client.Protocol.Message.{Time, Action, Observation, Progress, normalize}
use agent_runtime_client.Protocol.Validate.{without_attachment_data, obs_cancelled, expired}
use agent_runtime_client.Protocol.Accepted.{ActionAccepted, validate_action_iff}
use agent_runtime_client.Store.{Store}
use agent_runtime_client.Hub.State.{Hub, after}
use agent_runtime_client.Hub.Dispatch.{
  finished, dispatch_start, receive, cancel_dispatch, expire_dispatch, terminal_observation,
}
use agent_runtime_client.Hub.Ending.{
  Reception, Abandoned, receive-ends, cancel_dispatch-ends, expire_dispatch-ends,
}

module _ {S : Type 0} ⦃db : Store S⦄ where
  cached_lem :
      (key : String) (o : Observation) (h : Hub S) (device_id : String) (b : Action)
      (on_progress : Option (Progress → Result (Unit {0}))) (later : Time)
      → lookup key h.completed ≡ some o
      → ActionAccepted (normalize b)
      → later < (normalize b).deadline
      → (normalize b).idempotency_key ≡ key
      → dispatch_start device_id b on_progress later h ≡ (ok (finished o), h)
  unfolding dispatch_start after lookup
  cached_lem key o h device_id b on_progress later cached accepted timely same =
      let there : lookup (normalize b).idempotency_key h.completed ≡ some o = rw same cached in
      rw (dispatch_start, (validate_action_iff (normalize b)).1 accepted, lt→ltb _ _ timely, there)
        refl

  answered-cached :
      (a : Action) (o : Observation) (h : Hub S) (r : Result Observation) (g : Hub S)
      (p : Observation)
      → r ≡ ok p
      → Reception a o h r g
      → lookup a.idempotency_key g.completed ≡ some (without_attachment_data o)
  answered-cached a o h (ok x) g p e q = q.cached
  answered-cached a o h (err x) g p e q = cc

  Abandoned-cached :
      (a : Action) (conn : ℕ) (reason : String) (o : Observation) (h : Hub S)
      (r : Result Observation) (g : Hub S)
      → Abandoned a conn reason o h r g
      → lookup a.idempotency_key g.completed ≡ some o
  Abandoned-cached a conn reason o h (err x) g q = q.0.cached
  Abandoned-cached a conn reason o h (ok x) g q = absurd q

module _ {S : Type 0} ⦃db : Store S⦄ (device_id : String) (b : Action)
    (on_progress : Option (Progress → Result (Unit {0}))) (later : Time)
    (accepted : ActionAccepted (normalize b)) (timely : later < (normalize b).deadline) where
  -- After a dispatch has returned an observation, every well-formed action with the same key and a
  -- deadline ahead is answered with that observation, less its attachments' data, whatever device it
  -- names; the hub stays as it is, so nothing is sent to a device again.
  pub receive-dispatch_start :
      (a : Action) (o p : Observation) (now : Time) (h : Hub S)
      → (normalize b).idempotency_key ≡ a.idempotency_key
      → (receive a o now h).0 ≡ ok p
      → dispatch_start device_id b on_progress later (receive a o now h).1
        ≡ (ok (finished (without_attachment_data o)), (receive a o now h).1)
  receive-dispatch_start a o p now h same e =
      cached_lem _ _ _ device_id b on_progress later
        (answered-cached a o h _ _ p e (receive-ends a o now h).holds.0) accepted timely same

  -- After the caller of a dispatch has given up, every well-formed action with the same key and a
  -- deadline ahead is answered with the observation `CANCELLED`, and the hub stays as it is.
  pub cancel_dispatch-dispatch_start :
      (conn : ℕ) (a : Action) (reason : String) (now : Time) (h : Hub S)
      → (normalize b).idempotency_key ≡ a.idempotency_key
      → dispatch_start device_id b on_progress later (cancel_dispatch conn a reason now h).1 ≡ (
        ok (finished (terminal_observation a obs_cancelled reason now)),
        (cancel_dispatch conn a reason now h).1,
      )
  cancel_dispatch-dispatch_start conn a reason now h same =
      cached_lem _ _ _ device_id b on_progress later
        (Abandoned-cached a conn _ _ h _ _ (cancel_dispatch-ends conn a reason now h).holds)
        accepted timely same

  -- The same after the deadline has passed, with the observation `EXPIRED`.
  pub expire_dispatch-dispatch_start :
      (conn : ℕ) (a : Action) (now : Time) (h : Hub S)
      → (normalize b).idempotency_key ≡ a.idempotency_key
      → dispatch_start device_id b on_progress later (expire_dispatch conn a now h).1 ≡ (
        ok (finished (terminal_observation a expired "action deadline exceeded" now)),
        (expire_dispatch conn a now h).1,
      )
  expire_dispatch-dispatch_start conn a now h same =
      cached_lem _ _ _ device_id b on_progress later
        (Abandoned-cached a conn _ _ h _ _ (expire_dispatch-ends conn a now h).holds) accepted
        timely same
