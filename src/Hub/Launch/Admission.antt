-- ===== src/Hub/Launch/Admission.antt =====
-- Which dispatches of application/service/control/hub.go reach the device.
use agent_runtime_client.Base.{
  ◌<◌, String, Option, none, Option-cases, ◌≡◌, inl, inr, lookup, ltb→lt, not-false,
}
use agent_runtime_client.Protocol.Error.{Result, ok, err, not_rejected}
use agent_runtime_client.Protocol.Message.{Time, Action, Progress, normalize}
use agent_runtime_client.Protocol.Accepted.{ActionAccepted, validate_action_iff}
use agent_runtime_client.Store.{Store}
use agent_runtime_client.Hub.State.{Hub}
use agent_runtime_client.Hub.Dispatch.{Started, finished, waiting, dispatch_start}
use agent_runtime_client.Hub.Rules.{Ends, ends, ends_after, ends_ok}
use agent_runtime_client.Hub.Launch.{Quiet, Launched}
use agent_runtime_client.Hub.Launch.Starting.{Start, still, dispatch_unseen-Start}

-- What `Dispatch` has checked of an action that it waits for.
pub record Checked {S : Type 0} (a : Action) (now : Time) (h : Hub S) : Type 0 where
  pub accepted : ActionAccepted a
  pub in_time : now < a.deadline
  pub unseen : lookup a.idempotency_key h.completed ≡ none

module _ {S : Type 0} (device_id : String) (a : Action)
    (on_progress : Option (Progress → Result (Unit {0}))) (now : Time) where
  -- A dispatch waits for a checked action that it has launched, and is quiet where it does not wait.
  abbrev pub Admission : Hub S → Result Started → Hub S → Type 0
  Admission h (err e) g = Quiet h g
  Admission h (ok (finished o)) g = Quiet h g
  Admission h (ok (waiting c b)) g = Checked a now h × Launched device_id a on_progress c b h g

  admitted :
      (h : Hub S) (r : Result Started × Hub S)
      → Checked a now h
      → Ends (Start device_id a on_progress h) r
      → Ends (Admission h) r
  admitted h (err e, g) c l = record { holds = l.holds }
  admitted h (ok (finished o), g) c l = record { holds = l.holds }
  admitted h (ok (waiting conn b), g) c l = record { holds = (c, l.holds) }

module _ {S : Type 0} ⦃db : Store S⦄ (device_id : String) (given : Action)
    (on_progress : Option (Progress → Result (Unit {0}))) (now : Time) where
  dispatch_start-ends :
      (h : Hub S)
      → Ends
          (Admission device_id (normalize given) on_progress now h)
          (dispatch_start device_id given on_progress now h)
  unfolding dispatch_start
  dispatch_start-ends h =
      let Q = Admission device_id (normalize given) on_progress now h in
      ends_after Q _ _ _ (λ e. still h)
        λ _ valid.
          ends_after Q _ _ _ (λ e. still h)
            λ _ timely.
              ends_ok Q h _ h
                (elim (Option-cases (lookup (normalize given).idempotency_key h.completed)) [
                  | inl e ↦ rw e (
                      admitted device_id (normalize given) on_progress now h _
                        (record {
                          accepted = (validate_action_iff (normalize given)).0 valid;
                          in_time = ltb→lt _ _ (not-false _ (not_rejected _ _ timely));
                          unseen = e;
                        })
                        (dispatch_unseen-Start device_id (normalize given) on_progress now h))
                  | inr (o, e) ↦ rw e (ends Q _ h (still h))
                ])

-- A dispatch that waits has a well-formed action whose deadline lies ahead and whose key has no
-- cached observation. Its device is connected and has the capability, and is free or belongs to the
-- task's user where the task is in memory. Exactly this action was sent to the device, once, and it
-- is pending, which it was not before. A dispatch that fails or is answered at once sends nothing
-- and leaves every pending action as it was.
pub dispatch_start-Admission :
    {S : Type 0} ⦃db : Store S⦄ (device_id : String) (given : Action)
    (on_progress : Option (Progress → Result (Unit {0}))) (now : Time) (h : Hub S)
    → Admission device_id
        (normalize given)
        on_progress
        now
        h
        (dispatch_start device_id given on_progress now h).0
        (dispatch_start device_id given on_progress now h).1
dispatch_start-Admission device_id given on_progress now h =
    (dispatch_start-ends device_id given on_progress now h).holds
