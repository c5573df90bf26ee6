-- ===== src/Hub/Launch.antt =====
-- What `Dispatch` of application/service/control/hub.go has done when it starts to wait, and what it
-- has not done when it returns at once.
pub mod Starting
pub mod Admission
use agent_runtime_client.Base.{
  ℕ, ◌<◌, String, Bool, true, false, not, Option, none, some, Option-cases, List, [], ◌∷◌, ◌++◌,
  ◌≡◌, ◌≢◌, refl, sym, ap, ◌∙◌, inl, inr, ◌==◌, eq_iff, arith, Bool-cases, Map, lookup, put, delete,
  lookup-put, lookup-put_self, lookup-delete, ltb, ltb→lt, if◌then◌else◌,
}
use agent_runtime_client.Protocol.Error.{Error, Result, ok, err, reject, not_rejected}
use agent_runtime_client.Protocol.Message.{
  Time, Action, Observation, Progress, TaskSession, normalize,
}
use agent_runtime_client.Protocol.Validate.{validate_action}
use agent_runtime_client.Protocol.Accepted.{ActionAccepted, validate_action_iff}
use agent_runtime_client.Store.{Store}
use agent_runtime_client.Hub.State.{
  Device, PendingAction, Frame, Hub, M, after, call, called, left_by, send,
}
use agent_runtime_client.Hub.State.Frame.{action, cancel}
use agent_runtime_client.Hub.Devices.{owned_by_other, supports_capability}
use agent_runtime_client.Hub.Tasks.{task_user_id, record_action}
use agent_runtime_client.Hub.Dispatch.{
  Started, finished, waiting, forget, on_failure, is_pending, deliver, send_action, dispatch_to,
  dispatch_new, dispatch_unseen, dispatch_start,
}
use agent_runtime_client.Hub.Rules.{Ends, ends, ends_after, ends_ok}
use agent_runtime_client.Hub.Frames.{Same, task_user_id-Same, record_action-Same}

-- The action was not sent, and the same actions wait as before.
pub record Quiet {S : Type 0} (h g : Hub S) : Type 0 where
  pub sent : g.sent ≡ h.sent
  pub pending : (id : String) → lookup id g.pending ≡ lookup id h.pending

-- The device is free or its user's, as far as the session in memory tells.
abbrev pub open_to : Option TaskSession → Device → Bool
open_to none d = true
open_to (some t) d = not (owned_by_other t.user_id d)

opened :
    (user owner : String) (d : Device)
    → user ≡ owner
    → owned_by_other user d ≡ false
    → not (owned_by_other owner d) ≡ true
opened user owner d e f = let g : owned_by_other owner d ≡ false = rw e at f in ap not g

-- The action `a` went to the connection `conn`, and waits for its observation.
pub record Launched {S : Type 0} (device_id : String) (a : Action)
    (on_progress : Option (Progress → Result (Unit {0}))) (conn : ℕ) (b : Action) (h g : Hub S)
    : Type 0 where
  pub device : Device
  pub connected : lookup device_id h.devices ≡ some device
  pub conn_of : conn ≡ device.conn
  pub action_of : b ≡ a
  pub able : supports_capability device.capabilities a.capability ≡ true
  pub allowed : open_to (lookup a.task_id h.sessions) device ≡ true
  pub idle : lookup a.action_id h.pending ≡ none
  pub queued :
      lookup a.action_id g.pending
      ≡ some
          (record { channel = none; device_id = device_id; action = a; on_progress = on_progress })
  pub sent : g.sent ≡ h.sent ++ (device.conn, action a) ∷ []

module _ {S : Type 0} where
  -- Nothing was sent, or the action was, with the pending actions as they were.
  pub record Unsent (h g : Hub S) : Type 0 where
    pub sent : g.sent ≡ h.sent
    pub pending : g.pending ≡ h.pending

  pub record Delivered (conn : ℕ) (a b : Action) (c : ℕ) (h g : Hub S) : Type 0 where
    pub conn_of : c ≡ conn
    pub action_of : b ≡ a
    pub sent : g.sent ≡ h.sent ++ (conn, action a) ∷ []
    pub pending : g.pending ≡ h.pending

  abbrev pub Delivery : ℕ → Action → Hub S → Result Started → Hub S → Type 0
  Delivery conn a h (err e) g = Unsent h g
  Delivery conn a h (ok (finished o)) g = ⊥
  Delivery conn a h (ok (waiting c b)) g = Delivered conn a b c h g

  deliver-Delivery :
      (conn : ℕ) (a : Action) (h0 h : Hub S)
      → h.sent ≡ h0.sent
      → h.pending ≡ h0.pending
      → Ends (Delivery conn a h0) (deliver conn a h)
  unfolding deliver
  deliver-Delivery conn a h0 h s p = elim (Bool-cases (h.reachable conn)) [
    | inl e ↦
        rw (e, deliver)
          (ends (Delivery conn a h0) _ _
            (record { conn_of = refl; action_of = refl; sent = rw s; pending = p }))
    | inr e ↦ rw (e, deliver) (ends (Delivery conn a h0) _ h (record { sent = s; pending = p }))
  ]

  abbrev pub Outcome : Device → Action → Hub S → Result Started → Hub S → Type 0
  Outcome d a h (err e) g = Unsent h g
  Outcome d a h (ok (finished o)) g = ⊥
  Outcome d a h (ok (waiting c b)) g =
      Delivered d.conn a b c h g × (open_to (lookup a.task_id h.sessions) d ≡ true)

  with_owner :
      (d : Device) (a : Action) (h : Hub S) (r : Result Started × Hub S)
      → open_to (lookup a.task_id h.sessions) d ≡ true
      → Ends (Delivery d.conn a h) r
      → Ends (Outcome d a h) r
  with_owner d a h (err e, g) own l = record { holds = l.holds }
  with_owner d a h (ok (finished o), g) own l = record { holds = l.holds }
  with_owner d a h (ok (waiting c b), g) own l = record { holds = (l.holds, own) }

module _ {S : Type 0} ⦃db : Store S⦄ where
  task_user_id-owner :
      (id : String) (h : Hub S) (t : TaskSession) (user : String)
      → lookup id h.sessions ≡ some t
      → (task_user_id id h).0 ≡ ok user
      → user ≡ t.user_id
  unfolding task_user_id
  task_user_id-owner id h t user e r =
      let q : ok t.user_id ≡ ok user = rw (e, task_user_id) at r in cc

  pub send_action-Outcome :
      (d : Device) (device_id : String) (a : Action) (now : Time) (h : Hub S)
      → Ends (Outcome d a h) (send_action d device_id a now h)
  unfolding send_action
  send_action-Outcome d device_id a now h =
      let u = task_user_id-Same a.task_id h in
      let quiet : Unsent h (task_user_id a.task_id h).1 = record {
        sent = u.sent;
        pending = u.pending;
      } in
      ends_after (Outcome d a h) _ _ _ (λ e. quiet)
        λ user e.
          ends_after (Outcome d a h) _ _ _ (λ e. record { sent = u.sent; pending = u.pending })
            λ _ allowed.
              ends_after (Outcome d a h) _ _ _ (λ e. record { sent = u.sent; pending = u.pending })
                λ _ _.
                  let r = record_action-Same device_id a now _ in
                  ends_after (Outcome d a h) _ _ _
                    (λ e. record { sent = r.sent ∙ u.sent; pending = r.pending ∙ u.pending })
                    λ _ _.
                      with_owner d a h _
                        (elim (Option-cases (lookup a.task_id h.sessions)) [
                          | inl none_there ↦ rw none_there refl
                          | inr (t, there) ↦ rw there (
                              opened user t.user_id d
                                (task_user_id-owner a.task_id h t user there e)
                                (not_rejected _ _ allowed))
                        ])
                        (deliver-Delivery d.conn a h _ (r.sent ∙ u.sent) (r.pending ∙ u.pending))
