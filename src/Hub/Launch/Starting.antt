-- ===== src/Hub/Launch/Starting.antt =====
-- `Dispatch` of application/service/control/hub.go from its first line to the point where it waits.
use agent_runtime_client.Base.{
  String, true, false, Option, none, some, Option-cases, ◌≡◌, refl, inl, inr, ◌==◌, eq_iff,
  Bool-cases, lookup, put, lookup-put, lookup-put_self, lookup-delete, not-false,
}
use agent_runtime_client.Protocol.Error.{Result, ok, err, not_rejected}
use agent_runtime_client.Protocol.Message.{Time, Action, Progress}
use agent_runtime_client.Store.{Store}
use agent_runtime_client.Hub.State.{Device, PendingAction, Hub}
use agent_runtime_client.Hub.Devices.{supports_capability}
use agent_runtime_client.Hub.Dispatch.{
  Started, finished, waiting, forget, on_failure, is_pending, dispatch_to, dispatch_new,
  dispatch_unseen,
}
use agent_runtime_client.Hub.Rules.{Ends, ends, ends_after, ends_ok}
use agent_runtime_client.Hub.Launch.{Quiet, Launched, Unsent, Outcome, send_action-Outcome}

module _ (device_id : String) (a : Action)
    (on_progress : Option (Progress → Result (Unit {0}))) where
  abbrev entry : PendingAction
  entry = record { channel = none; device_id = device_id; action = a; on_progress = on_progress }

module _ {S : Type 0} (device_id : String) (a : Action)
    (on_progress : Option (Progress → Result (Unit {0}))) where
  -- How a dispatch starts: it waits for the action that it launched, or did nothing of the kind.
  abbrev pub Start : Hub S → Result Started → Hub S → Type 0
  Start h (err e) g = Quiet h g
  Start h (ok (finished o)) g = Quiet h g
  Start h (ok (waiting c b)) g = Launched device_id a on_progress c b h g

  abbrev queue : Hub S → Hub S
  queue h = record h { pending = put a.action_id (entry device_id a on_progress) h.pending }

  Quiet-forget :
      (h g : Hub S)
      → lookup a.action_id h.pending ≡ none
      → Unsent (queue h) g
      → Quiet h (forget a.action_id g)
  Quiet-forget h g idle u = record {
    sent = u.sent;
    pending = λ id.
        rw
          (
            lookup-delete a.action_id id g.pending,
            u.pending,
            lookup-put a.action_id id (entry device_id a on_progress) h.pending,
          )
          (elim (Bool-cases (a.action_id == id)) [
            | inl e ↦
                let q : a.action_id ≡ id = (eq_iff a.action_id id).0 e in
                let i : lookup id h.pending ≡ none = rw q at idle in rw (e, i) refl
            | inr e ↦ rw e refl
          ]);
  }

  started-Start :
      (d : Device) (h : Hub S) (r : Result Started × Hub S)
      → lookup device_id h.devices ≡ some d
      → supports_capability d.capabilities a.capability ≡ true
      → lookup a.action_id h.pending ≡ none
      → Ends (Outcome d a (queue h)) r
      → Ends (Start h) (on_failure a.action_id r.0 r.1)
  unfolding on_failure
  started-Start d h (err e, g) found able idle l = record { holds = Quiet-forget h g idle l.holds }
  started-Start d h (ok (finished o), g) found able idle l = absurd l.holds
  started-Start d h (ok (waiting c b), g) found able idle l =
      let (sent, own) = l.holds in
      record {
        holds = record {
          device = d;
          connected = found;
          conn_of = sent.conn_of;
          action_of = sent.action_of;
          able = able;
          allowed = own;
          idle = idle;
          queued =
              rw sent.pending
                (lookup-put_self a.action_id (entry device_id a on_progress) h.pending);
          sent = sent.sent;
        };
      }

module _ {S : Type 0} where
  pub still : (h : Hub S) → Quiet h h
  still h = record { sent = refl; pending = λ id. refl }

  not_pending : (id : String) (h : Hub S) → is_pending id h ≡ false → lookup id h.pending ≡ none
  not_pending id h e = elim (Option-cases (lookup id h.pending)) [
    | inl p ↦ p
    | inr (q, p) ↦ let c : true ≡ false = rw (p, is_pending) at e in cc
  ]

module _ {S : Type 0} ⦃db : Store S⦄ (device_id : String) (a : Action)
    (on_progress : Option (Progress → Result (Unit {0}))) where
  dispatch_to-Start :
      (d : Device) (now : Time) (h : Hub S)
      → lookup device_id h.devices ≡ some d
      → Ends (Start device_id a on_progress h) (dispatch_to d device_id a on_progress now h)
  unfolding dispatch_to
  dispatch_to-Start d now h found =
      ends_after (Start device_id a on_progress h) _ _ _ (λ e. still h)
        λ _ able. ends_ok (Start device_id a on_progress h) h _ h (
          ends_after (Start device_id a on_progress h) _ _ _ (λ e. still h)
            λ _ idle. ends_ok (Start device_id a on_progress h) tt _ _ (
              started-Start device_id a on_progress d h _ found
                (not-false _ (not_rejected _ _ able))
                (not_pending a.action_id h (not_rejected _ _ idle))
                (send_action-Outcome d device_id a now _)))

  dispatch_new-Start :
      (now : Time) (h : Hub S)
      → Ends (Start device_id a on_progress h) (dispatch_new device_id a on_progress now h)
  unfolding dispatch_new
  dispatch_new-Start now h = elim (Option-cases (lookup device_id h.devices)) [
    | inl e ↦ rw (e, dispatch_new) (ends (Start device_id a on_progress h) _ h (still h))
    | inr (d, e) ↦ rw (e, dispatch_new) (dispatch_to-Start d now h e)
  ]

module _ {S : Type 0} (device_id : String) (a : Action)
    (on_progress : Option (Progress → Result (Unit {0}))) where
  -- A read of the repository before the dispatch makes no difference.
  after_read :
      (st : Option S) (h g : Hub S) (r : Result Started)
      → Start device_id a on_progress (record h { store = st }) r g
      → Start device_id a on_progress h r g
  after_read st h g (err e) q = record { sent = q.sent; pending = q.pending }
  after_read st h g (ok (finished o)) q = record { sent = q.sent; pending = q.pending }
  after_read st h g (ok (waiting c b)) l = record {
    device = l.device;
    connected = l.connected;
    conn_of = l.conn_of;
    action_of = l.action_of;
    able = l.able;
    allowed = l.allowed;
    idle = l.idle;
    queued = l.queued;
    sent = l.sent;
  }

module _ {S : Type 0} ⦃db : Store S⦄ (device_id : String) (a : Action)
    (on_progress : Option (Progress → Result (Unit {0}))) where
  pub dispatch_unseen-Start :
      (now : Time) (h : Hub S)
      → Ends (Start device_id a on_progress h) (dispatch_unseen device_id a on_progress now h)
  unfolding dispatch_unseen
  dispatch_unseen-Start now h =
      ends_after (Start device_id a on_progress h) _ _ _
        (λ e. record { sent = refl; pending = λ id. refl })
        λ stored _. elim (Option-cases stored) [
          | inl e ↦ rw e (record {
            holds =
                after_read device_id a on_progress _ h _ _
                  (dispatch_new-Start device_id a on_progress now _).holds;
          })
          | inr (o, e) ↦ rw e (record { holds = record { sent = refl; pending = λ id. refl } })
        ]
