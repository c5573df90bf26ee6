-- ===== src/Hub/Ending.antt =====
-- The three ways in which `Dispatch` of application/service/control/hub.go ends after it waited.
pub mod Outcome
pub mod Replay
use agent_runtime_client.Base.{
  ℕ, ◌≤◌, ◌+◌, String, Bool, true, false, not, ◌||◌, Option, none, some, List, [], ◌∷◌, ◌≡◌, refl,
  ◌∙◌, inl, inr, arith, ◌==◌, eq_iff, Bool-cases, Map, lookup, put, delete, lookup-delete,
  lookup-put_self, length, length-put, length-put-grown, grown, if◌then◌else◌, leb, or_left,
  or_right, int_eq, ap, or_false, not-false, eq_refl,
}
use agent_runtime_client.Protocol.Error.{
  Error, Result, ok, err, reject, not_rejected, cancelled, timed_out,
}
use agent_runtime_client.Protocol.Message.{Time, Action, Observation, TaskSession, new_cancel}
use agent_runtime_client.Protocol.Validate.{without_attachment_data, obs_cancelled, expired}
use agent_runtime_client.Store.{Store}
use agent_runtime_client.Hub.State.{
  Frame, Hub, M, after, attempt, call, called, left_by, send, completed_observation_limit,
}
use agent_runtime_client.Hub.State.Frame.{action, cancel}
use agent_runtime_client.Hub.Sessions.{record_observation_locked}
use agent_runtime_client.Hub.Tasks.{record_observation, save_recorded}
use agent_runtime_client.Hub.Dispatch.{
  forget, remember, receive, persist_terminal_observation, cancel_dispatch, expire_dispatch,
  terminal_observation,
}
use agent_runtime_client.Hub.Rules.{
  Ends, ends, ends_after, ends_ok, Leaves, Leaves-after, Leaves-ok,
}
use agent_runtime_client.Hub.Frames.{
  Same, Same-trans, record_observation_locked-Same, record_observation-Same, save_recorded-Same,
}

-- The action waits no more, and every other action waits as before.
abbrev pub Released : {S : Type 0} → Action → Hub S → Hub S → Type 0
Released a h g =
    (id : String) → lookup id g.pending ≡ (if a.action_id == id then none else lookup id h.pending)

-- A dispatch that ended with the observation `o`.
pub record Answered {S : Type 0} (a : Action) (o p : Observation) (h g : Hub S) : Type 0 where
  pub result_of : p ≡ o
  pub task_of : o.task_id ≡ a.task_id
  pub sequence_of : int_eq o.sequence a.sequence ≡ true
  pub cached : lookup a.idempotency_key g.completed ≡ some (without_attachment_data o)
  pub bounded : length g.completed ≤ completed_observation_limit
  pub sent : g.sent ≡ h.sent

-- A dispatch that ended without one: the device was told, and the cache holds `o` in its place.
pub record GivenUp {S : Type 0} (a : Action) (conn : ℕ) (reason : String) (o : Observation)
    (h g : Hub S) : Type 0 where
  pub told : g.sent ≡ (send conn (cancel (new_cancel a reason)) h).sent
  pub cached : lookup a.idempotency_key g.completed ≡ some o
  pub size : length g.completed ≡ grown (lookup a.idempotency_key h.completed) (length h.completed)

first : (key : String) (o : Observation) → length (put key o []) ≤ completed_observation_limit
unfolding put
first key o = omega arith

full :
    (n k : ℕ)
    → leb completed_observation_limit n ≡ false
    → k ≤ n + 1
    → k ≤ completed_observation_limit
full n k e l = ground arith

module _ {S : Type 0} where
  released :
      (a : Action) (h g : Hub S)
      → g.pending ≡ h.pending
      → Released a h (record g { pending = delete a.action_id g.pending })
  released a h g e id = rw (e, lookup-delete a.action_id id h.pending) refl

  remember-bounded :
      (key : String) (o : Observation) (h : Hub S)
      → length (remember key o h).completed ≤ completed_observation_limit
  unfolding remember
  remember-bounded key o h =
      elim (Bool-cases (leb completed_observation_limit (length h.completed))) [
        | inl e ↦ rw (e, remember) (first key o)
        | inr e ↦ rw (e, remember) (full (length h.completed) _ e (length-put key o h.completed))
      ]

  remember-cached :
      (key : String) (o : Observation) (h : Hub S)
      → lookup key (remember key o h).completed ≡ some o
  unfolding remember
  remember-cached key o h = lookup-put_self key o _

-- A dispatch ends with the observation that it was sent, or fails and keeps what the hub had sent.
abbrev pub Reception :
    {S : Type 0} → Action → Observation → Hub S → Result Observation → Hub S → Type 0
Reception a o h (err e) g = g.sent ≡ h.sent
Reception a o h (ok p) g = Answered a o p h g

mismatch :
    (a : Action) (o : Observation) (e : Error)
    → reject (not (o.task_id == a.task_id) || not (int_eq o.sequence a.sequence)) e ≡ ok tt
    → (o.task_id ≡ a.task_id) × (int_eq o.sequence a.sequence ≡ true)
mismatch a o e r =
    let (p, q) = or_false _ _ (not_rejected _ _ r) in
    ((eq_iff _ _).0 (not-false _ p), not-false _ q)

module _ {S : Type 0} (a : Action) (o : Observation) (h : Hub S) where
  abbrev Before : Result Observation → Hub S → Type 0
  Before r g = Reception a o h r g × (g.pending ≡ h.pending)

  abbrev pub Received : Result Observation → Hub S → Type 0
  Received r g = Reception a o h r g × Released a h g

  closing :
      (r : Result Observation × Hub S) → Ends Before r → Ends Received (r.0, forget a.action_id r.1)
  closing (err e, g) l = let (p, q) = l.holds in record { holds = (p, released a h g q) }
  closing (ok x, g) l =
      let (p, q) = l.holds in
      record {
        holds = (
          record {
            result_of = p.result_of;
            task_of = p.task_of;
            sequence_of = p.sequence_of;
            cached = p.cached;
            bounded = p.bounded;
            sent = p.sent;
          },
          released a h g q,
        );
      }

  answered :
      (g : Hub S)
      → o.task_id ≡ a.task_id
      → int_eq o.sequence a.sequence ≡ true
      → Same (remember a.idempotency_key (without_attachment_data o) h) g
      → Answered a o o h g
  unfolding remember
  answered g t s m = record {
    result_of = refl;
    task_of = t;
    sequence_of = s;
    cached = rw m.completed (remember-cached a.idempotency_key (without_attachment_data o) h);
    bounded = rw m.completed (remember-bounded a.idempotency_key (without_attachment_data o) h);
    sent = m.sent;
  }

module _ {S : Type 0} ⦃db : Store S⦄ where
  pub receive-ends :
      (a : Action) (o : Observation) (now : Time) (h : Hub S)
      → Ends (Received a o h) (receive a o now h)
  unfolding receive remember
  receive-ends a o now h =
      let kept = without_attachment_data o in
      let start = remember a.idempotency_key kept h in
      let locked = record_observation_locked-Same a.task_id kept now start in
      closing a o h _ (
        ends_after (Before a o h) _ _ _ (λ e. (refl, refl))
          λ _ matches.
            let (t, s) = mismatch a o _ matches in
            ends_ok (Before a o h) tt _ _ (
              ends_after (Before a o h) _ _ _ (λ e. (locked.sent, locked.pending))
                λ _ _.
                  let saved = Same-trans start _ _ locked (save_recorded-Same a.task_id _) in
                  ends_after (Before a o h) _ _ _ (λ e. (saved.sent, saved.pending))
                    λ _ _. ends (Before a o h) _ _ (answered a o h _ t s saved, saved.pending)))

module _ {S : Type 0} (a : Action) (conn : ℕ) (reason : String) (o : Observation) (h : Hub S) where
  -- The call fails, the device was told, and the cache holds `o`.
  abbrev pub Abandoned : Result Observation → Hub S → Type 0
  Abandoned (err e) g = GivenUp a conn reason o h g × Released a h g
  Abandoned (ok p) g = ⊥

  abbrev Failing : Result Observation → Hub S → Type 0
  Failing (err e) g = GivenUp a conn reason o h g × (g.pending ≡ h.pending)
  Failing (ok p) g = ⊥

  abandoning :
      (r : Result Observation × Hub S)
      → Ends Failing r
      → Ends Abandoned (r.0, forget a.action_id r.1)
  abandoning (err e, g) l =
      let (p, q) = l.holds in
      record {
        holds = (record { told = p.told; cached = p.cached; size = p.size }, released a h g q);
      }
  abandoning (ok x, g) l = absurd l.holds

  given_up :
      (g : Hub S)
      → g.completed ≡ put a.idempotency_key o h.completed
      → g.sent ≡ (send conn (cancel (new_cancel a reason)) h).sent
      → GivenUp a conn reason o h g
  given_up g c s = record {
    told = s;
    cached = rw c (lookup-put_self a.idempotency_key o h.completed);
    size = rw c (length-put-grown a.idempotency_key o h.completed);
  }

module _ {S : Type 0} ⦃db : Store S⦄ where
  -- What `persistTerminalObservation` leaves.
  abbrev Persisted : Action → Observation → Hub S → Result (Unit {0}) → Hub S → Type 0
  Persisted a o h r g =
      (g.completed ≡ put a.idempotency_key o h.completed)
      × ((g.sent ≡ h.sent) × (g.pending ≡ h.pending))

  persist_terminal_observation-ends :
      (a : Action) (status message : String) (now : Time) (h : Hub S)
      → Ends
          (Persisted a (terminal_observation a status message now) h)
          (persist_terminal_observation a status message now h)
  unfolding persist_terminal_observation
  persist_terminal_observation-ends a status message now h =
      let Q = Persisted a (terminal_observation a status message now) h in
      ends_ok Q tt _ _ (
        ends_ok Q tt _ _ (
          let k =
            record_observation-Same a.task_id (terminal_observation a status message now) now _ in
          record { holds = (k.completed, (k.sent, k.pending)) }))

  failing :
      (a : Action) (conn : ℕ) (reason status message : String) (e : Error) (now : Time) (h : Hub S)
      → let o = terminal_observation a status message now in
        let start : Hub S = send conn (cancel (new_cancel a reason)) h in
        let r = persist_terminal_observation a status message now start in
        Ends (Failing a conn reason o h) (after r.0 (λ _ g. (err e, g)) r.1)
  failing a conn reason status message e now h =
      let o = terminal_observation a status message now in
      let start : Hub S = send conn (cancel (new_cancel a reason)) h in
      let (c, (s, p)) = (persist_terminal_observation-ends a status message now start).holds in
      ends_after (Failing a conn reason o h) _ _ _ (λ e. (given_up a conn reason o h _ c s, p))
        (λ _ _. ends (Failing a conn reason o h) _ _ (given_up a conn reason o h _ c s, p))

  pub cancel_dispatch-ends :
      (conn : ℕ) (a : Action) (reason : String) (now : Time) (h : Hub S)
      → Ends
          (Abandoned a conn "request canceled" (terminal_observation a obs_cancelled reason now) h)
          (cancel_dispatch conn a reason now h)
  unfolding cancel_dispatch
  cancel_dispatch-ends conn a reason now h =
      abandoning a conn "request canceled" (terminal_observation a obs_cancelled reason now) h _
        (ends_ok _ tt _ _ (failing a conn "request canceled" obs_cancelled reason cancelled now h))

  pub expire_dispatch-ends :
      (conn : ℕ) (a : Action) (now : Time) (h : Hub S)
      → Ends
          (Abandoned a conn "action deadline exceeded"
            (terminal_observation a expired "action deadline exceeded" now)
            h)
          (expire_dispatch conn a now h)
  unfolding expire_dispatch
  expire_dispatch-ends conn a now h =
      abandoning a conn "action deadline exceeded"
        (terminal_observation a expired "action deadline exceeded" now) h _
        (ends_ok _ tt _ _ (
          failing a conn "action deadline exceeded" expired "action deadline exceeded" timed_out now
            h))
