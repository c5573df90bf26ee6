-- ===== src/Runtime/Control/Ending.antt =====
-- How the control loop of application/service/runtime/service.go ends.
use agent_runtime_client.Base.{
  ℕ, zero, suc, ◌+◌, ◌≤◌, String, true, Bool-cases, Option, none, some, ◌≡◌, refl, ◌⊎◌, inl, inr,
  arith, ◌==◌,
}
use agent_runtime_client.Protocol.Error.{Error, Result, ok, err, cancelled, Result-cases}
use agent_runtime_client.Protocol.Message.{Time, Action, Observation}
use agent_runtime_client.Protocol.Status
use agent_runtime_client.Protocol.Status.{terminal_task_status}
use agent_runtime_client.Protocol.Validate.{obs_waiting_approval, obs_waiting_user, obs_cancelled}
use agent_runtime_client.Store.{Store, next, ◌>>=◌, lift, pure}
use agent_runtime_client.Hub.State.{Hub, M, attempt}
use agent_runtime_client.Hub.Tasks.{set_task_status}
use agent_runtime_client.Hub.Settling.{Settled, set_task_status-Settled}
use agent_runtime_client.Runtime.Events.{
  World, Surroundings, Service, emit, on_hub, hub_call, if_set,
}
use agent_runtime_client.Runtime.Dispatching.{dispatch_control_action}
use agent_runtime_client.Runtime.Control.{
  Loop, waiting_done, ask, run_control_step, settle, settle_on, after_observation, after_dispatch,
  after_step, run_turns,
}
use agent_runtime_client.Runtime.Control.Following.{
  Present, Follows, Follows-refl, Follows-after, emit-Follows, hub_call-Follows,
  take_events-Follows, Dispatches, dispatch_control_action-Dispatches,
}

-- The hub is set, and its session of the task is terminal, where it has one in memory.
abbrev pub Over : {S : Type 0} → String → World S → Type 0
Over {S} id w = (h : Hub S) × ((w.hub ≡ some h) × Settled id h)

-- A run whose last act is to tell the client that it waits for an approval, or for the user.
pub data Waits {S : Type 0} (env : Surroundings S) (trace_id task_id : String)
    (r : Result (Unit {0}) × World S) : Type 0 where
  waits_approval :
      (now : Time) (w : World S)
      → r ≡ emit env (waiting_done env trace_id task_id "waiting_approval" now) w
      → Waits env trace_id task_id r
  waits_user :
      (now : Time) (w : World S)
      → r ≡ emit env (waiting_done env trace_id task_id "waiting_user" now) w
      → Waits env trace_id task_id r

-- From a world, with so many turns left, a run has ended so.
pub record Ends {S : Type 0} (env : Surroundings S) (trace_id task_id : String) (w : World S)
    (left : ℕ) (r : Result (Unit {0}) × World S) : Type 0 where
  pub asked : r.1.asked ≤ w.asked + left
  pub ends : Present w → Over task_id r.1 ⊎ Waits env trace_id task_id r

if_set-some : {A : Type 0} (o : Option A) (a : A) (f : A → A) → o ≡ some a → if_set o f ≡ some (f a)
unfolding if_set
if_set-some o a f e = rw e refl

on_hub-some :
    {S A : Type 0} (m : M S A) (o : Option (Hub S)) (h : Hub S)
    → o ≡ some h
    → (on_hub m o).1 ≡ some (m h).1
unfolding on_hub
on_hub-some m o h e = rw e refl

-- A method that only returns leaves the world.
lift-world :
    {S A B : Type 0} (r : Result A) (x : Result B) (w : World S) → (next r (λ _. lift x) w).1 ≡ w
unfolding next
lift-world (ok a) x w = refl
lift-world (err e) x w = refl

≤-of : (a b : ℕ) → b ≡ a → b ≤ a
≤-of a b e = omega arith

≤_add : (a b : ℕ) → a ≤ a + b
≤_add a b = omega arith

module _ {S : Type 0} (env : Surroundings S) (trace_id task_id : String) where
  -- A part of a turn comes before the rest.
  Ends-before :
      (v w : World S) (left total : ℕ) (r : Result (Unit {0}) × World S)
      → w.asked + left ≤ v.asked + total
      → (Present v → Present w)
      → Ends env trace_id task_id w left r
      → Ends env trace_id task_id v total r
  Ends-before v w left total r a h e = record {
    asked = let b = e.asked in omega arith;
    ends = λ p. e.ends (h p);
  }

  pub Ends-Follows :
      (v w : World S) (left : ℕ) (r : Result (Unit {0}) × World S)
      → Follows v w
      → Ends env trace_id task_id w left r
      → Ends env trace_id task_id v left r
  Ends-Follows v w left r f e = Ends-before v w left left r (let b = f.asked in omega arith) f.hub e

module _ {S : Type 0} (env : Surroundings S) (trace_id task_id : String) {I : Type 0}
    (loop : Loop S I) ⦃db : Store S⦄ (user_id requested conversation_id : String) where
  settle-Over :
      (n : ℕ) (status : String) (w : World S)
      → terminal_task_status status ≡ true
      → Present w
      → Over task_id (settle env trace_id task_id loop user_id requested conversation_id n status w)
  unfolding settle
  settle-Over n status w k (h, e) =
      (_, (if_set-some w.hub h _ e, set_task_status-Settled task_id status (env.now n 9) h k))

  settle_on-Over :
      (n : ℕ) (status : String) (w : World S)
      → terminal_task_status status ≡ true
      → Present w
      → Over task_id
          (settle_on env trace_id task_id loop user_id requested conversation_id n status w).1
  unfolding settle_on hub_call
  settle_on-Over n status w k (h, e) = (
    _,
    (
      on_hub-some (attempt (set_task_status task_id status (env.now n 9))) w.hub h e,
      set_task_status-Settled task_id status (env.now n 9) h k,
    ),
  )

  settle_on-Follows :
      (n : ℕ) (status : String) (w : World S)
      → Follows w
          (settle_on env trace_id task_id loop user_id requested conversation_id n status w).1
  unfolding settle_on
  settle_on-Follows n status w =
      hub_call-Follows (attempt (set_task_status task_id status (env.now n 9))) w

  module _ (left : ℕ) (k : I → Service S (Unit {0}))
      (hk : (input : I) (w : World S) → Ends env trace_id task_id w left (k input w)) where
    settled_ends :
        (n : ℕ) (status : String) (e : Error) (w : World S)
        → terminal_task_status status ≡ true
        → Ends env trace_id task_id w left (
            (settle_on env trace_id task_id loop user_id requested conversation_id n status >>= λ _.
            lift (err e))
              w)
    settled_ends n status e w t =
        let so = settle_on env trace_id task_id loop user_id requested conversation_id n status w in
        let f : Follows w so.1 = settle_on-Follows n status w in
        record {
          asked = rw (lift-world so.0 (err e) so.1, f.asked) (≤_add w.asked left);
          ends = λ p. inl (rw (lift-world so.0 (err e) so.1) (settle_on-Over n status w t p));
        }

    after_observation-Ends :
        (n : ℕ) (input : I) (a : Action) (o : Observation) (w : World S)
        → Ends env trace_id task_id w left (
            after_observation env trace_id task_id loop user_id requested conversation_id n k input
              a o w)
    unfolding after_observation terminal_task_status
    after_observation-Ends n input a o w = elim (Bool-cases (o.status == obs_waiting_approval)) [
      | inl p ↦ rw p (record {
        asked = rw (emit-Follows env _ w).asked (≤_add w.asked left);
        ends = λ q. inr (waits_approval (env.now n 10) w refl);
      })
      | inr p ↦ elim (Bool-cases (o.status == obs_waiting_user)) [
        | inl q ↦
            rw (p, q)
              (record {
                asked = rw (emit-Follows env _ w).asked (≤_add w.asked left);
                ends = λ r. inr (waits_user (env.now n 10) w refl);
              })
        | inr q ↦ elim (Bool-cases (o.status == obs_cancelled)) [
          | inl r ↦ rw (p, q, r) (settled_ends n Status.cancelled cancelled w refl)
          | inr r ↦ rw (p, q, r) (hk (loop.advance a o input) w)
        ]
      ]
    ]

    after_dispatch-Ends :
        (n : ℕ) (input : I) (a : Action) (o : Option Observation) (e : Option Error) (w : World S)
        → ((x : Observation) × (o ≡ some x)) ⊎ ((x : Error) × (e ≡ some x))
        → Ends env trace_id task_id w left (
            after_dispatch env trace_id task_id loop user_id requested conversation_id n k input a o
              e w)
    unfolding after_dispatch terminal_task_status
    after_dispatch-Ends n input a (some o) e w y = after_observation-Ends n input a o w
    after_dispatch-Ends n input a none (some e) w y = settled_ends n Status.failed e w refl
    after_dispatch-Ends n input a none none w (inl (x, y)) = cc
    after_dispatch-Ends n input a none none w (inr (x, y)) = cc

    after_step-Ends :
        (n : ℕ) (r : Result (I × Option Action)) (w : World S)
        → Ends env trace_id task_id w left
            (after_step env trace_id task_id loop user_id requested conversation_id n k r w)
    unfolding after_step terminal_task_status settle
    after_step-Ends n (err e) w = record {
      asked = ≤_add w.asked left;
      ends = λ p. inl (settle-Over n Status.failed w refl p);
    }
    after_step-Ends n (ok (input, none)) w = record {
      asked = ≤_add w.asked left;
      ends = λ p. inl (settle-Over n Status.completed w refl p);
    }
    after_step-Ends n (ok (input, some a)) w =
        let d =
          dispatch_control_action env trace_id n user_id requested task_id conversation_id a w in
        let g : Dispatches w d =
          dispatch_control_action-Dispatches env trace_id n user_id requested task_id
            conversation_id a w in
        Ends-Follows env trace_id task_id w d.1 left _ g.follows
          (after_dispatch-Ends n input a d.0.observation d.0.error d.1 g.answered)

  ask-Follows :
      (n : ℕ) (input : I) (w : World S)
      → Follows (record w { asked = w.asked + 1 }) (ask env trace_id task_id loop n input w).1
  unfolding ask
  ask-Follows n input w =
      let answer = loop.stream w.asked input in
      Follows-after _ _ _ _ (take_events-Follows env trace_id task_id n answer.0 none _)
        (λ pending e. Follows-after _ _ answer.1 _ (Follows-refl _) (λ u f. Follows-refl _))

  -- A step asks the runtime once at most, and leaves the hub.
  run_control_step-asked :
      (n : ℕ) (input : I) (w : World S)
      → ((run_control_step env trace_id task_id loop n input w).1.asked ≤ w.asked + 1)
        × (Present w → Present (run_control_step env trace_id task_id loop n input w).1)
  unfolding run_control_step next
  run_control_step-asked n input w = elim (Result-cases (loop.prepare input)) [
    | inl (prepared, e) ↦
        let a = ask env trace_id task_id loop n prepared w in
        let f =
          Follows-after {S = S} {B = I × Option Action} _ a.1 a.0
            (λ pending. pure (prepared, pending)) (ask-Follows n prepared w)
            (λ pending g. Follows-refl a.1) in
        rw e (≤-of (w.asked + 1) _ f.asked, f.hub)
    | inr (x, e) ↦ rw e (≤_add w.asked 1, λ p. p)
  ]

  -- However the turns end that are left, the runtime has been asked no more often than there were turns,
  -- and if the service has a hub, then the task's session is terminal there, or else the last act was to
  -- tell the client that the run waits for an approval or for the user.
  pub run_turns-Ends :
      (left n : ℕ) (input : I) (w : World S)
      → Ends env trace_id task_id w left
          (run_turns env trace_id task_id loop user_id requested conversation_id left n input w)
  unfolding run_turns settle terminal_task_status
  run_turns-Ends zero n input w = record {
    asked = ≤_add w.asked 0;
    ends = λ p. inl (settle-Over n Status.failed w refl p);
  }
  run_turns-Ends (suc left) n input w =
      let stepped = run_control_step env trace_id task_id loop n input w in
      let c = run_control_step-asked n input w in
      Ends-before env trace_id task_id w stepped.1 left (suc left) _ (let b = c.0 in omega arith)
        c.1
        (after_step-Ends left
          (run_turns env trace_id task_id loop user_id requested conversation_id left (n + 1))
          (run_turns-Ends left (n + 1)) n stepped.0 stepped.1)
