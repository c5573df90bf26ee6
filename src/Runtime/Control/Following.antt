-- ===== src/Runtime/Control/Following.antt =====
-- What the parts of a turn in application/service/runtime/service.go leave of the world: the hub stays
-- where it is set, and only a step asks the runtime.
use agent_runtime_client.Base.{
  Bool-cases, ℕ, String, Option, none, some, Option-cases, List, [], ◌∷◌, ◌≡◌, refl, ◌∙◌, ◌⊎◌, inl,
  inr,
}
use agent_runtime_client.Protocol.Error.{Error, Result, ok, err, Result-cases}
use agent_runtime_client.Protocol.Message.{Time, Action, Observation, Progress}
use agent_runtime_client.Store.{Store, next}
use agent_runtime_client.Hub.State.{Hub, M}
use agent_runtime_client.Runtime.Events.{
  World, Surroundings, StreamEvent, Service, emit, on_hub, hub_call, Outcome, if_set, observed,
  abandoned, expired,
}
use agent_runtime_client.Runtime.Dispatching.{
  emit_control_observation, emit_control_progress, emit_heard, report_failure, report_success,
  report_unresolved, wait_for, end_wait, wait_if_started, run_dispatch, dispatch_on,
  begin_and_dispatch, dispatch_with_hub, dispatch_control_action, Dispatched,
}
use agent_runtime_client.Hub.Dispatch.{Started, finished, waiting}
use agent_runtime_client.Hub.Devices.{resolve_device}
use agent_runtime_client.Hub.Tasks.{begin_task}
use agent_runtime_client.Runtime.Control.{forward, take_event, take_events, is_done}

-- The service has a hub.
abbrev pub Present : {S : Type 0} → World S → Type 0
Present {S} w = (h : Hub S) × (w.hub ≡ some h)

pub record Follows {S : Type 0} (v w : World S) : Type 0 where
  pub asked : w.asked ≡ v.asked
  pub hub : Present v → Present w

module _ {S : Type 0} where
  pub Follows-refl : (w : World S) → Follows w w
  Follows-refl w = record { asked = refl; hub = λ p. p }

  pub Follows-trans : (u v w : World S) → Follows u v → Follows v w → Follows u w
  Follows-trans u v w f g = record { asked = g.asked ∙ f.asked; hub = λ p. g.hub (f.hub p) }

  pub Follows-after :
      {A B : Type 0} (u w : World S) (r : Result A) (f : A → Service S B)
      → Follows u w
      → ((a : A) → r ≡ ok a → Follows w (f a w).1)
      → Follows u (next r f w).1
  unfolding next
  Follows-after u w (ok a) f p k = Follows-trans u w (f a w).1 p (k a refl)
  Follows-after u w (err e) f p k = p

  pub hub_call-Follows : {A : Type 0} (m : M S A) (w : World S) → Follows w (hub_call m w).1
  unfolding hub_call on_hub
  hub_call-Follows m w = record { asked = refl; hub = λ p. stays m w.hub p.0 p.1 }
    where
      stays :
          {A : Type 0} (m : M S A) (o : Option (Hub S)) (h : Hub S)
          → o ≡ some h
          → (g : Hub S) × ((on_hub m o).1 ≡ some g)
      stays m none h e = cc
      stays m (some g) h e = ((m g).1, refl)

  -- So it is where a change is made to the hub only if it is set.
  pub if_set-Follows :
      (f : Hub S → Hub S) (w : World S) → Follows w (record w { hub = if_set w.hub f })
  unfolding if_set
  if_set-Follows f w = record { asked = refl; hub = λ p. stays w.hub p.0 p.1 }
    where
      stays : (o : Option (Hub S)) (h : Hub S) → o ≡ some h → (g : Hub S) × (if_set o f ≡ some g)
      stays none h e = cc
      stays (some g) h e = (f g, refl)

module _ {S : Type 0} (env : Surroundings S) where
  pub emit-Follows : (event : StreamEvent) (w : World S) → Follows w (emit env event w).1
  unfolding emit
  emit-Follows event w = elim (Result-cases (env.client w.emitted event)) [
    | inl (u, e) ↦ rw (e, emit) (record { asked = refl; hub = λ p. p })
    | inr (x, e) ↦ rw (e, emit) (Follows-refl w)
  ]

module _ {S : Type 0} (env : Surroundings S) (trace_id task_id : String) where
  forward-Follows :
      (event : StreamEvent) (held : Option Action) (w : World S)
      → Follows w (forward env trace_id task_id event held w).1
  unfolding forward
  forward-Follows event none w =
      Follows-after w _ (emit env event w).0 _ (emit-Follows env event w) (λ a e. Follows-refl _)
  forward-Follows event (some a) w = elim (Bool-cases (is_done event.payload)) [
    | inl d ↦ rw (d, forward) (Follows-refl w)
    | inr d ↦
        rw (d, forward)
          (Follows-after w _ (emit env event w).0 _ (emit-Follows env event w)
            (λ u e. Follows-refl _))
  ]

  take_event-Follows :
      (sequence : ℕ) (event : StreamEvent) (held : Option Action) (read : Result (Option Action))
      (w : World S)
      → Follows w (take_event env trace_id task_id sequence event held read w).1
  unfolding take_event
  take_event-Follows sequence event held (err e) w = Follows-refl w
  take_event-Follows sequence event held (ok none) w = forward-Follows event held w
  take_event-Follows sequence event held (ok (some a)) w =
      Follows-after w _ _ _ (emit-Follows env _ w) (λ u e. Follows-refl _)

  pub take_events-Follows :
      (sequence : ℕ) (events : List StreamEvent) (held : Option Action) (w : World S)
      → Follows w (take_events env trace_id task_id sequence events held w).1
  unfolding take_events
  take_events-Follows sequence [] held w = Follows-refl w
  take_events-Follows sequence (event ∷ rest) held w =
      Follows-after w _ _ _ (take_event-Follows sequence event held _ w)
        (λ kept e. take_events-Follows sequence rest kept _)

-- A dispatch returns an observation or an error, if not both.
abbrev pub Answered : Dispatched → Type 0
Answered d = ((o : Observation) × (d.observation ≡ some o)) ⊎ ((e : Error) × (d.error ≡ some e))

pub record Dispatches {S : Type 0} (w : World S) (r : Dispatched × World S) : Type 0 where
  pub follows : Follows w r.1
  pub answered : Answered r.0

module _ {S : Type 0} (env : Surroundings S) (trace_id : String) where
  emit_heard-Follows :
      (heard : List Progress) (now : Time) (w : World S)
      → Follows w (emit_heard env trace_id heard now w)
  unfolding emit_heard emit_control_progress
  emit_heard-Follows [] now w = Follows-refl w
  emit_heard-Follows (p ∷ rest) now w =
      Follows-trans w _ _ (emit-Follows env _ w) (emit_heard-Follows rest now _)

  report_failure-Dispatches :
      (o : Observation) (e : Error) (now : Time) (v w : World S)
      → Follows v w
      → Dispatches v (report_failure env trace_id o e now w)
  unfolding emit_control_observation report_failure
  report_failure-Dispatches o e now v w f =
      let sent = emit_control_observation env trace_id o now w in
      let g : Follows v sent.1 = Follows-trans v w _ f (emit-Follows env _ w) in
      elim (Result-cases sent.0) [
        | inl (u, p) ↦ rw (p, report_failure) (record { follows = g; answered = inl (o, refl) })
        | inr (x, p) ↦ rw (p, report_failure) (record { follows = g; answered = inl (o, refl) })
      ]

  report_success-Dispatches :
      (o : Observation) (now : Time) (v w : World S)
      → Follows v w
      → Dispatches v (report_success env trace_id o now w)
  unfolding emit_control_observation report_success
  report_success-Dispatches o now v w f =
      let sent = emit_control_observation env trace_id o now w in
      let g : Follows v sent.1 = Follows-trans v w _ f (emit-Follows env _ w) in
      elim (Result-cases sent.0) [
        | inl (u, p) ↦ rw (p, report_success) (record { follows = g; answered = inl (o, refl) })
        | inr (x, p) ↦ rw (p, report_success) (record { follows = g; answered = inr (x, refl) })
      ]

  module _ ⦃db : Store S⦄ where
    end_wait-Follows :
        (n conn : ℕ) (a : Action) (o : Outcome) (w : World S)
        → Follows w (end_wait env trace_id n conn a o w).1
    unfolding end_wait
    end_wait-Follows n conn a (observed o) w = hub_call-Follows _ w
    end_wait-Follows n conn a (abandoned reason) w = hub_call-Follows _ w
    end_wait-Follows n conn a expired w = hub_call-Follows _ w

    wait_for-Follows :
        (n conn : ℕ) (a : Action) (w : World S) → Follows w (wait_for env trace_id n conn a w).1
    unfolding wait_for
    wait_for-Follows n conn a w = Follows-trans w _ _ (if_set-Follows (env.wait n a).others w) (
        Follows-trans _ _ _ (emit_heard-Follows (env.wait n a).heard _ _)
          (end_wait-Follows n conn a (env.wait n a).outcome _))

    wait_if_started-Follows :
        (n : ℕ) (s : Started) (w : World S) → Follows w (wait_if_started env trace_id n s w).1
    unfolding wait_if_started
    wait_if_started-Follows n (finished o) w = Follows-refl w
    wait_if_started-Follows n (waiting conn a) w = wait_for-Follows n conn a w

    run_dispatch-Follows :
        (n : ℕ) (device_id : String) (a : Action) (w : World S)
        → Follows w (run_dispatch env trace_id n device_id a w).1
    unfolding run_dispatch
    run_dispatch-Follows n device_id a w =
        Follows-after w _ _ _ (hub_call-Follows _ w) (λ s e. wait_if_started-Follows n s _)

    dispatch_on-Dispatches :
        (n : ℕ) (device_id : String) (a : Action) (v w : World S)
        → Follows v w
        → Dispatches v (dispatch_on env trace_id n device_id a w)
    unfolding dispatch_on
    dispatch_on-Dispatches n device_id a v w f =
        let f' : Follows v (run_dispatch env trace_id n device_id a w).1 =
          Follows-trans v w _ f (run_dispatch-Follows n device_id a w) in
        elim (Result-cases (run_dispatch env trace_id n device_id a w).0) [
          | inl (o, p) ↦ rw (p, dispatch_on) (report_success-Dispatches o _ v _ f')
          | inr (e, p) ↦ rw (p, dispatch_on) (report_failure-Dispatches _ e _ v _ f')
        ]

    begin_and_dispatch-Dispatches :
        (n : ℕ) (user_id task_id conversation_id : String) (a : Action) (device_id : String)
        (v w : World S)
        → Follows v w
        → Dispatches v
            (begin_and_dispatch env trace_id n user_id task_id conversation_id a device_id w)
    unfolding begin_and_dispatch
    begin_and_dispatch-Dispatches n user_id task_id conversation_id a device_id v w f =
        let m : M S (Unit {0}) =
          begin_task task_id user_id conversation_id device_id (env.now n 3) in
        let f' : Follows v (hub_call m w).1 = Follows-trans v w _ f (hub_call-Follows m w) in
        elim (Result-cases (hub_call m w).0) [
          | inl (u, p) ↦ rw (p, begin_and_dispatch) (dispatch_on-Dispatches n device_id a v _ f')
          | inr (e, p) ↦
              rw (p, begin_and_dispatch) (record { follows = f'; answered = inr (e, refl) })
        ]

    dispatch_with_hub-Dispatches :
        (n : ℕ) (user_id requested task_id conversation_id : String) (a : Action) (w : World S)
        → Dispatches w
            (dispatch_with_hub env trace_id n user_id requested task_id conversation_id a w)
    unfolding dispatch_with_hub report_unresolved
    dispatch_with_hub-Dispatches n user_id requested task_id conversation_id a w =
        let m : M S String =
          resolve_device (env.before n) (env.between n) user_id requested a.capability in
        let f : Follows w (hub_call m w).1 = hub_call-Follows m w in
        elim (Result-cases (hub_call m w).0) [
          | inl (d, p) ↦
              rw (p, dispatch_with_hub)
                (begin_and_dispatch-Dispatches n user_id task_id conversation_id a d w _ f)
          | inr (e, p) ↦
              rw (p, dispatch_with_hub, report_unresolved) (report_failure-Dispatches _ _ _ w _ f)
        ]

    pub dispatch_control_action-Dispatches :
        (n : ℕ) (user_id requested task_id conversation_id : String) (a : Action) (w : World S)
        → Dispatches w
            (dispatch_control_action env trace_id n user_id requested task_id conversation_id a w)
    unfolding dispatch_control_action
    dispatch_control_action-Dispatches n user_id requested task_id conversation_id a w =
        elim (Option-cases w.hub) [
          | inl p ↦
              simp (p, dispatch_control_action)
                (record { follows = Follows-refl w; answered = inr (_, refl) })
          | inr (h, p) ↦
              simp (p, dispatch_control_action)
                (dispatch_with_hub-Dispatches n user_id requested task_id conversation_id a w)
        ]
