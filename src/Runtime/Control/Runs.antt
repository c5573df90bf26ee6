-- ===== src/Runtime/Control/Runs.antt =====
-- `runControlLoop` and `runAgentControlLoop` of application/service/runtime/service.go as a whole.
use agent_runtime_client.Base.{
  String, Option, Option-cases, Bool-cases, Map, refl, ◌⊎◌, inl, inr, ◌==◌, ◌+◌, ◌≤◌,
}
use agent_runtime_client.Store.{Store}
use agent_runtime_client.Runtime.Values.{Value, ModelConfig, RunInput, AgentInput}
use agent_runtime_client.Runtime.Events.{World, Surroundings}
use agent_runtime_client.Runtime.Control.{
  run_loop, agent_loop, run_task_id, hydrate_from, hydrate_active_device_sessions, run_control_loop,
  stream_run, stream_agent, max_device_action_iterations,
}
use agent_runtime_client.Runtime.Control.Following.{Present, Follows, Follows-refl}
use agent_runtime_client.Runtime.Control.Ending.{Over, Waits, Ends, Ends-Follows, run_turns-Ends}

module _ {S : Type 0} ⦃db : Store S⦄ where
  hydrate_active_device_sessions-Follows :
      (user_id conversation_id : String) (values : Map Value) (w : World S)
      → Follows w (hydrate_active_device_sessions user_id conversation_id values w).1
  unfolding hydrate_active_device_sessions hydrate_from
  hydrate_active_device_sessions-Follows user_id conversation_id values w =
      elim (Option-cases w.hub) [
        | inl e ↦ simp (e, hydrate_active_device_sessions) (Follows-refl w)
        | inr (h, e) ↦ elim (Bool-cases (conversation_id == "")) [
          | inl p ↦ simp (e, p, hydrate_active_device_sessions) (Follows-refl w)
          | inr p ↦
              simp (e, p, hydrate_active_device_sessions)
                (record { asked = refl; hub = λ q. (_, refl) })
        ]
      ]

  module _ (env : Surroundings S) (default_model : Option ModelConfig) (user_id requested : String)
      (w : World S) where
    stream_run-Ends :
        (run : RunInput)
        → Ends env run.trace_id
            (run_task_id run.request_id run.trace_id)
            w
            max_device_action_iterations
            (stream_run env default_model user_id requested run w)
    unfolding stream_run run_control_loop
    stream_run-Ends run =
        Ends-Follows env run.trace_id _ w _ _ _
          (hydrate_active_device_sessions-Follows user_id _ run.context w)
          (run_turns-Ends env run.trace_id _ (run_loop env default_model run.prompt) user_id
            requested _ _ 1 _ _)

    stream_agent-Ends :
        (agent : AgentInput)
        → Ends env agent.trace_id
            (run_task_id agent.request_id agent.trace_id)
            w
            max_device_action_iterations
            (stream_agent env default_model user_id requested agent w)
    unfolding stream_agent run_control_loop
    stream_agent-Ends agent =
        Ends-Follows env agent.trace_id _ w _ _ _
          (hydrate_active_device_sessions-Follows user_id _ agent.context w)
          (run_turns-Ends env agent.trace_id _ (agent_loop env default_model agent.task) user_id
            requested _ _ 1 _ _)

    -- Where the service has a hub, however a streamed run or a streamed agent run ends, be it in an error of
    -- the runtime, the client, the hub or the repository, or because the turns are used up: the hub is still
    -- set and the status of the task's session is terminal, if the session is in memory, or else the last
    -- act was to tell the client that the run waits for an approval or for the user.
    pub stream-Over :
        (run : RunInput) (agent : AgentInput)
        → Present w
        → (Over
              (run_task_id run.request_id run.trace_id)
              (stream_run env default_model user_id requested run w).1
            ⊎ Waits env run.trace_id
                (run_task_id run.request_id run.trace_id)
                (stream_run env default_model user_id requested run w))
          × (Over
                (run_task_id agent.request_id agent.trace_id)
                (stream_agent env default_model user_id requested agent w).1
              ⊎ Waits env agent.trace_id
                  (run_task_id agent.request_id agent.trace_id)
                  (stream_agent env default_model user_id requested agent w))
    stream-Over run agent p = ((stream_run-Ends run).ends p, (stream_agent-Ends agent).ends p)

    -- A streamed run, and a streamed agent run, ask the runtime at most eight times, whatever the runtime
    -- and the devices answer.
    pub stream-asked :
        (run : RunInput) (agent : AgentInput)
        → ((stream_run env default_model user_id requested run w).1.asked ≤ w.asked + 8)
          × ((stream_agent env default_model user_id requested agent w).1.asked ≤ w.asked + 8)
    stream-asked run agent = ((stream_run-Ends run).asked, (stream_agent-Ends agent).asked)
