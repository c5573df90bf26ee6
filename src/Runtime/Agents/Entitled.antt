-- ===== src/Runtime/Agents/Entitled.antt =====
-- Whose agents the run service of application/service/runtime/service.go runs, and with which prompts.
use agent_runtime_client.Base.{
  pos, int_eq, String, true, false, not, ◌&&◌, Option, none, some, lookup, ◌≡◌, ◌⊎◌, ◌==◌, eq_iff,
  if◌then◌else◌, arith,
}
use agent_runtime_client.Protocol.Error.{ok}
use agent_runtime_client.Runtime.Values.{
  Value, text, SysAgent, SysAgentUserModel, StoredAgentConfig, first_non_empty,
}
use agent_runtime_client.Runtime.Agents.{AgentService, with_user_model}

-- A prompt that the stored configuration sets.
abbrev pub stored_prompt : Option StoredAgentConfig → String → Option Value
stored_prompt none key = none
stored_prompt (some cfg) key =
    let system_prompt = first_non_empty cfg.system_prompt cfg.system_prompt_ui in
    if not (system_prompt == "") && "system_prompt" == key
    then some (text system_prompt)
    else lookup key cfg.context

module _ {S : Type 0} (svc : AgentService S) (user_id : String) where
  -- The agent service has found this agent for the identifier, and the user may run it.
  pub record Entitled (id : String) (agent : SysAgent) : Type 0 where
    pub state : S
    pub found : (svc.find_by_id id state).0 ≡ ok (some agent)
    pub live : int_eq agent.deleted_at (pos 0) ≡ true
    pub enabled : agent.enabled ≡ true
    pub allowed : (agent.is_system ≡ true) ⊎ (agent.created_by ≡ user_id)

  -- The agent that a run goes on with: a public one has the models of the user's own binding, if any.
  pub data Loaded (agent : SysAgent) : SysAgent → Type 0 where
    own : agent.is_system ≡ false → Loaded agent agent
    bound :
        (binding : Option SysAgentUserModel) (st : S)
        → agent.is_system ≡ true
        → (svc.find_user_model user_id agent.ulid st).0 ≡ ok binding
        → Loaded agent (with_user_model agent binding)

  allowed :
      (agent : SysAgent)
      → (not agent.is_system && not (agent.created_by == user_id)) ≡ false
      → (agent.is_system ≡ true) ⊎ (agent.created_by ≡ user_id)
  allowed agent h = ground (arith, eq_iff agent.created_by user_id)
