-- ===== src/Hub/Ending/Outcome.antt =====
-- What a dispatch of application/service/control/hub.go leaves when it ends.
use agent_runtime_client.Protocol.Message.{Time, Action, Observation}
use agent_runtime_client.Store.{Store}
use agent_runtime_client.Hub.State.{Hub}
use agent_runtime_client.Hub.Dispatch.{receive}
use agent_runtime_client.Hub.Ending.{Received, receive-ends}

-- A dispatch that receives an observation returns it only when it names the task and the sequence
-- of the action. Then the cache holds it without its attachments' data at the action's key, and has
-- at most 4096 entries if it had no more before. However the dispatch ends, nothing is sent, its
-- action is pending no more, and every other pending action stays.
pub receive-Received :
    {S : Type 0} ⦃db : Store S⦄ (a : Action) (o : Observation) (now : Time) (h : Hub S)
    → Received a o h (receive a o now h).0 (receive a o now h).1
receive-Received a o now h = (receive-ends a o now h).holds
