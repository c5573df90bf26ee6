-- ===== src/Schedule/Requests.antt =====
-- The operations of a user in application/service/scheduledtask/service.go: Create, List, Update, Delete,
-- ListApprovals and DecideApproval.
use agent_runtime_client.Base.{
  ℤ, pos, int_eq, String, Bool, true, false, not, ◌&&◌, ◌||◌, List, [], ◌∷◌, ℕ, eqb, ◌==◌,
  if◌then◌else◌, trim_space, to_lower,
}
use agent_runtime_client.Protocol.Error.{
  Error, Result, ok, err, reject, api, bad_request, forbidden, not_found, model_binding_required,
}
use agent_runtime_client.Store.{Call, ◌>>=◌, ◌>>◌, pure, lift}
use agent_runtime_client.Repository.Queries.{int_le}
use agent_runtime_client.Runtime.Values.{SysAgent, SysAgentUserModel}
use agent_runtime_client.Cron.{validate_cron, good, bad, Parsed, CronError}
use agent_runtime_client.Schedule.Rows.{
  ScheduledTask, ChatApproval, TaskDatabase, active, paused, confirm_before_commit,
}

pub record CreateRequest : Type 0 where
  pub user_id : String
  pub agent_id : String
  pub session_id : String
  pub name : String
  pub task_type : String
  pub cron : String
  pub timezone : String
  pub prompt : String
  pub criteria_json : String

pub record ApprovalDecision : Type 0 where
  pub approved : Bool
  pub reason : String

-- `First`, which fails where no row is found.
unfoldable pub first_row : {R : Type 0} → Error → List R → Result R
first_row e [] = err e
first_row e (r ∷ rs) = ok r

abbrev int_less : ℤ → ℤ → Bool
int_less a b = not (int_le b a)

unordered : {A : Type 0} → A → A → Bool
unordered a b = false

abbrev replaced : {A : Type 0} → Result A → Error → Result A
replaced (ok a) e = ok a
replaced (err x) e = err e

-- The location of a request's timezone, and whether it is fine: `known` is `time.LoadLocation`.
abbrev pub location_name : String → String
location_name timezone = if trim_space timezone == "" then "Local" else trim_space timezone

unfoldable pub task_type_name : String → String
task_type_name given =
    let name = to_lower (trim_space given) in
    if name == "ticket" || name == "product" || name == "appointment" || name == "monitor"
    then name
    else "monitor"

-- `validateCron`, with the error as the request's.
abbrev pub checked_cron : (CronError → String) → Parsed (Unit {0}) → Result (Unit {0})
checked_cron text (good u) = ok tt
checked_cron text (bad e) = err (api bad_request (text e))

abbrev pub no_agent : Error
no_agent = api forbidden "scheduled task agent is unavailable or not owned by the user"

abbrev pub no_binding : Error
no_binding = api model_binding_required "bind your model before scheduling this public agent"

-- The row that a request creates; the identifier and the times are set when it is inserted.
unfoldable pub new_task : CreateRequest → ScheduledTask
unfolding task_type_name
new_task req = record {
  ulid = "";
  created_at = pos 0;
  updated_at = pos 0;
  deleted_at = pos 0;
  user_id = trim_space req.user_id;
  agent_id = trim_space req.agent_id;
  session_id = trim_space req.session_id;
  name = trim_space req.name;
  task_type = task_type_name req.task_type;
  cron_expr = trim_space req.cron;
  timezone = location_name req.timezone;
  prompt = trim_space req.prompt;
  criteria_json = req.criteria_json;
  action_mode = confirm_before_commit;
  status = active;
  last_slot = "";
  last_run_at = pos 0;
  last_status = "";
  last_result = [];
  last_error = [];
  execution_count = 0;
}

-- A row of the user's that is not deleted.
abbrev pub own_task : String → String → ScheduledTask → Bool
own_task user_id id r = r.ulid == id && r.user_id == user_id && int_eq r.deleted_at (pos 0)

abbrev pub pending_approval : String → String → ChatApproval → Bool
pending_approval user_id id r = r.ulid == id && r.user_id == user_id && r.status == "pending"

abbrev pub decided_status : ApprovalDecision → String
decided_status d = if d.approved then "approved" else "rejected"

abbrev pub decide : String → ApprovalDecision → ℤ → ChatApproval → ChatApproval
decide user_id d now r = record r {
  status = decided_status d;
  approved_by = user_id;
  approved_at = now;
  reason = trim_space d.reason;
}

-- A statement that has changed no row has found none.
abbrev pub affected : Error → ℕ → Result (Unit {0})
affected e n = reject (eqb n 0) e

abbrev pub no_task : Error
no_task = api not_found "scheduled task not found"

abbrev pub no_pending : Error
no_pending = api not_found "pending approval not found"

module _ {D : Type 0} (db : TaskDatabase D) where
  -- The agent that a task may run, if it is enabled and not deleted.
  unfoldable pub find_agent : String → Call D SysAgent
  unfolding first_row unordered
  find_agent id d =
      let found =
        db.agents.find (λ r. r.ulid == id && int_eq r.deleted_at (pos 0) && r.enabled) unordered 1
          d in
      (do rows ← lift (replaced found.0 no_agent); lift (first_row no_agent rows)) found.1

  -- The user's binding of a model to a public agent.
  unfoldable pub find_binding : String → String → Call D SysAgentUserModel
  unfolding first_row unordered
  find_binding user_id agent_id d =
      let found =
        db.bindings.find (λ r. r.agent_id == agent_id && r.user_id == user_id) unordered 1 d in
      (do rows ← lift (replaced found.0 no_binding); lift (first_row no_binding rows)) found.1

  unfoldable pub check_binding : Bool → String → String → Call D (Unit {0})
  check_binding false user_id agent_id = pure tt
  check_binding true user_id agent_id = do
    binding ← find_binding user_id agent_id
    lift (reject (binding.model == "") no_binding)

  -- `Create`; `known` is whether `time.LoadLocation` knows a name, and `text` the text of an error.
  unfoldable pub create :
      (String → Bool) → (CronError → String) → CreateRequest → Call D ScheduledTask
  create known text req = do
    lift (
        reject
          (trim_space req.user_id == ""
            || trim_space req.agent_id == ""
            || trim_space req.name == ""
            || trim_space req.prompt == "")
          (api bad_request "user_id, agent_id, name, and prompt are required"))
    lift (checked_cron text (validate_cron req.cron))
    lift (
        reject
          (not (location_name req.timezone == "Local") && not (known (location_name req.timezone)))
          (api bad_request "invalid timezone"))
    agent ← find_agent (trim_space req.agent_id)
    lift (reject (not agent.is_system && not (agent.created_by == trim_space req.user_id)) no_agent)
    check_binding agent.is_system (trim_space req.user_id) agent.ulid
    db.create_task (new_task req)

  -- `List`
  unfoldable pub list_tasks : String → Call D (List ScheduledTask)
  list_tasks user_id =
      db.tasks.find (λ r. r.user_id == user_id && int_eq r.deleted_at (pos 0))
        (λ a b. int_less b.created_at a.created_at) 0

  -- `Update`
  unfoldable pub update : String → String → String → Call D (Unit {0})
  update user_id id status = do
    lift (
        reject (not (status == active) && not (status == paused))
          (api bad_request "status must be active or paused"))
    n ← db.tasks.update (own_task user_id id) (λ r. record r { status = status })
    lift (affected no_task n)

  -- `Delete`
  unfoldable pub delete_task : String → String → ℤ → Call D (Unit {0})
  delete_task user_id id now = do
    n ← db.tasks.update (own_task user_id id) (λ r. record r { deleted_at = now; status = paused })
    lift (affected no_task n)

  -- `ListApprovals`
  unfoldable pub list_approvals : String → Call D (List ChatApproval)
  list_approvals user_id =
      db.approvals.find (λ r. r.user_id == user_id) (λ a b. int_less b.created_at a.created_at) 200

  -- `DecideApproval`
  unfoldable pub decide_approval : String → String → ApprovalDecision → ℤ → Call D (Unit {0})
  decide_approval user_id id decision now = do
    n ← db.approvals.update (pending_approval user_id id) (decide user_id decision now)
    lift (affected no_pending n)
