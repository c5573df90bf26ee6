-- ===== src/Protocol/Status.antt =====
-- Task statuses and the transition rule of domain/entity/control/protocol.go.
use agent_runtime_client.Base.{
  String, Bool, true, false, not, ◌||◌, ◌≡◌, ◌≢◌, ◌↔◌, ◌==◌, eq_iff, arith, if◌then◌else◌,
}

abbrev pub understanding : String
understanding = "UNDERSTANDING"

abbrev pub planning : String
planning = "PLANNING"

abbrev pub waiting_action : String
waiting_action = "WAITING_ACTION"

abbrev pub waiting_approval : String
waiting_approval = "WAITING_APPROVAL"

abbrev pub executing : String
executing = "EXECUTING"

abbrev pub observing : String
observing = "OBSERVING"

abbrev pub evaluating : String
evaluating = "EVALUATING"

abbrev pub waiting_user : String
waiting_user = "WAITING_USER"

abbrev pub completed : String
completed = "COMPLETED"

abbrev pub failed : String
failed = "FAILED"

abbrev pub cancelled : String
cancelled = "CANCELLED"

-- `TerminalTaskStatus`
unfoldable pub terminal_task_status : String → Bool
terminal_task_status s = s == completed || s == failed || s == cancelled

-- `ValidTaskStatus`
unfoldable pub valid_task_status : String → Bool
valid_task_status s =
    s == understanding
    || s == planning
    || s == waiting_action
    || s == waiting_approval
    || s == executing
    || s == observing
    || s == evaluating
    || s == waiting_user
    || s == completed
    || s == failed
    || s == cancelled

-- `CanTransitionTaskStatus`
unfoldable pub can_transition_task_status : String → String → Bool
can_transition_task_status current next =
    if not (valid_task_status next)
    then false
    else current == "" || current == next || not (terminal_task_status current)

pub terminal→valid : (s : String) → terminal_task_status s ≡ true → valid_task_status s ≡ true
unfolding terminal_task_status valid_task_status
terminal→valid s h = ground arith

pub terminal-ne-empty : (s : String) → terminal_task_status s ≡ true → s ≢ ""
unfolding terminal_task_status
terminal-ne-empty s h e = let h' : terminal_task_status "" ≡ true = rw e at h in cc

-- From a terminal status the only transition allowed is to the same status: the first terminal
-- outcome is authoritative, and writing it again is allowed.
pub transition_from_terminal :
    (current next : String)
    → terminal_task_status current ≡ true
    → (can_transition_task_status current next ≡ true) ↔ (current ≡ next)
unfolding can_transition_task_status
transition_from_terminal current next h = (
  λ t. ground (arith, eq_iff current "", eq_iff current next, terminal-ne-empty current h),
  λ e. ground (arith, eq_iff current next, terminal→valid current h),
)

-- From any other status every valid status can be reached, and no invalid one.
pub transition_from_live :
    (current next : String)
    → terminal_task_status current ≡ false
    → can_transition_task_status current next ≡ valid_task_status next
unfolding can_transition_task_status
transition_from_live current next h = ground arith
