-- ===== src/Protocol/Accepted.antt =====
-- What the `Validate` methods accept, said without their order of checks.
use agent_runtime_client.Base.{
  ℕ, ◌≤◌, ℤ, pos, is_pos, is_neg, negsuc, ◌||◌, exceeds, String, true, false, ◌≡◌, ◌≢◌, ◌⊎◌, ◌↔◌,
  refl, arith, differs, eqb-false, not, ◌&&◌, eq_iff, ◌==◌,
}
use agent_runtime_client.Protocol.Error.{ok}
use agent_runtime_client.Protocol.Message.{
  zero_time, type_action, type_progress, risk_low, risk_medium, risk_high, allow, ask_user, block,
  Action, Progress,
}
use agent_runtime_client.Protocol.Validate.{validate_action, validate_progress}

abbrev pub OneOf : String → String → String → String → Type 0
OneOf s a b c = (s ≡ a) ⊎ ((s ≡ b) ⊎ (s ≡ c))

-- A well-formed action.
pub record ActionAccepted (a : Action) : Type 0 where
  pub protocol : a.protocol ≡ "athena.agent.v3"
  pub type : a.type ≡ type_action
  pub task_id : a.task_id ≢ ""
  pub action_id : a.action_id ≢ ""
  pub idempotency_key : a.idempotency_key ≢ ""
  pub capability : a.capability ≢ ""
  pub sequence : is_pos a.sequence ≡ true
  pub deadline : a.deadline ≢ zero_time
  pub risk : OneOf a.policy.risk risk_low risk_medium risk_high
  pub decision : OneOf a.policy.decision allow ask_user block

pub one_of :
    (s a b c : String) → ((s == a) ≡ true) ⊎ (((s == b) ≡ true) ⊎ ((s == c) ≡ true)) → OneOf s a b c
one_of s a b c h = ground (arith, eq_iff s a, eq_iff s b, eq_iff s c)

pub none_of :
    (s a b c : String) → OneOf s a b c → (not (s == a) && not (s == b) && not (s == c)) ≡ false
none_of s a b c h = ground (arith, eq_iff s a, eq_iff s b, eq_iff s c)

-- `Action.Validate` accepts exactly the well-formed actions.
pub validate_action_iff : (a : Action) → (validate_action a ≡ ok tt) ↔ ActionAccepted a
unfolding validate_action
validate_action_iff a = (
  λ h. record {
    protocol = ground (arith, eq_iff a.protocol "athena.agent.v3");
    type = ground (arith, eq_iff a.type type_action);
    task_id = ground (arith, eq_iff a.task_id "");
    action_id = ground (arith, eq_iff a.action_id "");
    idempotency_key = ground (arith, eq_iff a.idempotency_key "");
    capability = ground (arith, eq_iff a.capability "");
    sequence = ground arith;
    deadline = ground arith;
    risk = one_of a.policy.risk _ _ _ (ground arith);
    decision = one_of a.policy.decision _ _ _ (ground arith);
  },
  λ w. rw (
    w.protocol,
    w.type,
    differs _ _ w.task_id,
    differs _ _ w.action_id,
    differs _ _ w.idempotency_key,
    differs _ _ w.capability,
    w.sequence,
    eqb-false _ _ w.deadline,
    none_of _ _ _ _ w.risk,
    none_of _ _ _ _ w.decision,
  ),
)

-- A well-formed progress message.
pub record ProgressAccepted (p : Progress) : Type 0 where
  pub protocol : p.protocol ≡ "athena.agent.v3"
  pub type : p.type ≡ type_progress
  pub task_id : p.task_id ≢ ""
  pub action_id : p.action_id ≢ ""
  pub sequence : is_pos p.sequence ≡ true
  pub sent_at : p.sent_at ≢ zero_time
  pub percent : (n : ℕ) × (p.progress ≡ pos n) × (n ≤ 100)

percent : (z : ℤ) → (is_neg z || exceeds z 100) ≡ false → (n : ℕ) × (z ≡ pos n) × (n ≤ 100)
percent (pos n) h = (n, refl, ground arith)
percent (negsuc n) h = cc

-- `Progress.Validate` accepts exactly the well-formed progress messages: those from 0 to 100
-- percent, with a task, an action, a positive sequence number and a time.
validate_progress_iff : (p : Progress) → (validate_progress p ≡ ok tt) ↔ ProgressAccepted p
unfolding validate_progress
validate_progress_iff p = (
  λ h. record {
    protocol = ground (arith, eq_iff p.protocol "athena.agent.v3");
    type = ground (arith, eq_iff p.type type_progress);
    task_id = ground (arith, eq_iff p.task_id "");
    action_id = ground (arith, eq_iff p.action_id "");
    sequence = ground arith;
    sent_at = ground arith;
    percent = percent p.progress (ground arith);
  },
  λ w. ground (
    arith,
    eq_iff p.protocol "athena.agent.v3",
    eq_iff p.type type_progress,
    eq_iff p.task_id "",
    eq_iff p.action_id "",
  ),
)
