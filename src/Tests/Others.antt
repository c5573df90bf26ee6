-- ===== src/Tests/Others.antt =====
-- Identifiers, cron expressions and requests on small inputs.
use agent_runtime_client.Base.{
  ℕ, ◌+◌, ◌*◌, ◌%◌, ◌^◌, String, true, none, some, List, [], ◌∷◌, ◌≡◌, ◌≢◌, ◌⊎◌, ◌↔◌, refl, any,
  All, eqb, ◌==◌, if◌then◌else◌, arith, lookup, put,
}
use agent_runtime_client.Protocol.Error.{ok}
use agent_runtime_client.Ulid.{Generator, encode, bump, increment, new}
use agent_runtime_client.Ulid.Value.{Entropy, number_from, value_from, encode-number}
use agent_runtime_client.Ulid.Increment.{increment-value}
use agent_runtime_client.Ulid.Order.{}
use agent_runtime_client.Ulid.Text.{less, new-less}
use agent_runtime_client.Cron.{
  good, contains, split, spread, spread_fuel, has, expand_cron_field, expand_tokens, read_token,
  read_step, read_range, check_bounds, atoi,
}
use agent_runtime_client.Cron.Spread.{spread-enough}
use agent_runtime_client.Cron.Fields.{WellFormed, all_small, allows, expand_cron_field-has}
use agent_runtime_client.Handler.{
  shown, task_request, Network, Request, device_allowed, dispatch_request,
}
use agent_runtime_client.Handler.Access.{
  Entitled, task_request-Entitled, FromMachine, Bears, device_allowed_iff,
}
use agent_runtime_client.Hub.State.{after}
use agent_runtime_client.Hub.Devices.{
  resolve_device, choose_device, supports_capability, bind_device, may_bind, bind_commit,
}
use agent_runtime_client.Hub.Tasks.{
  task, begin_task, begin_existing, save_task, task_user_id, record_action,
}
use agent_runtime_client.Protocol.Validate.{validate_action}
use agent_runtime_client.Protocol.Message.{normalize}
use agent_runtime_client.Hub.Dispatch.{
  waiting, dispatch_start, dispatch_unseen, dispatch_new, dispatch_to, send_action, deliver,
  on_failure,
}
use agent_runtime_client.Tests.Data.{idle_store, click, running, small_hub}

abbrev ten_bytes : List ℕ
ten_bytes = 0 ∷ 0 ∷ 0 ∷ 0 ∷ 0 ∷ 0 ∷ 0 ∷ 0 ∷ 1 ∷ 255 ∷ []

ten_bytes-Entropy : Entropy ten_bytes
ten_bytes-Entropy = record {
  size = refl;
  bytes = (
    omega arith,
    (
      omega arith,
      (
        omega arith,
        (
          omega arith,
          (
            omega arith,
            (omega arith, (omega arith, (omega arith, (omega arith, (omega arith, tt))))),
          ),
        ),
      ),
    ),
  );
}

abbrev generator : Generator
generator = record { last_ms = 1234; last_rand = ten_bytes }

encode-number_example :
    number_from 0 (encode 1234 ten_bytes) ≡ 1234 % 2 ^ 48 * 2 ^ 80 + value_from 0 ten_bytes
encode-number_example = encode-number 1234 ten_bytes ten_bytes-Entropy

increment-value_example : value_from 0 (increment ten_bytes) ≡ (value_from 0 ten_bytes + 1) % 2 ^ 80
increment-value_example = increment-value ten_bytes ten_bytes-Entropy

new-less_example :
    less (new 1234 ten_bytes generator).0 (new 1234 ten_bytes (new 1234 ten_bytes generator).1).0
    ≡ true
unfolding value_from new increment bump
new-less_example =
    new-less 1234 1234 ten_bytes ten_bytes generator ten_bytes-Entropy ten_bytes-Entropy
      ten_bytes-Entropy (omega arith) (omega arith) (omega arith)

spread-enough_example :
    spread 200 0 59 9223372036854775807 ≡ spread spread_fuel 0 59 9223372036854775807
spread-enough_example =
    spread-enough 200 0 59 9223372036854775807 (omega arith) (omega arith) (omega arith)
      (omega arith) (omega arith)

-- A step near 2 ^ 63 wraps around, and the field for minute 59 allows minute 57 as well.
expand_cron_field-wraps : has 57 (spread spread_fuel 59 59 9223372036854775807) ≡ true
unfolding spread
expand_cron_field-wraps = refl

-- Every fifteen minutes from 5 on, and at 7.
abbrev minutes : List ℕ
minutes = 5 ∷ 20 ∷ 35 ∷ 50 ∷ 7 ∷ []

minutes-expanded : expand_cron_field "5-59/15,7" 0 59 ≡ good minutes
unfolding expand_cron_field expand_tokens split read_token read_step read_range check_bounds atoi
    spread contains
minutes-expanded = refl

minutes-small : all_small 0 59 (split (λ c. eqb c b',') "5-59/15,7") ≡ true
unfolding split read_token read_step read_range check_bounds atoi contains
minutes-small = refl

expand_cron_field-has_example :
    All (WellFormed 0 59) (split (λ c. eqb c b',') "5-59/15,7")
    × (has 20 minutes ≡ any (allows 0 59 20) (split (λ c. eqb c b',') "5-59/15,7"))
expand_cron_field-has_example =
    expand_cron_field-has "5-59/15,7" 0 59 20 minutes (omega arith) minutes-small minutes-expanded

task-shown : (task_request "u1" "t1" small_hub).0 ≡ shown running
unfolding task_request task lookup
task-shown = refl

task_request-Entitled_example :
    ((task "t1" small_hub).0 ≡ ok (some running)) × Entitled "u1" running
task_request-Entitled_example = task_request-Entitled "u1" "t1" small_hub running task-shown

-- A network without names, in which one address is the machine's own.
abbrev one_machine : Network
one_machine = record {
  split_host_port = λ a. if a == "127.0.0.1:5000" then some "127.0.0.1" else none;
  parse_ip = λ h. if h == "127.0.0.1" then some true else none;
}

abbrev with_token : Request
with_token = record { remote_addr = "10.0.0.7:5000"; authorization = "Bearer secret" }

device_allowed_iff_example : (device_allowed one_machine "secret" with_token ≡ true) ↔ (
    ((◌≡◌ {A = String} "secret" "") × FromMachine one_machine with_token)
    ⊎ ((◌≢◌ {A = String} "secret" "") × Bears "Bearer secret" "secret"))
device_allowed_iff_example = device_allowed_iff one_machine "secret" with_token

click_waits :
    (dispatch_request (λ g. g) (λ g. g) "u1" "d1" click 7 small_hub).0 ≡ ok (waiting 1 click)
unfolding dispatch_request after resolve_device choose_device supports_capability bind_device
    may_bind bind_commit begin_task begin_existing save_task dispatch_start validate_action
    normalize dispatch_unseen dispatch_new dispatch_to send_action task_user_id record_action
    deliver on_failure lookup put
click_waits = refl
