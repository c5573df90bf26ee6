-- ===== src/Repository/Times.antt =====
-- The times that infra/repository/repo/control/store.go writes, read back.
use agent_runtime_client.Base.{◌+◌, ◌-◌, ◌/◌, ◌%◌, ◌^◌, ◌≤◌, ◌≡◌, arith, leb-true, eqb-false}
use agent_runtime_client.Protocol.Message.{Time, zero_time}
use agent_runtime_client.Repository.{unix_epoch, millis, from_millis}

-- A time from the first millisecond after 1970 on is read back with its milliseconds.
pub from_millis-millis :
    (t : Time) → unix_epoch + 10 ^ 6 ≤ t → from_millis (millis t) ≡ t - (t - unix_epoch) % 10 ^ 6
unfolding millis from_millis
from_millis-millis t h =
    rw
      (
        eqb-false t zero_time (omega arith),
        leb-true unix_epoch t (omega arith),
        eqb-false ((t - unix_epoch) / 10 ^ 6) 0 (omega arith),
      )
      (omega arith)
