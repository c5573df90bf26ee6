-- ===== src/Schedule.antt =====
-- Scheduled tasks: application/service/scheduledtask/service.go, which runs an agent at the times of a cron
-- expression, and its rows.
pub mod Rows
pub mod Requests
pub mod Text
pub mod Running
pub mod Ticks
pub mod Slots
pub mod Writes
pub mod Starting
pub mod Once
pub mod Limit
pub mod Decisions
