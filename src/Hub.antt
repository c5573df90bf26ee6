-- ===== src/Hub.antt =====
-- application/service/control/hub.go: the hub that joins devices, tasks and actions.
pub mod State
pub mod Devices
pub mod Sessions
pub mod Tasks
pub mod Messages
pub mod Dispatch
pub mod Rules
pub mod Registration
pub mod Binding
pub mod Choosing
pub mod Frames
pub mod Launch
pub mod Ending
pub mod Steps
pub mod Evolution
pub mod Settling
