-- ===== src/Runtime.antt =====
-- application/service/runtime: the service that runs agents for a user, with the user's models and on
-- the user's devices.
pub mod Values
pub mod Models
pub mod Hydration
pub mod Agents
pub mod Events
pub mod Context
pub mod Dispatching
pub mod Control
