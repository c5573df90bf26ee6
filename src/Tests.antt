-- ===== src/Tests.antt =====
-- Runs of the model on small inputs: the theorems applied, and the behaviour of the code's own tests.
mod Data
mod Tables
mod Protocol
mod Hub
mod Repository
mod Soundness
mod Runtime
mod Schedule
mod Catalogue
mod Others
