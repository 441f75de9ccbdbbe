-- ===== src/Tests.antt =====
-- Tests of the models on small inputs, and the theorems at inputs where their hypotheses hold.
mod Data
mod Ring
mod Threads
mod Log
mod Registry
mod Work
mod Plugins
mod Processes
mod Tasks
mod Uploads
mod Masters
mod Coordination
mod Helpers
