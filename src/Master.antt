-- ===== src/Master.antt =====
-- mrp/master.go: the master plans the chunks of a file, dispatches them to the workers, and collates
-- their results.
pub mod State
pub mod Plan
pub mod Dispatch
pub mod Submit
pub mod Life
