-- ===== src/Coordinator.antt =====
-- mrp/coordinator.go: the coordinator accepts downloads into its durable log, uploads the files of
-- completed handles to the distributed file system, and has the master process them.
pub mod Calls
pub mod Upload
pub mod Poll
pub mod Life
