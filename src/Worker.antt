-- ===== src/Worker.antt =====
-- mrp/worker.go: the map, partition and reduce of a chunk, and what a worker reads and submits.
pub mod Chunk
pub mod Reduce
pub mod Counts
pub mod Partition
pub mod Pipeline
pub mod Life
pub mod Task
