-- ===== src/Utils.antt =====
-- mrp/utils.go: the generic helpers on slices and maps, and the hash that picks a reduce task.
pub mod Slices
pub mod Maps
pub mod Env
pub mod Hash
pub mod SliceLaws
pub mod Chunks
pub mod Grouping
pub mod MapLaws
