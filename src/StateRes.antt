-- ===== src/StateRes.antt =====
-- State resolution (internal/usecase/state_res_sort.go).
pub mod Levels
pub mod Sort
pub mod Partition
pub mod Resolve
